-- ===== src/Ingestion.antt =====
-- services/ingestion: the checks of validate.py, in their order.
pub mod Sink
pub mod Handlers
pub mod Mqtt
pub mod Checks
use indu_sense.Base.{
  ℕ, zero, suc, String, ◌≡◌, Bool, true, false, ◌&&◌, not, Option, none, some, List, [], ◌∷◌, ◌==◌,
  mem, if◌then◌else◌,
}
use indu_sense.Events.{ℤ, pos, negsuc, valid_metrics, TelemetryEvent, MachineEvent}

-- What the code asks of libraries: `uuid.UUID(value)` succeeds, `value` is neither NaN nor infinite, and
-- `model_validate_json` returns an event.
pub record Externals (F : Type 0) : Type 0 where
  pub is_uuid : String → Bool
  pub is_finite : F → Bool
  pub parse_telemetry : String → Option (TelemetryEvent F)
  pub parse_machine : String → Option MachineEvent

-- the `ValueError` that names the first violation
pub data Violation : Type 0 where
  empty not_uuid : String → Violation
  no_timestamp no_sequence_number unknown_metric not_finite no_unit no_status_or_event_type :
      Violation

abbrev pub is_none {ℓ} : {A : Type ℓ} → Option A → Bool
is_none none = true
is_none (some a) = false

abbrev pub is_zero : ℤ → Bool
is_zero (pos zero) = true
is_zero (pos (suc n)) = false
is_zero (negsuc n) = false

-- `if bad: raise v`, and on to the next check
abbrev pub unless : Bool → Violation → Option Violation → Option Violation
unless bad v rest = if bad then some v else rest

module _ {F : Type 0} (x : Externals F) where
  abbrev pub require_uuid : String → String → Option Violation → Option Violation
  require_uuid field value rest =
      unless (value == "") (empty field) (unless (not (x.is_uuid value)) (not_uuid field) rest)

  unfoldable pub validate_telemetry : TelemetryEvent F → Option Violation
  validate_telemetry evt = require_uuid "event_id" evt.event_id (
      require_uuid "organization_id" evt.organization_id (
        require_uuid "factory_id" evt.factory_id (
          require_uuid "production_line_id" evt.production_line_id (
            require_uuid "machine_id" evt.machine_id (
              require_uuid "device_id" evt.device_id (
                require_uuid "sensor_id" evt.sensor_id (
                  unless (is_none evt.timestamp) no_timestamp (
                    unless (is_zero evt.sequence_number) no_sequence_number (
                      unless (not (mem evt.metric valid_metrics)) unknown_metric (
                        unless (not (x.is_finite evt.value)) not_finite
                          (unless (evt.unit == "") no_unit none)))))))))))

  unfoldable pub validate_machine_event : MachineEvent → Option Violation
  validate_machine_event evt = require_uuid "organization_id" evt.organization_id (
      require_uuid "factory_id" evt.factory_id (
        require_uuid "machine_id" evt.machine_id (
          unless (is_none evt.timestamp) no_timestamp
            (unless (evt.status == "" && evt.event_type == "") no_status_or_event_type none))))
