-- ===== src/Ingestion/Checks.antt =====
-- What services/ingestion/validate.py accepts, check by check.
use indu_sense.Base.{
  String, ◌≡◌, refl, ◌↔◌, Bool, true, false, not, ◌&&◌, Option, none, ◌==◌, mem, arith,
}
use indu_sense.Events.{valid_metrics, TelemetryEvent, MachineEvent}
use indu_sense.Ingestion.{
  no_timestamp, no_sequence_number, unknown_metric, not_finite, no_unit, no_status_or_event_type,
  Externals, Violation, unless, require_uuid, is_none, is_zero, validate_telemetry,
  validate_machine_event,
}

module _ {F : Type 0} (x : Externals F) where
  -- a field that `require_uuid` accepts
  abbrev pub IsUuid : String → Type 0
  IsUuid value = (value == "" ≡ false) × (x.is_uuid value ≡ true)

  pub record AcceptedTelemetry (evt : TelemetryEvent F) : Type 0 where
    pub event_id : IsUuid evt.event_id
    pub organization_id : IsUuid evt.organization_id
    pub factory_id : IsUuid evt.factory_id
    pub production_line_id : IsUuid evt.production_line_id
    pub machine_id : IsUuid evt.machine_id
    pub device_id : IsUuid evt.device_id
    pub sensor_id : IsUuid evt.sensor_id
    pub timestamp : is_none evt.timestamp ≡ false
    pub sequence_number : is_zero evt.sequence_number ≡ false
    pub metric : mem evt.metric valid_metrics ≡ true
    pub value : x.is_finite evt.value ≡ true
    pub unit : evt.unit == "" ≡ false

  unless-none :
      (bad : Bool) (v : Violation) (rest : Option Violation)
      → (unless bad v rest ≡ none) ↔ ((bad ≡ false) × (rest ≡ none))
  unless-none bad v rest = ground arith

  require_uuid-none :
      (field value : String) (rest : Option Violation)
      → (require_uuid x field value rest ≡ none) ↔ (IsUuid value × (rest ≡ none))
  require_uuid-none field value rest = ground arith

  not-false : (b : Bool) → not b ≡ false → b ≡ true
  not-false b h = ground arith

  not-true : (b : Bool) → b ≡ true → not b ≡ false
  not-true b h = ground arith

  -- validate_telemetry returns exactly for the events whose seven ids are UUIDs, that have a
  -- timestamp, a sequence number other than 0, a known metric, a finite value and a unit.
  pub validate_telemetry-none_iff :
      (evt : TelemetryEvent F) → (validate_telemetry x evt ≡ none) ↔ AcceptedTelemetry evt
  unfolding validate_telemetry
  validate_telemetry-none_iff evt = (
    λ h.
        let p0 = (require_uuid-none "event_id" evt.event_id _).0 h in
        let p1 = (require_uuid-none "organization_id" evt.organization_id _).0 p0.1 in
        let p2 = (require_uuid-none "factory_id" evt.factory_id _).0 p1.1 in
        let p3 = (require_uuid-none "production_line_id" evt.production_line_id _).0 p2.1 in
        let p4 = (require_uuid-none "machine_id" evt.machine_id _).0 p3.1 in
        let p5 = (require_uuid-none "device_id" evt.device_id _).0 p4.1 in
        let p6 = (require_uuid-none "sensor_id" evt.sensor_id _).0 p5.1 in
        let q0 = (unless-none (is_none evt.timestamp) no_timestamp _).0 p6.1 in
        let q1 = (unless-none (is_zero evt.sequence_number) no_sequence_number _).0 q0.1 in
        let q2 = (unless-none (not (mem evt.metric valid_metrics)) unknown_metric _).0 q1.1 in
        let q3 = (unless-none (not (x.is_finite evt.value)) not_finite _).0 q2.1 in
        let q4 = (unless-none (evt.unit == "") no_unit _).0 q3.1 in
        record {
          event_id = p0.0;
          organization_id = p1.0;
          factory_id = p2.0;
          production_line_id = p3.0;
          machine_id = p4.0;
          device_id = p5.0;
          sensor_id = p6.0;
          timestamp = q0.0;
          sequence_number = q1.0;
          metric = not-false _ q2.0;
          value = not-false _ q3.0;
          unit = q4.0;
        },
    λ a. (require_uuid-none "event_id" evt.event_id _).1 (
      a.event_id,
      (require_uuid-none "organization_id" evt.organization_id _).1 (
        a.organization_id,
        (require_uuid-none "factory_id" evt.factory_id _).1 (
          a.factory_id,
          (require_uuid-none "production_line_id" evt.production_line_id _).1 (
            a.production_line_id,
            (require_uuid-none "machine_id" evt.machine_id _).1 (
              a.machine_id,
              (require_uuid-none "device_id" evt.device_id _).1 (
                a.device_id,
                (require_uuid-none "sensor_id" evt.sensor_id _).1 (
                  a.sensor_id,
                  (unless-none (is_none evt.timestamp) no_timestamp _).1 (
                    a.timestamp,
                    (unless-none (is_zero evt.sequence_number) no_sequence_number _).1 (
                      a.sequence_number,
                      (unless-none (not (mem evt.metric valid_metrics)) unknown_metric _).1 (
                        not-true _ a.metric,
                        (unless-none (not (x.is_finite evt.value)) not_finite _).1 (
                          not-true _ a.value,
                          (unless-none (evt.unit == "") no_unit _).1 (a.unit, refl),
                        ),
                      ),
                    ),
                  ),
                ),
              ),
            ),
          ),
        ),
      ),
    ),
  )

  pub record AcceptedMachine (evt : MachineEvent) : Type 0 where
    pub organization_id : IsUuid evt.organization_id
    pub factory_id : IsUuid evt.factory_id
    pub machine_id : IsUuid evt.machine_id
    pub timestamp : is_none evt.timestamp ≡ false
    pub status_or_event_type : evt.status == "" && evt.event_type == "" ≡ false

  -- validate_machine_event returns exactly for the events whose three ids are UUIDs, that have a
  -- timestamp, and a status or an event type.
  pub validate_machine_event-none_iff :
      (evt : MachineEvent) → (validate_machine_event x evt ≡ none) ↔ AcceptedMachine evt
  unfolding validate_machine_event
  validate_machine_event-none_iff evt = (
    λ h.
        let p0 = (require_uuid-none "organization_id" evt.organization_id _).0 h in
        let p1 = (require_uuid-none "factory_id" evt.factory_id _).0 p0.1 in
        let p2 = (require_uuid-none "machine_id" evt.machine_id _).0 p1.1 in
        let q0 = (unless-none (is_none evt.timestamp) no_timestamp _).0 p2.1 in
        let q1 =
          (unless-none (evt.status == "" && evt.event_type == "") no_status_or_event_type _).0
            q0.1 in
        record {
          organization_id = p0.0;
          factory_id = p1.0;
          machine_id = p2.0;
          timestamp = q0.0;
          status_or_event_type = q1.0;
        },
    λ a. (require_uuid-none "organization_id" evt.organization_id _).1 (
      a.organization_id,
      (require_uuid-none "factory_id" evt.factory_id _).1 (
        a.factory_id,
        (require_uuid-none "machine_id" evt.machine_id _).1 (
          a.machine_id,
          (unless-none (is_none evt.timestamp) no_timestamp _).1 (
            a.timestamp,
            (unless-none (evt.status == "" && evt.event_type == "") no_status_or_event_type _).1
                (a.status_or_event_type, refl),
          ),
        ),
      ),
    ),
  )
