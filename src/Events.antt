-- ===== src/Events.antt =====
-- shared/events.py: the wire formats. A timestamp is an instant, in microseconds; a reading is a
-- value of a type `F` of floating-point numbers.
use indu_sense.Base.{ℕ, String, Option, List, [], ◌∷◌}

-- An integer of the wire format; `negsuc n` is -(n + 1).
pub data ℤ : Type 0 where
  pos : ℕ → ℤ
  negsuc : ℕ → ℤ

abbrev pub valid_metrics : List String
valid_metrics =
    "temperature" ∷ "vibration" ∷ "pressure" ∷ "rpm" ∷ "current" ∷ "voltage" ∷ "power" ∷ "humidity"
    ∷ "acoustic_level" ∷ []

abbrev pub schema_version : ℕ
schema_version = 1

pub record TelemetryEvent (F : Type 0) : Type 0 where
  pub event_id : String
  pub organization_id : String
  pub factory_id : String
  pub production_line_id : String
  pub machine_id : String
  pub device_id : String
  pub sensor_id : String
  pub timestamp : Option ℕ
  pub sequence_number : ℤ
  pub metric : String
  pub value : F
  pub unit : String

pub record NormalizedTelemetryEvent (F : Type 0) : Type 0 where
  pub event : TelemetryEvent F
  pub correlation_id : String
  pub ingested_at : ℕ
  pub schema : ℕ

pub record MachineEvent : Type 0 where
  pub organization_id : String
  pub factory_id : String
  pub machine_id : String
  pub device_id : String
  pub sensor_id : String
  pub status : String
  pub event_type : String
  pub timestamp : Option ℕ

pub record NormalizedMachineEvent : Type 0 where
  pub event : MachineEvent
  pub correlation_id : String
  pub ingested_at : ℕ
  pub schema : ℕ

pub data ErrorType : Type 0 where
  validation_error transient_error : ErrorType

-- `DeadLetterRecord`, without the text of the error
pub record DeadLetterRecord : Type 0 where
  pub original_payload : String
  pub error_type : ErrorType
  pub service : String
  pub processing_stage : String
  pub retry_count : ℕ
  pub timestamp : ℕ
  pub correlation_id : String
  pub source_topic : String
