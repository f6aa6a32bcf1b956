-- ===== src/Ingestion/Handlers.antt =====
-- services/ingestion: the handlers of main.py. A handler returns whether the MQTT message was
-- acknowledged, and the sink.
pub mod Durable
use indu_sense.Base.{ℕ, String, Bool, true, false, Option, none, some, ends_with, if◌then◌else◌}
use indu_sense.Events.{
  TelemetryEvent, NormalizedTelemetryEvent, MachineEvent, NormalizedMachineEvent, schema_version,
}
use indu_sense.Ingestion.{Externals, Violation, validate_telemetry, validate_machine_event}
use indu_sense.Ingestion.Sink.{
  Message, telemetry_raw, device_events, KafkaSink, Given, publish, dead_letter_validation_failure,
}

pub record InboundMessage : Type 0 where
  pub topic : String
  pub payload : String

module _ {F : Type 0} (x : Externals F) where
  abbrev pub normalized : TelemetryEvent F → ℕ → NormalizedTelemetryEvent F
  normalized raw now = record {
    event = raw;
    correlation_id = raw.event_id;
    ingested_at = now;
    schema = schema_version;
  }

  checked_telemetry :
      KafkaSink F
      → Given
      → InboundMessage
      → TelemetryEvent F
      → Option Violation
      → Bool × KafkaSink F
  checked_telemetry s g job raw (some v) =
      dead_letter_validation_failure s g job.payload raw.event_id job.topic
  checked_telemetry s g job raw none =
      publish s g (telemetry_raw raw.device_id (normalized raw g.now)) job.payload raw.event_id
        job.topic

  parsed_telemetry :
      KafkaSink F → Given → InboundMessage → Option (TelemetryEvent F) → Bool × KafkaSink F
  unfolding checked_telemetry
  parsed_telemetry s g job none = dead_letter_validation_failure s g job.payload g.uuid job.topic
  parsed_telemetry s g job (some raw) = checked_telemetry s g job raw (validate_telemetry x raw)

  unfoldable pub handle_telemetry : KafkaSink F → Given → InboundMessage → Bool × KafkaSink F
  unfolding parsed_telemetry
  handle_telemetry s g job = parsed_telemetry s g job (x.parse_telemetry job.payload)

  abbrev pub normalized_machine : MachineEvent → Given → NormalizedMachineEvent
  normalized_machine raw g = record {
    event = raw;
    correlation_id = g.uuid;
    ingested_at = g.now;
    schema = schema_version;
  }

  checked_machine :
      KafkaSink F → Given → InboundMessage → MachineEvent → Option Violation → Bool × KafkaSink F
  checked_machine s g job raw (some v) =
      dead_letter_validation_failure s g job.payload g.uuid job.topic
  checked_machine s g job raw none =
      publish s g (device_events raw.device_id (normalized_machine raw g)) job.payload g.uuid
        job.topic

  parsed_machine : KafkaSink F → Given → InboundMessage → Option MachineEvent → Bool × KafkaSink F
  unfolding checked_machine
  parsed_machine s g job none = dead_letter_validation_failure s g job.payload g.uuid job.topic
  parsed_machine s g job (some raw) = checked_machine s g job raw (validate_machine_event x raw)

  unfoldable pub handle_machine_event : KafkaSink F → Given → InboundMessage → Bool × KafkaSink F
  unfolding parsed_machine
  handle_machine_event s g job = parsed_machine s g job (x.parse_machine job.payload)

  -- an unrecognized topic is acknowledged and dropped
  unfoldable pub process_message : KafkaSink F → Given → InboundMessage → Bool × KafkaSink F
  process_message s g job =
      if ends_with job.topic "/telemetry"
      then handle_telemetry s g job
      else if ends_with job.topic "/status"
      then handle_machine_event s g job
      else if ends_with job.topic "/events"
      then handle_machine_event s g job
      else (true, s)
