-- ===== src/Ingestion/Sink.antt =====
-- services/ingestion: `KafkaSink` of kafka_producer.py. The three producers share one broker, whose
-- answers are given in the order of the messages. That an event cannot be written as JSON is not
-- modelled.
use indu_sense.Base.{ℕ, String, Bool, true}
use indu_sense.Reliability.{
  CircuitBreaker, Written, written, breaker_open, write_failed, protected_write,
}
use indu_sense.Kafka.{Broker, produce_and_wait, is_done}
use indu_sense.Events.{
  NormalizedTelemetryEvent, NormalizedMachineEvent, DeadLetterRecord, ErrorType, validation_error,
  transient_error,
}

-- A message with its topic and key.
pub data Message (F : Type 0) : Type 0 where
  telemetry_raw : String → NormalizedTelemetryEvent F → Message F
  device_events : String → NormalizedMachineEvent → Message F
  dead_letters : DeadLetterRecord → Message F

pub record KafkaSink (F : Type 0) : Type 0 where
  pub broker : Broker (Message F)
  pub breaker : CircuitBreaker
  pub max_retries : ℕ
  pub retry_base_delay : ℕ

-- What the surroundings give to the handling of one message: the readings of the monotonic clock
-- in `allow` and `record_failure`, the time of day, and a generated id.
pub record Given : Type 0 where
  pub clock : ℕ × ℕ
  pub now : ℕ
  pub uuid : String
  -- `payload.decode("utf-8", errors="replace")`
  pub decoded : String → String

abbrev pub dead_letter_record :
    ℕ → String → ErrorType → String → ℕ → String → String → DeadLetterRecord
dead_letter_record max_retries payload error_type stage now correlation_id source_topic = record {
  original_payload = payload;
  error_type = error_type;
  service = "ingestion";
  processing_stage = stage;
  retry_count = max_retries;
  timestamp = now;
  correlation_id = correlation_id;
  source_topic = source_topic;
}

module _ {F : Type 0} where
  -- `_dead_letter`: whether it returned, rather than raised `KafkaPublishError`
  unfoldable pub dead_letter :
      KafkaSink F → Given → String → ErrorType → String → String → String → Bool × KafkaSink F
  dead_letter s g payload error_type stage correlation_id source_topic =
      let m = dead_letters (
        dead_letter_record s.max_retries (g.decoded payload) error_type stage g.now correlation_id
          source_topic) in
      let r = produce_and_wait m s.broker in (is_done r.0, record s { broker = r.1 })

  -- `_write_with_protection`
  unfoldable pub write_with_protection : KafkaSink F → ℕ × ℕ → Message F → Written × KafkaSink F
  write_with_protection s clock m =
      let r =
        protected_write s.max_retries s.retry_base_delay clock (produce_and_wait m) s.broker
          s.breaker in
      (r.result, record s { broker = r.world; breaker = r.breaker })

  -- the `except` of the two `publish` methods
  unfoldable pub or_dead_letter :
      Written → KafkaSink F → Given → String → String → String → Bool × KafkaSink F
  unfolding dead_letter
  or_dead_letter written s g payload correlation_id source_topic = (true, s)
  or_dead_letter breaker_open s g payload correlation_id source_topic =
      dead_letter s g payload transient_error "kafka_publish" correlation_id source_topic
  or_dead_letter (write_failed o) s g payload correlation_id source_topic =
      dead_letter s g payload transient_error "kafka_publish" correlation_id source_topic

  -- `publish_telemetry` and `publish_machine_event`: whether the call returned
  unfoldable pub publish :
      KafkaSink F → Given → Message F → String → String → String → Bool × KafkaSink F
  unfolding or_dead_letter write_with_protection
  publish s g m payload correlation_id source_topic =
      let r = write_with_protection s g.clock m in
      or_dead_letter r.0 r.1 g payload correlation_id source_topic

  unfoldable pub dead_letter_validation_failure :
      KafkaSink F → Given → String → String → String → Bool × KafkaSink F
  unfolding dead_letter
  dead_letter_validation_failure s g payload correlation_id source_topic =
      dead_letter s g payload validation_error "validation" correlation_id source_topic
