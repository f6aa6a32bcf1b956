-- ===== src/Ingestion/Handlers/Durable.antt =====
-- What an acknowledgement of services/ingestion/main.py means.
use indu_sense.Base.{ℕ, String, ◌≡◌, refl, ◌⊎◌, inl, inr, true, Option, none, some, In}
use indu_sense.Reliability.{Written, written, breaker_open, write_failed}
use indu_sense.Reliability.Outage.{protected_write-written}
use indu_sense.Kafka.{produce_and_wait, produce_and_wait-done, done_of}
use indu_sense.Events.{
  TelemetryEvent, MachineEvent, DeadLetterRecord, ErrorType, transient_error, validation_error,
}
use indu_sense.Ingestion.{Externals, Violation, validate_telemetry, validate_machine_event}
use indu_sense.Ingestion.Sink.{
  Message, telemetry_raw, device_events, dead_letters, KafkaSink, Given, publish, dead_letter,
  dead_letter_record, dead_letter_validation_failure, write_with_protection, or_dead_letter,
}
use indu_sense.Ingestion.Handlers.{
  InboundMessage, normalized, normalized_machine, handle_telemetry, handle_machine_event,
  checked_telemetry, parsed_telemetry, checked_machine, parsed_machine,
}

module _ {F : Type 0} where
  -- the payload stands in a dead letter
  pub record DeadLettered (payload : String) (s : KafkaSink F) : Type 0 where
    pub letter : DeadLetterRecord
    pub same_payload : letter.original_payload ≡ payload
    pub stands : In (dead_letters letter) s.broker.log

  dead_letter-DeadLettered :
      (s : KafkaSink F) (g : Given) (payload : String) (e : ErrorType)
      (stage correlation_id topic : String)
      → (dead_letter s g payload e stage correlation_id topic).0 ≡ true
      → DeadLettered (g.decoded payload) (dead_letter s g payload e stage correlation_id topic).1
  unfolding dead_letter
  dead_letter-DeadLettered s g payload e stage correlation_id topic h =
      let l =
        dead_letter_record s.max_retries (g.decoded payload) e stage g.now correlation_id topic in
      record {
        letter = l;
        same_payload = refl;
        stands = produce_and_wait-done (dead_letters l) s.broker (done_of _ h);
      }

  or_dead_letter-durable :
      (r : Written) (s : KafkaSink F) (g : Given) (m : Message F)
      (payload correlation_id topic : String)
      → (r ≡ written → In m s.broker.log)
      → (or_dead_letter r s g payload correlation_id topic).0 ≡ true
      → In m (or_dead_letter r s g payload correlation_id topic).1.broker.log
        ⊎ DeadLettered (g.decoded payload) (or_dead_letter r s g payload correlation_id topic).1
  unfolding or_dead_letter
  or_dead_letter-durable written s g m payload correlation_id topic good h = inl (good refl)
  or_dead_letter-durable breaker_open s g m payload correlation_id topic good h =
      inr (
        dead_letter-DeadLettered s g payload transient_error "kafka_publish" correlation_id topic h)
  or_dead_letter-durable (write_failed o) s g m payload correlation_id topic good h =
      inr (
        dead_letter-DeadLettered s g payload transient_error "kafka_publish" correlation_id topic h)

  write_with_protection-written :
      (s : KafkaSink F) (clock : ℕ × ℕ) (m : Message F)
      → (write_with_protection s clock m).0 ≡ written
      → In m (write_with_protection s clock m).1.broker.log
  unfolding write_with_protection
  write_with_protection-written s clock m =
      protected_write-written (λ b. In m b.log) (produce_and_wait m) (produce_and_wait-done m)
        s.max_retries s.retry_base_delay clock s.broker s.breaker

  -- A publication that returns has put the message, or a dead letter with its payload, on a topic.
  publish-durable :
      (s : KafkaSink F) (g : Given) (m : Message F) (payload correlation_id topic : String)
      → (publish s g m payload correlation_id topic).0 ≡ true
      → In m (publish s g m payload correlation_id topic).1.broker.log
        ⊎ DeadLettered (g.decoded payload) (publish s g m payload correlation_id topic).1
  unfolding publish
  publish-durable s g m payload correlation_id topic h =
      let r = write_with_protection s g.clock m in
      or_dead_letter-durable r.0 r.1 g m payload correlation_id topic
        (write_with_protection-written s g.clock m) h

module _ {F : Type 0} (x : Externals F) (s : KafkaSink F) (g : Given) (job : InboundMessage) where
  pub record Published (s' : KafkaSink F) : Type 0 where
    pub raw : TelemetryEvent F
    pub parsed : x.parse_telemetry job.payload ≡ some raw
    pub valid : validate_telemetry x raw ≡ none
    pub stands : In (telemetry_raw raw.device_id (normalized x raw g.now)) s'.broker.log

  pub record PublishedMachine (s' : KafkaSink F) : Type 0 where
    pub raw : MachineEvent
    pub parsed : x.parse_machine job.payload ≡ some raw
    pub valid : validate_machine_event x raw ≡ none
    pub stands : In (device_events raw.device_id (normalized_machine x raw g)) s'.broker.log

  validation_failure-DeadLettered :
      (id : String)
      → (dead_letter_validation_failure s g job.payload id job.topic).0 ≡ true
      → DeadLettered
          (g.decoded job.payload)
          (dead_letter_validation_failure s g job.payload id job.topic).1
  unfolding dead_letter_validation_failure
  validation_failure-DeadLettered id =
      dead_letter-DeadLettered s g job.payload validation_error "validation" id job.topic

  checked_telemetry-durable :
      (raw : TelemetryEvent F) (v : Option Violation)
      → x.parse_telemetry job.payload ≡ some raw
      → validate_telemetry x raw ≡ v
      → (checked_telemetry x s g job raw v).0 ≡ true
      → Published (checked_telemetry x s g job raw v).1
        ⊎ DeadLettered (g.decoded job.payload) (checked_telemetry x s g job raw v).1
  unfolding checked_telemetry
  checked_telemetry-durable raw (some w) p e h =
      inr (validation_failure-DeadLettered raw.event_id h)
  checked_telemetry-durable raw none p e h =
      elim (publish-durable s g (telemetry_raw raw.device_id (normalized x raw g.now)) job.payload
        raw.event_id job.topic h) [
          | inl i ↦ inl (record { raw = raw; parsed = p; valid = e; stands = i })
          | inr d ↦ inr d
        ]

  parsed_telemetry-durable :
      (o : Option (TelemetryEvent F))
      → x.parse_telemetry job.payload ≡ o
      → (parsed_telemetry x s g job o).0 ≡ true
      → Published (parsed_telemetry x s g job o).1
        ⊎ DeadLettered (g.decoded job.payload) (parsed_telemetry x s g job o).1
  unfolding parsed_telemetry
  parsed_telemetry-durable none p h = inr (validation_failure-DeadLettered g.uuid h)
  parsed_telemetry-durable (some raw) p h =
      checked_telemetry-durable raw (validate_telemetry x raw) p refl h

  -- A telemetry message that ingestion acknowledges has been parsed and validated and stands on
  -- the topic of raw telemetry under its device's key, or its payload, decoded with replacement,
  -- stands in a dead letter.
  pub handle_telemetry-acknowledged :
      (handle_telemetry x s g job).0 ≡ true
      → Published (handle_telemetry x s g job).1
        ⊎ DeadLettered (g.decoded job.payload) (handle_telemetry x s g job).1
  unfolding handle_telemetry
  handle_telemetry-acknowledged h = parsed_telemetry-durable (x.parse_telemetry job.payload) refl h

  checked_machine-durable :
      (raw : MachineEvent) (v : Option Violation)
      → x.parse_machine job.payload ≡ some raw
      → validate_machine_event x raw ≡ v
      → (checked_machine x s g job raw v).0 ≡ true
      → PublishedMachine (checked_machine x s g job raw v).1
        ⊎ DeadLettered (g.decoded job.payload) (checked_machine x s g job raw v).1
  unfolding checked_machine
  checked_machine-durable raw (some w) p e h = inr (validation_failure-DeadLettered g.uuid h)
  checked_machine-durable raw none p e h =
      elim (publish-durable s g (device_events raw.device_id (normalized_machine x raw g))
        job.payload g.uuid job.topic h) [
          | inl i ↦ inl (record { raw = raw; parsed = p; valid = e; stands = i })
          | inr d ↦ inr d
        ]

  parsed_machine-durable :
      (o : Option MachineEvent)
      → x.parse_machine job.payload ≡ o
      → (parsed_machine x s g job o).0 ≡ true
      → PublishedMachine (parsed_machine x s g job o).1
        ⊎ DeadLettered (g.decoded job.payload) (parsed_machine x s g job o).1
  unfolding parsed_machine
  parsed_machine-durable none p h = inr (validation_failure-DeadLettered g.uuid h)
  parsed_machine-durable (some raw) p h =
      checked_machine-durable raw (validate_machine_event x raw) p refl h

  -- A machine event that ingestion acknowledges has been parsed and validated and stands on the
  -- topic of device events under its device's key, or its payload stands in a dead letter.
  pub handle_machine_event-acknowledged :
      (handle_machine_event x s g job).0 ≡ true
      → PublishedMachine (handle_machine_event x s g job).1
        ⊎ DeadLettered (g.decoded job.payload) (handle_machine_event x s g job).1
  unfolding handle_machine_event
  handle_machine_event-acknowledged h = parsed_machine-durable (x.parse_machine job.payload) refl h
