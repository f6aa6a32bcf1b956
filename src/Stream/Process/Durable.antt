-- ===== src/Stream/Process/Durable.antt =====
-- What a committed offset of services/stream-processor/main.py means.
use indu_sense.Base.{
  ℕ, String, ◌≡◌, refl, ◌⊎◌, inl, inr, Bool, true, false, Option, none, some, List, In, Bool-cases,
}
use indu_sense.Base.Dict.{lookup}
use indu_sense.Reliability.{Written, written, breaker_open, write_failed}
use indu_sense.Events.{NormalizedTelemetryEvent, DeadLetterRecord}
use indu_sense.Kafka.{Client, write, write-written, send, send-returned}
use indu_sense.Stream.Process.{
  Point, Output, processed, dead_letters, Processor, Given, commits, dedup_key, is_live, claim,
  dead_letter_record, sent, dead_letter, published, publish_processed, recorded, stored, raw_points,
  claimed, if_reached, parsed, process_message,
}

module _ {F : Type 0} (parse : String → Option (NormalizedTelemetryEvent F)) (g : Given)
    (payload : String) where
  -- the payload stands in a dead letter
  pub record DeadLettered (s : Processor F) : Type 0 where
    pub letter : DeadLetterRecord
    pub same_payload : letter.original_payload ≡ g.decoded payload
    pub stands : In (dead_letters letter) s.kafka.broker.log

  -- the reading is in InfluxDB, and the event is on telemetry.processed under its device's key
  pub record Processed (evt : NormalizedTelemetryEvent F) (s : Processor F) : Type 0 where
    pub in_influx : In (raw_points evt) s.influx.broker.log
    pub on_topic : In (processed evt.event.device_id evt) s.kafka.broker.log

  -- the event has been claimed before
  pub record Duplicate (evt : NormalizedTelemetryEvent F) (s : Processor F) : Type 0 where
    pub known : is_live g.seconds (lookup (dedup_key evt.event.event_id) s.claims) ≡ true

  sent-DeadLettered :
      (letter : DeadLetterRecord) (r : Bool × Client (Output F)) (s : Processor F)
      → letter.original_payload ≡ g.decoded payload
      → (r.0 ≡ true → In (dead_letters letter) r.1.broker.log)
      → (sent r s).0 ≡ commits
      → DeadLettered (sent r s).1
  unfolding sent
  sent-DeadLettered letter (true, kafka) s e good h = record {
    letter = letter;
    same_payload = e;
    stands = good refl;
  }
  sent-DeadLettered letter (false, kafka) s e good h = cc

  dead_letter-DeadLettered :
      (stage correlation_id : String) (s : Processor F)
      → (dead_letter g payload stage correlation_id s).0 ≡ commits
      → DeadLettered (dead_letter g payload stage correlation_id s).1
  unfolding dead_letter
  dead_letter-DeadLettered stage correlation_id s h =
      let letter = dead_letter_record (g.decoded payload) stage correlation_id g.now in
      sent-DeadLettered letter (send (dead_letters letter) s.kafka) s refl
        (send-returned (dead_letters letter) s.kafka) h

  published-durable :
      (evt : NormalizedTelemetryEvent F) (r : Written × Client (Output F)) (s : Processor F)
      → (r.0 ≡ written → In (processed evt.event.device_id evt) r.1.broker.log)
      → In (raw_points evt) s.influx.broker.log
      → (published g payload evt r s).0 ≡ commits
      → Processed evt (published g payload evt r s).1 ⊎ DeadLettered (published g payload evt r s).1
  unfolding published
  published-durable evt (written, kafka) s good i h =
      inl (record { in_influx = i; on_topic = good refl })
  published-durable evt (breaker_open, kafka) s good i h = inr (dead_letter-DeadLettered _ _ _ h)
  published-durable evt (write_failed o, kafka) s good i h = inr (dead_letter-DeadLettered _ _ _ h)

  recorded-durable :
      (evt : NormalizedTelemetryEvent F) (at : Option ℕ) (s : Processor F)
      → In (raw_points evt) s.influx.broker.log
      → (recorded g payload evt at s).0 ≡ commits
      → Processed evt (recorded g payload evt at s).1 ⊎ DeadLettered (recorded g payload evt at s).1
  unfolding recorded publish_processed
  recorded-durable evt none s i h = cc
  recorded-durable evt (some at) s i h =
      published-durable evt (write g.kafka_clock (processed evt.event.device_id evt) s.kafka) _
        (write-written g.kafka_clock (processed evt.event.device_id evt) s.kafka) i h

  stored-durable :
      (evt : NormalizedTelemetryEvent F) (r : Written × Client (List (Point F))) (s : Processor F)
      → (r.0 ≡ written → In (raw_points evt) r.1.broker.log)
      → (stored g payload evt r s).0 ≡ commits
      → Processed evt (stored g payload evt r s).1 ⊎ DeadLettered (stored g payload evt r s).1
  unfolding stored
  stored-durable evt (written, influx) s good h =
      recorded-durable evt evt.event.timestamp _ (good refl) h
  stored-durable evt (breaker_open, influx) s good h = inr (dead_letter-DeadLettered _ _ _ h)
  stored-durable evt (write_failed o, influx) s good h = inr (dead_letter-DeadLettered _ _ _ h)

  -- How a message may have been dealt with: it is not of the form, and dead-lettered; it was known; it
  -- was processed; or it was dead-lettered.
  pub data Settled (before after : Processor F) : Type 0 where
    malformed : parse payload ≡ none → DeadLettered after → Settled before after
    known :
        (evt : NormalizedTelemetryEvent F)
        → parse payload ≡ some evt
        → Duplicate evt before
        → Settled before after
    done :
        (evt : NormalizedTelemetryEvent F)
        → parse payload ≡ some evt
        → Processed evt after
        → Settled before after
    refused :
        (evt : NormalizedTelemetryEvent F)
        → parse payload ≡ some evt
        → DeadLettered after
        → Settled before after

  claimed-Settled :
      (evt : NormalizedTelemetryEvent F) (s : Processor F)
      → parse payload ≡ some evt
      → (claimed g payload evt (claim g.seconds s.dedup_ttl evt.event.event_id s.claims) s).0
        ≡ commits
      → Settled s
          (claimed g payload evt (claim g.seconds s.dedup_ttl evt.event.event_id s.claims) s).1
  unfolding claim claimed
  claimed-Settled evt s p =
      elim (Bool-cases (is_live g.seconds (lookup (dedup_key evt.event.event_id) s.claims))) [
        | inl e ↦ rw e (λ h. known evt p (record { known = e }))
        | inr e ↦ rw e (λ h.
            elim (stored-durable evt _ _ (write-written g.influx_clock (raw_points evt) s.influx)
              h) [ inl d ↦ done evt p d | inr d ↦ refused evt p d ])
      ]

  parsed-Settled :
      (o : Option (NormalizedTelemetryEvent F)) (s : Processor F)
      → parse payload ≡ o
      → (parsed g payload o s).0 ≡ commits
      → Settled s (parsed g payload o s).1
  unfolding parsed
  parsed-Settled none s p = λ h. malformed p (dead_letter-DeadLettered "unmarshal" "" s h)
  parsed-Settled (some evt) s p = by_reached g.redis_up
    where
      by_reached :
          (b : Bool)
          → (if_reached b
              (claimed g payload evt (claim g.seconds s.dedup_ttl evt.event.event_id s.claims) s)
              s).0
            ≡ commits
          → Settled s
              (if_reached b
                (claimed g payload evt (claim g.seconds s.dedup_ttl evt.event.event_id s.claims) s)
                s).1
      by_reached true = claimed-Settled evt s p
      by_reached false = λ h. cc

  -- A message for which the stream processor's _process_message asks for a commit was malformed
  -- and its payload, decoded with replacement, stands in a dead letter, or its event had been
  -- claimed before, or its reading is in InfluxDB and its event on telemetry.processed, or it
  -- stands in a dead letter.
  pub process_message-committed :
      (s : Processor F)
      → (process_message parse g payload s).0 ≡ commits
      → Settled s (process_message parse g payload s).1
  unfolding process_message
  process_message-committed s h = parsed-Settled (parse payload) s refl h
