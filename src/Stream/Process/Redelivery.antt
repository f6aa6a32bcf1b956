-- ===== src/Stream/Process/Redelivery.antt =====
-- A message that services/stream-processor/main.py takes more than once.
use indu_sense.Base.{
  ℕ, ◌+◌, ◌<◌, String, ◌≡◌, refl, ap, ◌∙◌, Bool, true, false, Option, none, some, List, arith,
  eq_iff,
}
use indu_sense.Base.Dict.{Dict, lookup, insert, lookup-insert}
use indu_sense.Reliability.{Written, written, breaker_open, write_failed}
use indu_sense.Events.{NormalizedTelemetryEvent}
use indu_sense.Kafka.{Client}
use indu_sense.Stream.Process.{
  Point, Output, Processor, Given, commits, dedup_key, is_live, claim, sent, dead_letter, published,
  publish_processed, recorded, stored, claimed, if_reached, parsed, process_message,
}

module _ {F : Type 0} (g : Given) (payload : String) (evt : NormalizedTelemetryEvent F) where
  sent-claims : (r : Bool × Client (Output F)) (s : Processor F) → (sent r s).1.claims ≡ s.claims
  unfolding sent
  sent-claims (true, kafka) s = refl
  sent-claims (false, kafka) s = refl

  dead_letter-claims :
      (stage id : String) (s : Processor F) → (dead_letter g payload stage id s).1.claims ≡ s.claims
  unfolding dead_letter
  dead_letter-claims stage id s = sent-claims _ s

  published-claims :
      (r : Written × Client (Output F)) (s : Processor F)
      → (published g payload evt r s).1.claims ≡ s.claims
  unfolding published
  published-claims (written, kafka) s = refl
  published-claims (breaker_open, kafka) s = dead_letter-claims _ _ _
  published-claims (write_failed o, kafka) s = dead_letter-claims _ _ _

  recorded-claims :
      (at : Option ℕ) (s : Processor F) → (recorded g payload evt at s).1.claims ≡ s.claims
  unfolding recorded publish_processed
  recorded-claims none s = refl
  recorded-claims (some at) s = published-claims _ _

  stored-claims :
      (r : Written × Client (List (Point F))) (s : Processor F)
      → (stored g payload evt r s).1.claims ≡ s.claims
  unfolding stored
  stored-claims (written, influx) s = recorded-claims evt.event.timestamp _
  stored-claims (breaker_open, influx) s = dead_letter-claims _ _ _
  stored-claims (write_failed o, influx) s = dead_letter-claims _ _ _

  -- Whatever becomes of a message after the claim, the claim stays.
  claimed-claims :
      (s : Processor F)
      → is_live g.seconds (lookup (dedup_key evt.event.event_id) s.claims) ≡ false
      → (claimed g payload evt (claim g.seconds s.dedup_ttl evt.event.event_id s.claims) s).1.claims
        ≡ insert (dedup_key evt.event.event_id) (g.seconds + s.dedup_ttl) s.claims
  unfolding claim claimed
  claimed-claims s e = rw e (stored-claims _ _)

module _ {F : Type 0} (parse : String → Option (NormalizedTelemetryEvent F)) (g later : Given)
    (payload : String) where
  -- A live claim makes the message a duplicate: its offset is committed, and nothing changes.
  known-skipped :
      (evt : NormalizedTelemetryEvent F) (s : Processor F)
      → parse payload ≡ some evt
      → later.redis_up ≡ true
      → is_live later.seconds (lookup (dedup_key evt.event.event_id) s.claims) ≡ true
      → process_message parse later payload s ≡ (commits, s)
  unfolding process_message parsed claimed claim
  known-skipped evt s p up e = ap (λ o. parsed later payload o s) p ∙ (rw up (rw e refl))

  live_after :
      (id : String) (expiry : ℕ) (claims : Dict ℕ)
      → later.seconds < expiry
      → is_live later.seconds (lookup id (insert id expiry claims)) ≡ true
  live_after id expiry claims h =
      ap (is_live later.seconds) (lookup-insert id id expiry claims)
      ∙ ground (arith, eq_iff id id, h)

  claims_after :
      (evt : NormalizedTelemetryEvent F) (s : Processor F)
      → parse payload ≡ some evt
      → g.redis_up ≡ true
      → is_live g.seconds (lookup (dedup_key evt.event.event_id) s.claims) ≡ false
      → (process_message parse g payload s).1.claims
        ≡ insert (dedup_key evt.event.event_id) (g.seconds + s.dedup_ttl) s.claims
  unfolding process_message parsed
  claims_after evt s p up e =
      ap (λ o. (parsed g payload o s).1.claims) p
      ∙ (ap
            (λ b.
              (if_reached b
                (claimed g payload evt (claim g.seconds s.dedup_ttl evt.event.event_id s.claims) s)
                s).1.claims)
            up
          ∙ claimed-claims g payload evt s e)

  -- If a message is taken by a stream processor that reaches Redis and had not claimed its event,
  -- then however that ends, another delivery before the claim expires, to a processor with the
  -- same state that reaches Redis, commits the offset and changes nothing.
  pub process_message-skips_redelivery :
      (evt : NormalizedTelemetryEvent F) (s : Processor F)
      → parse payload ≡ some evt
      → g.redis_up ≡ true
      → later.redis_up ≡ true
      → is_live g.seconds (lookup (dedup_key evt.event.event_id) s.claims) ≡ false
      → later.seconds < g.seconds + s.dedup_ttl
      → process_message parse later payload (process_message parse g payload s).1
        ≡ (commits, (process_message parse g payload s).1)
  process_message-skips_redelivery evt s p up up' e h = known-skipped evt _ p up' (
      ap (λ c. is_live later.seconds (lookup (dedup_key evt.event.event_id) c))
        (claims_after evt s p up e)
      ∙ live_after (dedup_key evt.event.event_id) (g.seconds + s.dedup_ttl) s.claims h)
