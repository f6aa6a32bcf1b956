-- ===== src/Detector/Process/Once.antt =====
-- A message that services/anomaly-detector/main.py takes more than once.
use indu_sense.Base.{
  ℕ, String, ◌≡◌, refl, ap, ◌∙◌, inl, inr, Bool, true, false, Option, none, some, List, [], ◌∷◌,
  ◌++◌, arith, Bool-cases, mem, eq_iff,
}
use indu_sense.Float.{Float}
use indu_sense.Reliability.{Written, written, breaker_open, write_failed}
use indu_sense.Events.{NormalizedTelemetryEvent}
use indu_sense.Kafka.{Client}
use indu_sense.Detector.{MetricRange, Detection}
use indu_sense.Detector.Forest.{IsolationForest, score}
use indu_sense.Detector.Catalog.{DeviceInfo}
use indu_sense.Detector.Process.{
  Detector, Output, Given, Ended, commits, crashes, claim_telemetry_event_once, sent, dead_letter,
  published, report, detect, scored, observed, tracked, claimed, if_reached, parsed,
  process_message,
}

mem-append_last : (id : String) (claims : List String) → mem id (claims ++ id ∷ []) ≡ true
mem-append_last id [] = ground (arith, eq_iff id id)
mem-append_last id (c ∷ claims) = ground (arith, mem-append_last id claims)

module _ {F : Type 0} (f : Float F) (g : Given F) (payload : String) where
  sent-claims : (r : Bool × Client (Output F)) (s : Detector F) → (sent r s).1.claims ≡ s.claims
  unfolding sent
  sent-claims (true, kafka) s = refl
  sent-claims (false, kafka) s = refl

  published-claims :
      (id : String) (r : Written × Client (Output F)) (s : Detector F)
      → (published g payload id r s).1.claims ≡ s.claims
  unfolding published dead_letter
  published-claims id (written, kafka) s = refl
  published-claims id (breaker_open, kafka) s = sent-claims _ _
  published-claims id (write_failed o, kafka) s = sent-claims _ _

  module _ (evt : NormalizedTelemetryEvent F) where
    report-claims :
        (results : List (Detection F)) (s : Detector F)
        → (report f g payload evt results s).1.claims ≡ s.claims
    unfolding report
    report-claims [] s = refl
    report-claims (r ∷ results) s = published-claims _ _ s

    detect-claims :
        (range : Option (MetricRange F)) (z : F × ℕ) (v : Option F) (s : Detector F)
        → (detect f g payload evt range z v s).1.claims ≡ s.claims
    unfolding detect
    detect-claims range (z, n) v s = report-claims _ s

    scored-claims :
        (range : Option (MetricRange F)) (z : F × ℕ) (vector : Option (List F))
        (forest : Option (IsolationForest F)) (s : Detector F)
        → (scored f g payload evt range z vector forest s).1.claims ≡ s.claims
    unfolding scored
    scored-claims range z none forest s = detect-claims range z none s
    scored-claims range z (some vector) none s = detect-claims range z none s
    scored-claims range z (some vector) (some forest) s = by_score (score f forest vector)
      where
        by_score :
            (o : Option F)
            → (elim o as (λ _. Ended × Detector F) [
              | none ↦ (crashes, s)
              | some v ↦ detect f g payload evt range z (some v) s
            ]).1.claims
              ≡ s.claims
        by_score none = refl
        by_score (some v) = detect-claims range z (some v) s

    observed-claims :
        (z : F × ℕ) (info : Option (DeviceInfo F)) (s : Detector F)
        → (observed f g payload evt z info s).1.claims ≡ s.claims
    unfolding observed
    observed-claims z none s = detect-claims none z none s
    observed-claims z (some info) s = scored-claims _ z _ _ _

    tracked-claims : (s : Detector F) → (tracked f g payload evt s).1.claims ≡ s.claims
    unfolding tracked
    tracked-claims s = observed-claims _ _ _

  -- after the claim of an event it is claimed, whatever becomes of the message
  claimed-known :
      (evt : NormalizedTelemetryEvent F) (s : Detector F)
      → mem evt.event.event_id
          (claimed f g payload evt
            (claim_telemetry_event_once evt.event.event_id s.claims)
            s).1.claims
        ≡ true
  unfolding claim_telemetry_event_once claimed
  claimed-known evt s = elim (Bool-cases (mem evt.event.event_id s.claims)) [
    | inl e ↦ rw e e
    | inr e ↦ rw e (
        ap (mem evt.event.event_id) (tracked-claims evt _)
        ∙ mem-append_last evt.event.event_id s.claims)
  ]

module _ {F : Type 0} (f : Float F) (parse : String → Option (NormalizedTelemetryEvent F))
    (g later : Given F) (payload : String) where
  known-skipped :
      (evt : NormalizedTelemetryEvent F) (s : Detector F)
      → parse payload ≡ some evt
      → later.database_up ≡ true
      → mem evt.event.event_id s.claims ≡ true
      → process_message f parse later payload s ≡ (commits, s)
  unfolding process_message parsed claimed claim_telemetry_event_once
  known-skipped evt s p up e = ap (λ o. parsed f later payload o s) p ∙ rw up (rw e refl)

  claims_after :
      (evt : NormalizedTelemetryEvent F) (s : Detector F)
      → parse payload ≡ some evt
      → g.database_up ≡ true
      → mem evt.event.event_id (process_message f parse g payload s).1.claims ≡ true
  unfolding process_message parsed
  claims_after evt s p up =
      ap (λ o. mem evt.event.event_id (parsed f g payload o s).1.claims) p
      ∙ (ap
            (λ b.
              mem evt.event.event_id
                (if_reached f b
                  (claimed f g payload evt (claim_telemetry_event_once evt.event.event_id s.claims)
                    s)
                  s).1.claims)
            up
          ∙ claimed-known f g payload evt s)

  -- If a message with an event is taken by the anomaly detector with the database in reach, then
  -- however that ends, another delivery of it with the database in reach commits the offset and
  -- changes nothing: no tracker, no training buffer, and no message.
  pub process_message-idempotent :
      (evt : NormalizedTelemetryEvent F) (s : Detector F)
      → parse payload ≡ some evt
      → g.database_up ≡ true
      → later.database_up ≡ true
      → process_message f parse later payload (process_message f parse g payload s).1
        ≡ (commits, (process_message f parse g payload s).1)
  process_message-idempotent evt s p up up' = known-skipped evt _ p up' (claims_after evt s p up)
