-- ===== src/Detector/Process.antt =====
-- services/anomaly-detector: idempotency.py, and the handling of one message in main.py.
pub mod Once
use indu_sense.Base.{
  ℕ, String, Bool, true, false, ◌||◌, Option, none, some, List, [], ◌∷◌, ◌++◌, leb, ltb,
  if◌then◌else◌, mem, length,
}
use indu_sense.Base.Dict.{Dict, lookup, insert, get_or}
use indu_sense.Float.{Float, number}
use indu_sense.Reliability.{Written, written, breaker_open, write_failed}
use indu_sense.Events.{NormalizedTelemetryEvent, DeadLetterRecord, transient_error}
use indu_sense.Kafka.{Client, write, send}
use indu_sense.Detector.{
  MetricRange, Config, Severity, Method, Detection, Combined, run_detectors, combine_detections,
}
use indu_sense.Detector.Catalog.{DeviceInfo, Catalog}
use indu_sense.Detector.Series.{StatisticalTrackers, update}
use indu_sense.Detector.Features.{FeatureStore, observe, or_empty}
use indu_sense.Detector.Forest.{IsolationForest, Random, score, fit_isolation_forest}

-- `AnomalyDetected`; the other fields of the event are in it
pub record AnomalyDetected (F : Type 0) : Type 0 where
  pub anomaly_id : String
  pub source : NormalizedTelemetryEvent F
  pub result : Combined F
  pub detected_at : ℕ

pub data Output (F : Type 0) : Type 0 where
  anomaly : String → AnomalyDetected F → Output F
  dead_letters : DeadLetterRecord → Output F

pub record Detector (F : Type 0) : Type 0 where
  pub kafka : Client (Output F)
  -- the keys of scope "anomaly_detection" in the table idempotency_keys
  pub claims : List String
  pub catalog : Catalog F
  pub trackers : StatisticalTrackers F
  pub features : FeatureStore F
  pub forests : Dict (IsolationForest F)

-- What the surroundings give to the handling of one message, and the formats of reasons.
pub record Given (F : Type 0) : Type 0 where
  pub database_up : Bool
  pub kafka_clock : ℕ × ℕ
  pub now : ℕ
  pub uuid : String
  -- `payload.decode("utf-8", errors="replace")`
  pub decoded : String → String
  pub shown2 : F → String
  pub shown3 : F → String
  pub config : Config F

-- How `_process_message` ends: it returns True or False, or an exception escapes it.
pub data Ended : Type 0 where
  commits holds crashes : Ended

-- INSERT ... ON CONFLICT DO NOTHING: whether a row was inserted
unfoldable pub claim_telemetry_event_once : String → List String → Bool × List String
claim_telemetry_event_once event_id claims =
    if mem event_id claims then (false, claims) else (true, claims ++ event_id ∷ [])

module _ {F : Type 0} where
  sent : Bool × Client (Output F) → Detector F → Ended × Detector F
  sent (true, kafka) s = (commits, record s { kafka = kafka })
  sent (false, kafka) s = (holds, record s { kafka = kafka })

  unfoldable pub dead_letter : Given F → String → String → String → Detector F → Ended × Detector F
  unfolding sent
  dead_letter g payload stage correlation_id s =
      sent
        (send
          (dead_letters (record {
            original_payload = g.decoded payload;
            error_type = transient_error;
            service = "anomaly-detector";
            processing_stage = stage;
            retry_count = 0;
            timestamp = g.now;
            correlation_id = correlation_id;
            source_topic = "telemetry.processed";
          }))
          s.kafka)
        s

  published :
      Given F → String → String → Written × Client (Output F) → Detector F → Ended × Detector F
  unfolding dead_letter
  published g payload event_id (written, kafka) s = (commits, record s { kafka = kafka })
  published g payload event_id (breaker_open, kafka) s =
      dead_letter g payload "publish_anomaly" event_id (record s { kafka = kafka })
  published g payload event_id (write_failed o, kafka) s =
      dead_letter g payload "publish_anomaly" event_id (record s { kafka = kafka })

module _ {F : Type 0} (f : Float F) where
  -- what follows the detectors
  report :
      Given F
      → String
      → NormalizedTelemetryEvent F
      → List (Detection F)
      → Detector F
      → Ended × Detector F
  unfolding published
  report g payload evt [] s = (commits, s)
  report g payload evt (r ∷ results) s =
      let found : AnomalyDetected F = record {
        anomaly_id = g.uuid;
        source = evt;
        result = combine_detections f (r ∷ results);
        detected_at = g.now;
      } in
      published g payload evt.event.event_id
        (write g.kafka_clock (anomaly evt.event.device_id found) s.kafka) s

  detect :
      Given F
      → String
      → NormalizedTelemetryEvent F
      → Option (MetricRange F)
      → (F × ℕ)
      → Option F
      → Detector F
      → Ended × Detector F
  unfolding report
  detect g payload evt range (z_score, sample_count) forest_score s =
      report g payload evt
        (run_detectors f g.shown2 g.shown3 evt.event.value range z_score sample_count g.config
          forest_score)
        s

  -- the score of a vector, where there are a vector and a forest; `crashes` is an `IndexError`
  scored :
      Given F
      → String
      → NormalizedTelemetryEvent F
      → Option (MetricRange F)
      → (F × ℕ)
      → Option (List F)
      → Option (IsolationForest F)
      → Detector F
      → Ended × Detector F
  unfolding detect
  scored g payload evt range z none forest s = detect g payload evt range z none s
  scored g payload evt range z (some vector) none s = detect g payload evt range z none s
  scored g payload evt range z (some vector) (some forest) s = elim (score f forest vector) [
    | none ↦ (crashes, s)
    | some v ↦ detect g payload evt range z (some v) s
  ]

  -- with the trackers updated, what follows for a device that the catalog knows, or not
  observed :
      Given F
      → String
      → NormalizedTelemetryEvent F
      → (F × ℕ)
      → Option (DeviceInfo F)
      → Detector F
      → Ended × Detector F
  unfolding scored
  observed g payload evt z none s = detect g payload evt none z none s
  observed g payload evt z (some info) s =
      let order = or_empty (lookup info.machine_type s.catalog.feature_order) in
      let (vector, features) =
        observe evt.event.device_id info.machine_type evt.event.metric evt.event.value order
          s.features in
      scored g payload evt (lookup evt.event.metric info.ranges) z vector
        (lookup info.machine_type s.forests) (record s { features = features })

  tracked : Given F → String → NormalizedTelemetryEvent F → Detector F → Ended × Detector F
  unfolding observed
  tracked g payload evt s =
      let (z, trackers) =
        update f evt.event.device_id evt.event.metric evt.event.value s.trackers in
      observed g payload evt z (lookup evt.event.device_id s.catalog.devices)
        (record s { trackers = trackers })

  claimed :
      Given F
      → String
      → NormalizedTelemetryEvent F
      → Bool × List String
      → Detector F
      → Ended × Detector F
  unfolding tracked
  claimed g payload evt (false, claims) s = (commits, s)
  claimed g payload evt (true, claims) s = tracked g payload evt (record s { claims = claims })

  -- without the database the message is left for another delivery
  abbrev if_reached : Bool → Ended × Detector F → Detector F → Ended × Detector F
  if_reached true r s = r
  if_reached false r s = (holds, s)

  parsed : Given F → String → Option (NormalizedTelemetryEvent F) → Detector F → Ended × Detector F
  unfolding claimed
  parsed g payload none s = dead_letter g payload "unmarshal" "" s
  parsed g payload (some evt) s =
      if_reached g.database_up
        (claimed g payload evt (claim_telemetry_event_once evt.event.event_id s.claims) s) s

  unfoldable pub process_message :
      (String → Option (NormalizedTelemetryEvent F))
      → Given F
      → String
      → Detector F
      → Ended × Detector F
  unfolding parsed
  process_message parse g payload s = parsed g payload (parse payload) s
