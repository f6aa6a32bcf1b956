-- ===== src/Examples/Detector.antt =====
-- Runs of services/anomaly-detector.
use indu_sense.Base.{ℕ, ◌≤◌, ◌≡◌, refl, true, false, some, List, [], ◌∷◌, arith, All, eq_iff}
use indu_sense.Base.Dict.{lookup}
use indu_sense.Kafka.{lost}
use indu_sense.Detector.{
  MetricRange, Detection, rule, statistical, warning, critical, severity_rank, combine_detections,
}
use indu_sense.Detector.Combine.{combine_detections-worst}
use indu_sense.Detector.Forest.{leaf, split, Random, build_tree}
use indu_sense.Detector.Forest.Depth.{height, height-build_tree}
use indu_sense.Detector.Series.{StatisticalTrackers}
use indu_sense.Detector.Features.{FeatureStore, IsBounded}
use indu_sense.Detector.Process.{Detector, Given, commits, process_message}
use indu_sense.Detector.Process.Once.{process_message-idempotent}
use indu_sense.Examples.Numbers.{whole, whole-Comparison, client, normalized_reading}

abbrev range : MetricRange ℕ
range = record { min = 10; max = 60 }

abbrev found : List (Detection ℕ)
found =
    record { method = rule; severity = warning; score = 1; reason = "a" }
    ∷ record { method = statistical; severity = critical; score = 3; reason = "b" }
    ∷ []

combine_detections-worst_example :
    All
      (λ r. severity_rank r.severity ≤ severity_rank (combine_detections whole found).severity)
      found
    × (All (λ r. whole.lt (combine_detections whole found).score r.score ≡ false) found
        × ((combine_detections whole found).methods ≡ rule ∷ statistical ∷ []))
combine_detections-worst_example = combine_detections-worst whole whole-Comparison found

-- a generator that always picks the first feature and splits at its maximum
abbrev steady : Random ℕ
steady = record {
  randrange = λ i n. 0;
  random = λ i. 1;
  sample = λ i rows n. rows;
  ceil_log2 = λ n. 2;
}

height-build_tree_example : height {F = ℕ} (split 0 5 (leaf 1) (leaf 1)) ≤ 2
unfolding build_tree
height-build_tree_example =
    height-build_tree whole steady 2 ((1 ∷ []) ∷ (5 ∷ []) ∷ []) 0 (split 0 5 (leaf 1) (leaf 1)) 2
      refl

abbrev trackers : StatisticalTrackers ℕ
trackers = record { trackers = []; alpha = 1 }

abbrev store : FeatureStore ℕ
store = record {
  latest = ("d1", ("rpm", 3) ∷ []) ∷ [];
  training_data = ("pump", (1 ∷ 2 ∷ []) ∷ []) ∷ [];
  buffer_size = 1;
}

store-IsBounded : IsBounded store
unfolding lookup
store-IsBounded t = ground (arith, eq_iff "pump" t)

abbrev given : Given ℕ
given = record {
  database_up = true;
  kafka_clock = (1, 2);
  now = 90;
  uuid = "u1";
  decoded = λ p. p;
  shown2 = λ v. "";
  shown3 = λ v. "";
  config = record { min_samples_for_zscore = 30; zscore_threshold = 3; forest_score_threshold = 1 };
}

abbrev detector : Detector ℕ
detector = record {
  kafka = client lost;
  claims = "e0" ∷ [];
  catalog = record {
    devices = ("d1", record { machine_type = "pump"; ranges = ("temperature", range) ∷ [] }) ∷ [];
    feature_order = ("pump", "power" ∷ "rpm" ∷ []) ∷ [];
  };
  trackers = trackers;
  features = store;
  forests = [];
}

process_message-idempotent_example :
    let s = (process_message whole (λ p. some normalized_reading) given "payload" detector).1 in
    process_message whole (λ p. some normalized_reading) given "payload" s ≡ (commits, s)
process_message-idempotent_example =
    process_message-idempotent whole (λ p. some normalized_reading) given given "payload"
      normalized_reading detector refl refl refl
