-- ===== src/Detector.antt =====
-- services/anomaly-detector: the three levels of detection, of rules.py, stats.py and detect.py, and
-- their combination. `shown` formats a number for a reason, as an f-string does.
pub mod Combine
pub mod Checks
pub mod Series
pub mod Features
pub mod Forest
pub mod Catalog
pub mod Process
pub mod Loop
pub mod Trainer
use indu_sense.Base.{
  ℕ, String, Bool, true, false, Option, none, some, List, [], ◌∷◌, ◌++◌, ltb, if◌then◌else◌, concat,
  ◌==◌,
}
use indu_sense.Float.{Float, number}

-- SEVERITY_INFO and the others of shared/events.py
pub data Severity : Type 0 where
  info warning high critical : Severity

pub data Method : Type 0 where
  rule statistical isolation_forest : Method

pub record MetricRange (F : Type 0) : Type 0 where
  pub min : F
  pub max : F

pub record Detection (F : Type 0) : Type 0 where
  pub method : Method
  pub severity : Severity
  pub score : F
  pub reason : String

-- the fields of `Config` that detection reads
pub record Config (F : Type 0) : Type 0 where
  pub min_samples_for_zscore : ℕ
  pub zscore_threshold : F
  pub forest_score_threshold : F

-- _SEVERITY_RANK
abbrev pub severity_rank : Severity → ℕ
severity_rank info = 0
severity_rank warning = 1
severity_rank high = 2
severity_rank critical = 3

module _ {F : Type 0} (f : Float F) where
  unfoldable pub clamp01 : F → F
  clamp01 v =
      if f.lt v (number f 0) then number f 0 else if f.lt (number f 1) v then number f 1 else v

  -- the bands of the three checks: CRITICAL from the first bound, HIGH from the second
  abbrev banded : F → F → F → Severity
  banded v to_critical to_high =
      if f.le to_critical v then critical else if f.le to_high v then high else warning

  graded : F → Severity × F
  unfolding clamp01
  graded overshoot = (banded overshoot (f.ratio 5 10) (f.ratio 2 10), clamp01 overshoot)

  -- A check that does not fire is `none`.
  unfoldable pub rule_check : F → MetricRange F → Option (Severity × F)
  unfolding graded
  rule_check value r =
      let span = f.sub r.max r.min in
      if f.le span (number f 0)
      then none
      else if f.lt r.max value
      then some (graded (f.div (f.sub value r.max) span))
      else if f.lt value r.min
      then some (graded (f.div (f.sub r.min value) span))
      else none

  unfoldable pub stat_check : F → ℕ → ℕ → F → Option (Severity × F)
  unfolding clamp01
  stat_check z_score sample_count min_samples threshold =
      let abs_z = f.abs z_score in
      if ltb sample_count min_samples
      then none
      else if f.lt abs_z threshold
      then none
      else some (
        banded abs_z (f.mul threshold (f.ratio 16 10)) (f.mul threshold (f.ratio 13 10)),
        clamp01 (f.div abs_z (f.mul threshold (number f 2))),
      )

  unfoldable pub isolation_check : F → F → Option (Severity × F)
  isolation_check score threshold =
      if f.lt score threshold
      then none
      else some (banded score (f.ratio 75 100) (f.add threshold (f.ratio 6 100)), score)

  -- `if fired: results.append(...)`
  abbrev pub detected : Method → String → Option (Severity × F) → List (Detection F)
  detected method reason none = []
  detected method reason (some (severity, score)) =
      record { method = method; severity = severity; score = score; reason = reason } ∷ []

  rule_reason : (F → String) → F → MetricRange F → String
  rule_reason shown value r = concat (
      "value "
      ∷ shown value
      ∷ " outside safe operating range ["
      ∷ shown r.min
      ∷ ", "
      ∷ shown r.max
      ∷ "]"
      ∷ [])

  stat_reason : (F → String) → F → F → String
  stat_reason shown z threshold = concat (
      "z-score "
      ∷ shown z
      ∷ " exceeds threshold "
      ∷ shown threshold
      ∷ " against rolling baseline"
      ∷ [])

  forest_reason : (F → String) → F → F → String
  forest_reason shown score threshold = concat (
      "isolation forest anomaly score "
      ∷ shown score
      ∷ " exceeds threshold "
      ∷ shown threshold
      ∷ [])

  by_rule : (F → String) → F → Option (MetricRange F) → List (Detection F)
  unfolding rule_check rule_reason
  by_rule shown value none = []
  by_rule shown value (some r) = detected rule (rule_reason shown value r) (rule_check value r)

  by_forest : (F → String) → F → Option F → List (Detection F)
  unfolding isolation_check forest_reason
  by_forest shown threshold none = []
  by_forest shown threshold (some score) =
      detected isolation_forest (forest_reason shown score threshold)
        (isolation_check score threshold)

  -- The range and the forest's score are options for `has_range` and `has_forest`. `shown2` formats
  -- with two decimals, `shown3` with three.
  unfoldable pub run_detectors :
      (F → String)
      → (F → String)
      → F
      → Option (MetricRange F)
      → F
      → ℕ
      → Config F
      → Option F
      → List (Detection F)
  unfolding by_rule by_forest stat_check stat_reason
  run_detectors shown2 shown3 value range z_score sample_count cfg forest_score =
      by_rule shown2 value range
      ++ (detected statistical (stat_reason shown2 z_score cfg.zscore_threshold)
            (stat_check z_score sample_count cfg.min_samples_for_zscore cfg.zscore_threshold)
          ++ by_forest shown3 cfg.forest_score_threshold forest_score)

pub record Combined (F : Type 0) : Type 0 where
  pub severity : Severity
  pub score : F
  pub methods : List Method
  pub reason : String

module _ {F : Type 0} (f : Float F) where
  -- the body of the loop
  unfoldable pub fold_in : Combined F → Detection F → Combined F
  fold_in c r = record {
    severity =
        if ltb (severity_rank c.severity) (severity_rank r.severity)
        then r.severity
        else c.severity;
    score = if f.lt c.score r.score then r.score else c.score;
    methods = c.methods ++ r.method ∷ [];
    reason = if c.reason == "" then r.reason else concat (c.reason ∷ "; " ∷ r.reason ∷ []);
  }

  unfoldable pub fold_all : Combined F → List (Detection F) → Combined F
  unfolding fold_in
  fold_all c [] = c
  fold_all c (r ∷ results) = fold_all (fold_in c r) results

  unfoldable pub combine_detections : List (Detection F) → Combined F
  unfolding fold_all
  combine_detections results =
      fold_all (record { severity = info; score = number f 0; methods = []; reason = "" }) results
