-- ===== src/Detector/Checks.antt =====
-- When `rule_check` of services/anomaly-detector/rules.py fires.
use indu_sense.Base.{◌≡◌, ◌≢◌, ◌↔◌, ◌⊎◌, true, false, none, arith}
use indu_sense.Float.{Float, number}
use indu_sense.Detector.{MetricRange, rule_check}

module _ {F : Type 0} (f : Float F) where
  -- The rule fires exactly for a value above the maximum or below the minimum of a range whose
  -- span is not at most zero.
  pub rule_check-fires_iff :
      (value : F) (r : MetricRange F)
      → (rule_check f value r ≢ none) ↔ (
          (f.le (f.sub r.max r.min) (number f 0) ≡ false)
          × ((f.lt r.max value ≡ true) ⊎ (f.lt value r.min ≡ true)))
  unfolding rule_check
  rule_check-fires_iff value r = ground arith
