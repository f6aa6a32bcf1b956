-- ===== src/Alerts.antt =====
-- services/alert-service: the rules of rules.py, conditions.py, and the counts of anomalycount.py.
pub mod Store
pub mod Notify
pub mod Engine
pub mod Loop
pub mod Gauge
use indu_sense.Base.{
  ℕ, ◌+◌, ◌*◌, String, Bool, true, false, ◌&&◌, ◌||◌, Option, none, some, List, [], ◌∷◌, ◌++◌, ◌==◌,
  leb, if◌then◌else◌, filter, length, concat,
}
use indu_sense.Base.Dict.{Dict, lookup, insert}
use indu_sense.Float.{Float, number}

pub record AlertRule (F : Type 0) : Type 0 where
  pub id : String
  pub organization_id : String
  pub name : String
  pub metric : String
  pub condition : String
  pub threshold_value : Option F
  pub threshold_min : Option F
  pub threshold_max : Option F
  pub severity : String
  pub cooldown_seconds : ℕ
  pub window_seconds : ℕ
  pub machine_id : Option String
  pub device_id : Option String
  pub sensor_id : Option String

abbrev pub or_empty {ℓ} : {A : Type ℓ} → Option (List A) → List A
or_empty none = []
or_empty (some xs) = xs

-- a timestamp is in microseconds
abbrev pub microseconds : ℕ → ℕ
microseconds seconds = seconds * 1000000

-- `None` matches anything
in_scope : Option String → String → Bool
in_scope none id = true
in_scope (some s) id = s == id

abbrev pub rule_key : String → String → String
rule_key org_id metric = concat (org_id ∷ "|" ∷ metric ∷ [])

module _ {F : Type 0} where
  unfoldable pub scope_matches : AlertRule F → String → String → String → Bool
  unfolding in_scope
  scope_matches r machine_id device_id sensor_id =
      in_scope r.machine_id machine_id
      && (in_scope r.device_id device_id && in_scope r.sensor_id sensor_id)

  refresh_from : List (AlertRule F) → Dict (List (AlertRule F)) → Dict (List (AlertRule F))
  refresh_from [] by_key = by_key
  refresh_from (r ∷ rules) by_key =
      let key = rule_key r.organization_id r.metric in
      refresh_from rules (insert key (or_empty (lookup key by_key) ++ r ∷ []) by_key)

  -- `refresh` of the active rules, in the order of the query
  unfoldable pub refresh : List (AlertRule F) → Dict (List (AlertRule F))
  unfolding refresh_from
  refresh rules = refresh_from rules []

  unfoldable pub rules_for : String → String → Dict (List (AlertRule F)) → List (AlertRule F)
  rules_for org_id metric by_key = or_empty (lookup (rule_key org_id metric) by_key)

module _ {F : Type 0} (f : Float F) where
  abbrev holds_of : Option F → (F → Bool) → Bool
  holds_of none p = false
  holds_of (some t) p = p t

  unfoldable pub condition_matches : AlertRule F → F → ℕ → Bool
  condition_matches r value count_in_window =
      if r.condition == "GREATER_THAN"
      then holds_of r.threshold_value (λ t. f.lt t value)
      else if r.condition == "LESS_THAN"
      then holds_of r.threshold_value (λ t. f.lt value t)
      else if r.condition == "OUTSIDE_RANGE"
      then holds_of r.threshold_min
          (λ lo. holds_of r.threshold_max (λ hi. f.lt value lo || f.lt hi value))
      else if r.condition == "ANOMALY_COUNT"
      then holds_of r.threshold_value (λ t. f.le t (number f count_in_window))
      else false

-- `AnomalyCountTracker.record`
unfoldable pub record_anomaly : String → ℕ → ℕ → Dict (List ℕ) → ℕ × Dict (List ℕ)
record_anomaly key at window_seconds seen =
    let times =
      filter (λ t. leb at (t + microseconds window_seconds)) (or_empty (lookup key seen))
      ++ at ∷ [] in
    (length times, insert key times seen)
