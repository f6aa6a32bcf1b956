-- ===== src/Alerts/Store.antt =====
-- services/alert-service/store.py over the table of alerts. Its partial unique index allows one OPEN
-- alert for a rule and a dedupe key.
pub mod OneOpen
pub mod Due
use indu_sense.Base.{
  ℕ, ◌+◌, String, Bool, true, false, ◌&&◌, not, Option, none, some, List, [], ◌∷◌, ◌++◌, map, ◌==◌,
  ltb, if◌then◌else◌, any, filter,
}
use indu_sense.Alerts.{microseconds}

pub record Alert : Type 0 where
  pub organization_id : String
  pub severity : String
  pub factory_id : String
  pub machine_id : String
  pub device_id : String
  pub sensor_id : String
  pub title : String
  pub description : String
  pub id : String
  pub status : String
  pub triggered_at : Option ℕ
  pub escalation_level : ℕ

-- a row of the table
pub record AlertRow : Type 0 where
  pub alert : Alert
  pub alert_rule_id : String
  pub dedupe_key : String
  pub created_at : ℕ
  pub last_escalated_at : Option ℕ

-- SUPPRESSED_OPEN and SUPPRESSED_COOLDOWN
pub data Reason : Type 0 where
  still_open in_cooldown : Reason

pub data Created : Type 0 where
  suppressed : Reason → Created
  created : Alert → Created

abbrev pub is_of : String → String → AlertRow → Bool
is_of rule_id dedupe_key r = r.alert_rule_id == rule_id && r.dedupe_key == dedupe_key

abbrev pub is_open_of : String → String → AlertRow → Bool
is_open_of rule_id dedupe_key r = is_of rule_id dedupe_key r && r.alert.status == "OPEN"

abbrev pub later_of : AlertRow → Option AlertRow → AlertRow
later_of r none = r
later_of r (some s) = if ltb r.created_at s.created_at then s else r

-- ORDER BY triggered_at DESC LIMIT 1
unfoldable pub latest : List AlertRow → Option AlertRow
latest [] = none
latest (r ∷ rows) = some (later_of r (latest rows))

-- whether the last alert of its kind holds a new one back
unfoldable pub held_back : ℕ → ℕ → Option AlertRow → Option Reason
held_back now cooldown_seconds none = none
held_back now cooldown_seconds (some r) =
    if not (r.alert.status == "RESOLVED")
    then some still_open
    else if ltb now (r.created_at + microseconds cooldown_seconds)
    then some in_cooldown
    else none

abbrev pub stored : String → ℕ → Alert → Alert
stored id now alert = record alert { id = id; triggered_at = some now; status = "OPEN" }

abbrev pub row_of : String → String → String → ℕ → Alert → AlertRow
row_of rule_id dedupe_key id now alert = record {
  alert = stored id now alert;
  alert_rule_id = rule_id;
  dedupe_key = dedupe_key;
  created_at = now;
  last_escalated_at = none;
}

-- what INSERT ... ON CONFLICT DO NOTHING does if there is a conflict, and if not
unfoldable pub inserted_unless :
    Bool → String → String → String → ℕ → Alert → List AlertRow → Created × List AlertRow
inserted_unless true rule_id dedupe_key id now alert rows = (suppressed still_open, rows)
inserted_unless false rule_id dedupe_key id now alert rows =
    (created (stored id now alert), rows ++ row_of rule_id dedupe_key id now alert ∷ [])

unfoldable pub insert_alert :
    String → String → String → ℕ → Alert → List AlertRow → Created × List AlertRow
unfolding inserted_unless
insert_alert rule_id dedupe_key id now alert rows =
    inserted_unless (any (is_open_of rule_id dedupe_key) rows) rule_id dedupe_key id now alert rows

unless_held : Option Reason → List AlertRow → Created × List AlertRow → Created × List AlertRow
unless_held none rows inserted = inserted
unless_held (some c) rows inserted = (suppressed c, rows)

-- `others` is what other connections commit between the two statements; `id` and `now` are what the
-- database generates.
unfoldable pub create_if_due :
    (List AlertRow → List AlertRow)
    → String
    → ℕ
    → String
    → ℕ
    → Alert
    → String
    → List AlertRow
    → Created × List AlertRow
unfolding held_back insert_alert unless_held
create_if_due others id now rule_id cooldown_seconds alert dedupe_key rows =
    unless_held (held_back now cooldown_seconds (latest (filter (is_of rule_id dedupe_key) rows)))
      rows (insert_alert rule_id dedupe_key id now alert (others rows))

-- `next_severity`, over the ladder WARNING, HIGH, CRITICAL
unfoldable pub next_severity : String → String
next_severity current =
    if current == "WARNING" then "HIGH" else if current == "HIGH" then "CRITICAL" else current

-- COALESCE(last_escalated_at, triggered_at)
abbrev pub escalated_or_created : AlertRow → ℕ
escalated_or_created r = elim r.last_escalated_at [ none ↦ r.created_at | some at ↦ at ]

abbrev pub is_due : ℕ → ℕ → AlertRow → Bool
is_due now after_seconds r =
    r.alert.status == "OPEN"
    && (ltb r.alert.escalation_level 2
        && ltb (escalated_or_created r + microseconds after_seconds) now)

-- the query does not ask for the factory, the sensor and the status
abbrev pub candidate_of : AlertRow → Alert
candidate_of r = record r.alert { factory_id = ""; sensor_id = ""; status = "" }

unfoldable pub due_for_escalation : ℕ → ℕ → List AlertRow → List Alert
due_for_escalation now after_seconds rows =
    map candidate_of (filter (is_due now after_seconds) rows)

abbrev pub escalated : ℕ → String → AlertRow → AlertRow
escalated now new_severity r = record r {
  alert = record r.alert {
    severity = new_severity;
    escalation_level = r.alert.escalation_level + 1;
  };
  last_escalated_at = some now;
}

unfoldable pub escalate : ℕ → String → String → List AlertRow → List AlertRow
escalate now alert_id new_severity rows =
    map (λ r. if r.alert.id == alert_id then escalated now new_severity r else r) rows
