-- ===== src/Incidents/Tables.antt =====
-- The statements that `Store` of shared/incidents.py runs, as actions that may raise. Both services
-- open their pools with autocommit, so what was written before a raise stays written. A constraint
-- that a statement can violate here is the unique index of active incidents on a machine, the foreign
-- key of an event, or what else makes the database refuse an event.
use indu_sense.Base.{
  ℕ, String, Bool, true, false, ◌&&◌, ◌||◌, not, Option, none, some, List, [], ◌∷◌, ◌++◌, ◌==◌,
  if◌then◌else◌, any, find, concat,
}
use indu_sense.Incidents.{AlertRef, Row, Incident, Event}

-- The two tables, and what the publisher has taken.
pub record Db : Type 0 where
  pub incidents : List Row
  pub events : List Event
  pub published : List (String × Incident)
  -- the events that incident_events refuses: an actor who is no user, a NUL in a text
  pub refuses : Event → Bool

pub data Error : Type 0 where
  incident_not_found invalid_transition race_unresolved unique_violation foreign_key_violation
        event_refused invalid_uuid :
      Error

pub data Reply (A : Type 0) : Type 0 where
  ok : A → Reply A
  raised : Error → Reply A

abbrev pub Action : Type 0 → Type 0
Action A = Db → Reply A × Db

abbrev pub continue : {A B : Type 0} → Reply A → (A → Action B) → Action B
continue (ok a) f db = f a db
continue (raised e) f db = (raised e, db)

infixl 5 ◌>>=◌ ◌>>◌
abbrev pub ◌>>=◌ : {A B : Type 0} → Action A → (A → Action B) → Action B
◌>>=◌ m f db = let r = m db in continue r.0 f r.1

abbrev pub ◌>>◌ : {A B : Type 0} → Action A → Action B → Action B
m >> k = m >>= λ _. k

abbrev pub pure : {A : Type 0} → A → Action A
pure a db = (ok a, db)

abbrev pub raise : {A : Type 0} → Error → Action A
raise e db = (raised e, db)

abbrev pub query : {A : Type 0} → (List Row → A) → Action A
query q db = (ok (q db.incidents), db)

-- what other connections commit between two statements
abbrev pub meanwhile : (Db → Db) → Action Unit
meanwhile other db = (ok tt, other db)

-- `_null_if_empty`
abbrev pub null_if_empty : String → Option String
null_if_empty s = if s == "" then none else some s

-- `COALESCE(x, '')`
abbrev pub coalesce : Option String → String
coalesce none = ""
coalesce (some s) = s

-- `_row_to_incident` over `_INCIDENT_COLUMNS`
abbrev pub row_to_incident : Row → Incident
row_to_incident r = record {
  id = r.id;
  organization_id = r.organization_id;
  alert_id = coalesce r.alert_id;
  factory_id = coalesce r.factory_id;
  machine_id = coalesce r.machine_id;
  device_id = coalesce r.device_id;
  sensor_id = coalesce r.sensor_id;
  severity = r.severity;
  status = r.status;
  title = r.title;
  description = r.description;
  assigned_to = coalesce r.assigned_to;
  resolution_notes = coalesce r.resolution_notes;
  opened_at = r.opened_at;
  resolved_at = r.resolved_at;
  closed_at = r.closed_at;
}

abbrev pub is_active : String → Bool
is_active status = status == "OPEN" || status == "ACKNOWLEDGED" || status == "INVESTIGATING"

-- a column compared with a value; NULL equals nothing
abbrev pub equals : String → Option String → Bool
equals v none = false
equals v (some w) = w == v

-- `WHERE machine_id = %s AND status IN ('OPEN', 'ACKNOWLEDGED', 'INVESTIGATING')`
abbrev pub active_on : String → Row → Bool
active_on machine_id r = equals machine_id r.machine_id && is_active r.status

-- a row that the unique index holds against this machine
abbrev pub conflicts : Option String → List Row → Bool
conflicts none rows = false
conflicts (some m) rows = any (active_on m) rows

-- the unique index: no two active rows of one machine
abbrev pub one_active : List Row → Bool
one_active [] = true
one_active (r ∷ rows) = not (is_active r.status && conflicts r.machine_id rows) && one_active rows

abbrev pub has_id : String → Row → Bool
has_id id r = r.id == id

-- the row of the `INSERT` of `_log_event`
abbrev pub new_event : ℕ → String → String → Option String → String → String → String → Event
new_event now incident_id event_type actor old_value new_value note = record {
  incident_id = incident_id;
  event_type = event_type;
  actor_user_id = actor;
  old_value = null_if_empty old_value;
  new_value = null_if_empty new_value;
  note = note;
  created_at = now;
}

-- an event that is inserted, if its incident exists and nothing else refuses it
unfoldable pub insert_event : Event → Action Unit
insert_event e db =
    if any (has_id e.incident_id) db.incidents
    then (if db.refuses e
        then (raised event_refused, db)
        else (ok tt, record db { events = db.events ++ e ∷ [] }))
    else (raised foreign_key_violation, db)

-- `_log_event`
unfoldable pub log_event :
    ℕ → String → String → Option String → String → String → String → Action Unit
unfolding insert_event
log_event now incident_id event_type actor old_value new_value note =
    insert_event (new_event now incident_id event_type actor old_value new_value note)

-- whether a call of the publisher returns
abbrev pub Publisher : Type 0
Publisher = Option (String → Incident → Bool)

-- `_publish`: an error of the publisher is swallowed
announce : (String → Incident → Bool) → String → Option Row → Action Unit
announce accepts event_type none db = (ok tt, db)
announce accepts event_type (some r) db =
    let inc = row_to_incident r in
    if accepts event_type inc
    then (ok tt, record db { published = db.published ++ (event_type, inc) ∷ [] })
    else (ok tt, db)

unfoldable pub publish : Publisher → String → String → Action Unit
unfolding announce
publish none event_type incident_id db = (ok tt, db)
publish (some accepts) event_type incident_id db =
    announce accepts event_type (find (has_id incident_id) db.incidents) db

-- the row of the `INSERT` of `open_or_attach`
abbrev pub new_row : String → ℕ → AlertRef → Row
new_row id now alert = record {
  id = id;
  organization_id = alert.organization_id;
  alert_id = some alert.id;
  factory_id = null_if_empty alert.factory_id;
  machine_id = null_if_empty alert.machine_id;
  device_id = null_if_empty alert.device_id;
  sensor_id = null_if_empty alert.sensor_id;
  severity = alert.severity;
  status = "OPEN";
  title = alert.title;
  description = alert.description;
  assigned_to = none;
  resolution_notes = none;
  opened_at = now;
  resolved_at = none;
  closed_at = none;
  updated_at = now;
}

-- `INSERT … ON CONFLICT (machine_id) WHERE … DO NOTHING RETURNING id`
unfoldable pub insert_incident : String → ℕ → AlertRef → Action (Option String)
insert_incident id now alert db =
    let r = new_row id now alert in
    if conflicts r.machine_id db.incidents
    then (ok none, db)
    else (ok (some id), record db { incidents = db.incidents ++ r ∷ [] })

unfoldable pub attached_note : AlertRef → String
attached_note alert =
    concat ("alert " ∷ alert.id ∷ " (" ∷ alert.severity ∷ ") attached: " ∷ alert.title ∷ [])

unfoldable pub opened_note : AlertRef → String
opened_note alert = concat ("incident opened from alert " ∷ alert.id ∷ [])
