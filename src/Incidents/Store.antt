-- ===== src/Incidents/Store.antt =====
-- The methods of `Store` in shared/incidents.py. `meanwhile` stands where other connections can
-- commit between two statements of a method.
pub mod Find
pub mod Transition
pub mod Attach
pub mod OneActive
pub mod Storm
pub mod Races
pub mod Closed
use indu_sense.Base.{
  ℕ, zero, suc, String, Bool, true, false, ◌&&◌, Option, none, some, List, [], ◌∷◌, map, ◌==◌,
  if◌then◌else◌, filter, find, concat, leb, ltb, drop,
}
use indu_sense.Incidents.{AlertRef, Row, Incident, Event, is_valid_transition}
use indu_sense.Incidents.Tables.{
  Db, Error, incident_not_found, invalid_transition, race_unresolved, unique_violation,
  invalid_uuid, Reply, ok, raised, Action, continue, ◌>>=◌, ◌>>◌, pure, raise, query, meanwhile,
  row_to_incident, active_on, has_id, one_active, log_event, Publisher, publish, insert_incident,
  attached_note, opened_note,
}

-- Where other connections can commit while `open_or_attach` runs: after its first `SELECT` has found
-- a row, before its `INSERT`, between a conflict and the second `SELECT`, after the `INSERT`, and
-- before the `SELECT` of `_publish`.
pub data Gap : Type 0 where
  after_select before_insert after_conflict after_insert before_publish : Gap

-- what they commit there
abbrev pub Others : Type 0
Others = Gap → Db → Db

-- the second `SELECT` of a lost race
lost_race : Option Row → Action (String × Bool)
lost_race none = raise race_unresolved
lost_race (some r) = pure (r.id, false)

inserted : Others → Publisher → ℕ → AlertRef → Option String → Action (String × Bool)
unfolding lost_race publish log_event opened_note
inserted others publisher now alert none = do
  meanwhile (others after_conflict)
  existing ← query (find (active_on alert.machine_id))
  lost_race existing
inserted others publisher now alert (some incident_id) = do
  meanwhile (others after_insert)
  log_event now incident_id "STATUS_CHANGE" none "" "OPEN" (opened_note alert)
  meanwhile (others before_publish)
  publish publisher "CREATED" incident_id
  pure (incident_id, true)

attach_or_insert : Others → Publisher → String → ℕ → AlertRef → Option Row → Action (String × Bool)
unfolding inserted log_event attached_note insert_incident
attach_or_insert others publisher new_id now alert (some r) = do
  meanwhile (others after_select)
  log_event now r.id "ALERT_ATTACHED" none "" "" (attached_note alert)
  pure (r.id, false)
attach_or_insert others publisher new_id now alert none = do
  meanwhile (others before_insert)
  row ← insert_incident new_id now alert
  inserted others publisher now alert row

-- `open_or_attach` for a machine's id. `new_id` is the id that the database would generate.
unfoldable pub attach_machine : Others → Publisher → String → ℕ → AlertRef → Action (String × Bool)
unfolding attach_or_insert
attach_machine others publisher new_id now alert = do
  row ← query (find (active_on alert.machine_id))
  attach_or_insert others publisher new_id now alert row

-- An empty text is no uuid, so that the first `SELECT` raises.
unfoldable pub open_or_attach : Others → Publisher → String → ℕ → AlertRef → Action (String × Bool)
open_or_attach others publisher new_id now alert db =
    let attached = attach_machine others publisher new_id now alert db in
    if alert.machine_id == "" then (raised invalid_uuid, db) else attached

-- the row that the `UPDATE` of `transition` leaves
abbrev pub moved : ℕ → String → Row → Row
moved now new_status r =
    if new_status == "RESOLVED"
    then record r { status = new_status; updated_at = now; resolved_at = some now }
    else if new_status == "CLOSED"
    then record r { status = new_status; updated_at = now; closed_at = some now }
    else record r { status = new_status; updated_at = now }

-- `UPDATE … WHERE id = %s`
abbrev pub at_id : String → (Row → Row) → Row → Row
at_id id f r = if has_id id r then f r else r

unfoldable pub update : String → (Row → Row) → Action Unit
update id f db =
    let rows = map (at_id id f) db.incidents in
    if one_active rows
    then (ok tt, record db { incidents = rows })
    else (raised unique_violation, db)

unfoldable pub move :
    (Db → Db) → Publisher → Option String → String → ℕ → String → String → Option Row → Action Unit
unfolding update log_event publish
move other publisher actor note now id new_status none = raise incident_not_found
move other publisher actor note now id new_status (some r) =
    if is_valid_transition r.status new_status
    then (do
      meanwhile other
      update id (moved now new_status)
      log_event now id "STATUS_CHANGE" actor r.status new_status note
      publish publisher "STATUS_CHANGED" id)
    else raise invalid_transition

unfoldable pub transition :
    (Db → Db) → Publisher → Option String → String → ℕ → String → String → Action Unit
unfolding move
transition other publisher actor note now id new_status = do
  row ← query (find (has_id id))
  move other publisher actor note now id new_status row

unfoldable pub assign : Publisher → Option String → ℕ → String → String → Action Unit
unfolding update log_event publish
assign publisher actor now id user_id = do
  update id (λ r. record r { assigned_to = some user_id; updated_at = now })
  log_event now id "ASSIGNMENT" actor "" user_id (concat ("assigned to technician " ∷ user_id ∷ []))
  publish publisher "ASSIGNED" id

unfoldable pub resolve : (Db → Db) → Publisher → Option String → ℕ → String → String → Action Unit
unfolding update transition
resolve other publisher actor now id resolution_notes = do
  update id (λ r. record r { resolution_notes = some resolution_notes })
  transition other publisher actor resolution_notes now id "RESOLVED"
