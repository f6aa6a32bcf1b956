-- ===== src/Incidents/Query.antt =====
-- The queries `get`, `list` and `list_events` of shared/incidents.py. Where SQL leaves the order of
-- two rows of one instant open, the model takes the one of the table.
pub mod Listed
use indu_sense.Base.{
  ℕ, String, Bool, true, false, ◌&&◌, ◌||◌, Option, none, some, List, [], ◌∷◌, map, ◌==◌, leb,
  if◌then◌else◌, filter, find, take, drop,
}
use indu_sense.Base.Order.{order_by}
use indu_sense.Incidents.{Row, Incident, Event}
use indu_sense.Incidents.Tables.{Db, row_to_incident, coalesce}

-- `WHERE id = %s AND organization_id = %s`
abbrev pub is_in : String → String → Row → Bool
is_in org_id incident_id r = r.id == incident_id && r.organization_id == org_id

abbrev as_incident : Option Row → Option Incident
as_incident none = none
as_incident (some r) = some (row_to_incident r)

unfoldable pub get : String → String → Db → Option Incident
get org_id incident_id db = as_incident (find (is_in org_id incident_id) db.incidents)

abbrev pub newest_first : Row → Row → Bool
newest_first r s = leb s.opened_at r.opened_at

abbrev pub passes : String → String → Row → Bool
passes org_id status_filter r =
    if status_filter == ""
    then r.organization_id == org_id
    else r.organization_id == org_id && r.status == status_filter

unfoldable pub list : String → String → ℕ → ℕ → Db → List Incident
list org_id status_filter limit offset db = map row_to_incident (
    take limit
      (drop offset (order_by newest_first (filter (passes org_id status_filter) db.incidents))))

-- an `Event` as it is read, without its generated id
pub record EventRead : Type 0 where
  pub incident_id : String
  pub event_type : String
  pub actor_user_id : Option String
  pub old_value : String
  pub new_value : String
  pub note : String
  pub created_at : ℕ

abbrev oldest_first : Event → Event → Bool
oldest_first e f = leb e.created_at f.created_at

abbrev read_event : Event → EventRead
read_event e = record {
  incident_id = e.incident_id;
  event_type = e.event_type;
  actor_user_id = e.actor_user_id;
  old_value = coalesce e.old_value;
  new_value = coalesce e.new_value;
  note = e.note;
  created_at = e.created_at;
}

unfoldable pub list_events : String → Db → List EventRead
list_events incident_id db =
    map read_event (order_by oldest_first (filter (λ e. e.incident_id == incident_id) db.events))
