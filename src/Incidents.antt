-- ===== src/Incidents.antt =====
-- shared/incidents.py: the incident life cycle and the `Store` over two Postgres tables.
-- A table is the list of its rows in the order of insertion, a NULL is `none`, and each SQL statement is a function on
-- the tables. What other connections commit between two statements is an argument of the method.
pub mod Lifecycle
pub mod Tables
pub mod Store
pub mod Query
use indu_sense.Base.{
  ℕ, String, ◌≡◌, Bool, true, false, ◌&&◌, ◌||◌, not, Option, none, some, List, [], ◌∷◌, ◌++◌, map,
  ◌==◌, mem, if◌then◌else◌, filter, any,
}
use indu_sense.Base.Dict.{Dict, get_or}

-- `AlertRef`
pub record AlertRef : Type 0 where
  pub id : String
  pub organization_id : String
  pub severity : String
  pub factory_id : String
  pub machine_id : String
  pub device_id : String
  pub sensor_id : String
  pub title : String
  pub description : String

-- A row of the table `incidents`.
pub record Row : Type 0 where
  pub id : String
  pub organization_id : String
  pub alert_id : Option String
  pub factory_id : Option String
  pub machine_id : Option String
  pub device_id : Option String
  pub sensor_id : Option String
  pub severity : String
  pub status : String
  pub title : String
  pub description : String
  pub assigned_to : Option String
  pub resolution_notes : Option String
  pub opened_at : ℕ
  pub resolved_at : Option ℕ
  pub closed_at : Option ℕ
  pub updated_at : ℕ

-- `Incident`
pub record Incident : Type 0 where
  pub id : String
  pub organization_id : String
  pub alert_id : String
  pub factory_id : String
  pub machine_id : String
  pub device_id : String
  pub sensor_id : String
  pub severity : String
  pub status : String
  pub title : String
  pub description : String
  pub assigned_to : String
  pub resolution_notes : String
  pub opened_at : ℕ
  pub resolved_at : Option ℕ
  pub closed_at : Option ℕ

-- A row of the table `incident_events`, without its generated id.
pub record Event : Type 0 where
  pub incident_id : String
  pub event_type : String
  pub actor_user_id : Option String
  pub old_value : Option String
  pub new_value : Option String
  pub note : String
  pub created_at : ℕ

abbrev pub valid_transitions : Dict (List String)
valid_transitions =
    ("OPEN", "ACKNOWLEDGED" ∷ "INVESTIGATING" ∷ "RESOLVED" ∷ [])
    ∷ ("ACKNOWLEDGED", "INVESTIGATING" ∷ "RESOLVED" ∷ [])
    ∷ ("INVESTIGATING", "RESOLVED" ∷ [])
    ∷ ("RESOLVED", "CLOSED" ∷ "INVESTIGATING" ∷ [])
    ∷ ("CLOSED", [])
    ∷ []

unfoldable pub is_valid_transition : String → String → Bool
unfolding get_or
is_valid_transition from_status to_status = mem to_status (get_or from_status [] valid_transitions)
