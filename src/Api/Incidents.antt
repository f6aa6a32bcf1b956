-- ===== src/Api/Incidents.antt =====
-- services/api/handlers_incidents.py over the `Store` of shared/incidents.py, which has no publisher
-- here. The caller's claims have passed the guard of the route; an incident is answered as it is
-- stored, before its optional fields are left out.
pub mod Ownership
pub mod Tenancy
use indu_sense.Base.{ℕ, String, Bool, Option, none, some, List, [], ◌∷◌, ◌==◌, if◌then◌else◌}
use indu_sense.Events.{ℤ}
use indu_sense.Incidents.{Incident}
use indu_sense.Incidents.Tables.{
  Db, Error, incident_not_found, invalid_transition, race_unresolved, unique_violation,
  foreign_key_violation, event_refused, invalid_uuid, Reply, ok, raised, Action,
}
use indu_sense.Incidents.Store.{transition, assign, resolve}
use indu_sense.Incidents.Query.{get, list, EventRead, list_events}
use indu_sense.Auth.Token.{Claims}
use indu_sense.Api.{
  Response, success, refused, internal_error, parse_limit_offset, Page, paginated_response,
}

unfoldable pub list_incidents :
    (String → Option ℤ) → Option String → Option String → String → Claims → Db → Page Incident
list_incidents int limit offset status_filter claims db =
    let page = parse_limit_offset int limit offset in
    paginated_response (list claims.organization_id status_filter page.0 page.1 db) page.0 page.1

abbrev found : Option Incident → List EventRead → Response (Incident × List EventRead)
found none events = refused 404 "NOT_FOUND"
found (some i) events = success (i, events)

unfoldable pub get_incident : String → Claims → Db → Response (Incident × List EventRead)
get_incident id claims db = found (get claims.organization_id id db) (list_events id db)

-- ValueError and RuntimeError answer 409; another exception reaches the handler of all exceptions.
unfoldable pub conflict : Error → Response Unit
unfolding internal_error
conflict incident_not_found = refused 409 "INVALID_TRANSITION"
conflict invalid_transition = refused 409 "INVALID_TRANSITION"
conflict race_unresolved = refused 409 "INVALID_TRANSITION"
conflict unique_violation = internal_error
conflict foreign_key_violation = internal_error
conflict event_refused = internal_error
conflict invalid_uuid = internal_error

abbrev pub no_content : (Error → Response Unit) → Reply Unit × Db → Response Unit × Db
no_content on_error (ok _, db) = (success tt, db)
no_content on_error (raised e, db) = (on_error e, db)

-- what is done if `get` finds the incident
abbrev pub if_found : Option Incident → Response Unit × Db → Db → Response Unit × Db
if_found none done db = (refused 404 "NOT_FOUND", db)
if_found (some i) done db = done

-- `other` is what other connections commit during the call.
unfoldable pub transition_incident :
    (Db → Db) → ℕ → String → String → String → Claims → Db → Response Unit × Db
unfolding conflict
transition_incident other now id status note claims db =
    if status == ""
    then (refused 400 "INVALID_BODY", db)
    else if_found (get claims.organization_id id db)
        (no_content conflict (transition other none (some claims.user_id) note now id status db)) db

unfoldable pub assign_incident : ℕ → String → String → Claims → Db → Response Unit × Db
unfolding internal_error
assign_incident now id user_id claims db =
    if user_id == ""
    then (refused 400 "INVALID_BODY", db)
    else if_found (get claims.organization_id id db)
        (no_content (λ e. internal_error) (assign none (some claims.user_id) now id user_id db)) db

unfoldable pub resolve_incident : (Db → Db) → ℕ → String → String → Claims → Db → Response Unit × Db
unfolding conflict
resolve_incident other now id resolution_notes claims db =
    if_found (get claims.organization_id id db)
      (no_content conflict (resolve other none (some claims.user_id) now id resolution_notes db)) db
