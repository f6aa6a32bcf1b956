-- ===== src/Api/Incidents/Tenancy.antt =====
-- services/api/handlers_incidents.py: no request touches another organization's incidents.
use indu_sense.Base.{ℕ, String, some, refl, ◌==◌, Bool-cases, inl, inr}
use indu_sense.Incidents.Tables.{Db}
use indu_sense.Incidents.Store.Transition.{alone}
use indu_sense.Auth.Token.{Claims}
use indu_sense.Api.{Response, internal_error}
use indu_sense.Api.Incidents.{conflict, transition_incident, assign_incident, resolve_incident}
use indu_sense.Api.Incidents.Ownership.{
  UniqueIds, KeepsForeign, transition-Keeps, assign-Keeps, resolve-Keeps, guarded_Keeps,
}

-- A request to change an incident, as one of the three routes takes it.
pub data Change : Type 0 where
  transitions : String → String → Change
  assigns : String → Change
  resolves : String → Change

unfoldable pub handle : ℕ → String → Change → Claims → Db → Response Unit × Db
unfolding transition_incident assign_incident resolve_incident
handle now id (transitions status note) claims db =
    transition_incident alone now id status note claims db
handle now id (assigns user_id) claims db = assign_incident now id user_id claims db
handle now id (resolves notes) claims db = resolve_incident alone now id notes claims db

-- If the incidents have different ids, and no other connection is at work, then no request to
-- change one, neither a transition nor an assignment nor a resolution, changes an incident of
-- another organization than the caller's, and none adds an event other than to an incident of the
-- caller's organization, also where it raises.
pub handle-KeepsForeign :
    (now : ℕ) (id : String) (change : Change) (claims : Claims) (db : Db)
    → UniqueIds db.incidents
    → KeepsForeign claims.organization_id db (handle now id change claims db).1
unfolding handle
handle-KeepsForeign now id (transitions status note) claims db u =
    elim (Bool-cases (status == "")) [
      | inl e ↦ rw e (refl, refl)
      | inr e ↦ rw e (
          guarded_Keeps claims.organization_id id _ conflict db
            (transition-Keeps claims.organization_id id (some claims.user_id) note now status) u)
    ]
handle-KeepsForeign now id (assigns user_id) claims db u = elim (Bool-cases (user_id == "")) [
  | inl e ↦ rw e (refl, refl)
  | inr e ↦ rw e (
      guarded_Keeps claims.organization_id id _ (λ e. internal_error) db
        (assign-Keeps claims.organization_id id (some claims.user_id) now user_id) u)
]
handle-KeepsForeign now id (resolves notes) claims db u =
    guarded_Keeps claims.organization_id id _ conflict db
      (resolve-Keeps claims.organization_id id (some claims.user_id) now notes) u
