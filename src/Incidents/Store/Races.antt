-- ===== src/Incidents/Store/Races.antt =====
-- What `resolve` and `transition` of shared/incidents.py write in one step before or after another.
use indu_sense.Base.{
  ℕ, String, ◌≡◌, refl, ap, ◌∙◌, true, false, Option, some, map, arith, eq_iff, any,
}
use indu_sense.Incidents.{Row, is_valid_transition}
use indu_sense.Incidents.Tables.{
  Db, ok, raised, has_id, Publisher, one_active, log_event, insert_event, publish,
  invalid_transition,
}
use indu_sense.Incidents.Store.{transition, resolve, at_id, moved}
use indu_sense.Incidents.Store.Find.{
  row_of, status_of, find-update, find-has_id, any-find, any-update,
}
use indu_sense.Incidents.Store.Transition.{
  publish_keeps, alone, moved-KeepsId, transition-invalid, change_event,
}

abbrev pub noted : String → Row → Row
noted notes r = record r { resolution_notes = some notes }

pub publish-incidents :
    (p : Publisher) (event_type id : String) (db : Db)
    → (publish p event_type id db).1.incidents ≡ db.incidents
publish-incidents p event_type id db = (publish_keeps p event_type id db).1

row_at_id : (id : String) (h : Row → Row) (r : Row) → r.id ≡ id → at_id id h r ≡ h r
row_at_id id h r e = ground (arith, eq_iff r.id id)

-- resolve of an incident whose status has no move to RESOLVED, such as a closed one, raises the
-- invalid transition and has replaced the notes, if the table keeps its unique index.
pub resolve_overwrites_notes :
    (p : Publisher) (actor : Option String) (now : ℕ) (id notes : String) (db : Db) (r : Row)
    → row_of id db ≡ some r
    → is_valid_transition r.status "RESOLVED" ≡ false
    → one_active (map (at_id id (noted notes)) db.incidents) ≡ true
    → ((resolve alone p actor now id notes db).0 ≡ raised invalid_transition)
      × (row_of id (resolve alone p actor now id notes db).1
          ≡ some (record r { resolution_notes = some notes }))
unfolding resolve
resolve_overwrites_notes p actor now id notes db r f v c =
    let db' : Db = record db { incidents = map (at_id id (noted notes)) db.incidents } in
    let g : row_of id db' ≡ some (noted notes r) =
      rw (find-update id id (noted notes) db.incidents (λ x. refl), f)
        (ap some (row_at_id id (noted notes) r (find-has_id id db.incidents r f))) in
    let e = transition-invalid p actor notes now id "RESOLVED" db' (noted notes r) g v in
    rw c (rw e (refl, g))

-- transition does not look at the status again when it writes: if another connection commits in
-- between, and the incident, the index and the audit table still allow the writes, it returns and
-- sets its status, whatever status the incident has by then.
pub transition_ignores_commits :
    (other : Db → Db) (p : Publisher) (actor : Option String) (note : String) (now : ℕ)
    (id s : String) (db : Db) (r r' : Row)
    → row_of id db ≡ some r
    → is_valid_transition r.status s ≡ true
    → row_of id (other db) ≡ some r'
    → one_active (map (at_id id (moved now s)) (other db).incidents) ≡ true
    → (other db).refuses (change_event p actor note now id s db r.status) ≡ false
    → ((transition other p actor note now id s db).0 ≡ ok tt)
      × (status_of id (transition other p actor note now id s db).1 ≡ some s)
unfolding transition log_event insert_event
transition_ignores_commits other p actor note now id s db r r' f v g c q =
    let there : any (has_id id) (map (at_id id (moved now s)) (other db).incidents) ≡ true =
      any-update id id (moved now s) (other db).incidents (moved-KeepsId now s)
      ∙ any-find id (other db).incidents r' g in
    let e = find-update id id (moved now s) (other db).incidents (moved-KeepsId now s) in
    rw f (
      rw v (
        rw c (
          rw there (
            rw q (
              (publish_keeps p "STATUS_CHANGED" id _).0,
              rw (publish-incidents, e, g)
                  (ap some (moved_status r' (find-has_id id (other db).incidents r' g))),
            )))))
  where
    moved_status : (x : Row) → x.id ≡ id → (at_id id (moved now s) x).status ≡ s
    moved_status x i = ground (arith, eq_iff x.id id)
