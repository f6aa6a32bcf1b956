-- ===== src/Incidents/Store/Transition.antt =====
-- What `transition` and `resolve` of shared/incidents.py do on every branch.
use indu_sense.Base.{
  ℕ, ◌⊎◌, String, ◌≡◌, refl, ◌∙◌, ap, true, false, Option, none, some, [], ◌∷◌, ◌++◌, map, arith,
  eq_iff, any, Bool-cases, Option-cases, inl, inr, ◌≢◌, ◌↔◌,
}
use indu_sense.Incidents.{Row, Event, is_valid_transition}
use indu_sense.Incidents.Tables.{
  null_if_empty, Db, Reply, ok, raised, unique_violation, invalid_transition, incident_not_found,
  event_refused, insert_event, one_active, Publisher, publish, log_event, has_id, Error,
}
use indu_sense.Incidents.Store.{transition, moved, at_id}
use indu_sense.Incidents.Store.Find.{
  row_of, status_of, find-update, find-has_id, any-find, any-update, KeepsId,
}

-- a call during which no other connection commits
abbrev pub alone : Db → Db
alone db = db

pub publish_keeps :
    (p : Publisher) (event_type id : String) (db : Db)
    → let r = publish p event_type id db in
      (r.0 ≡ ok tt) × (r.1.incidents ≡ db.incidents) × (r.1.events ≡ db.events)
unfolding publish
publish_keeps none event_type id db = (refl, refl, refl)
publish_keeps (some accepts) event_type id db = ground arith

pub moved-KeepsId : (now : ℕ) (s : String) → KeepsId (moved now s)
moved-KeepsId now s r = ground arith

moved-status : (now : ℕ) (s : String) (r : Row) → (moved now s r).status ≡ s
moved-status now s r = ground arith

module _ (p : Publisher) (actor : Option String) (note : String) (now : ℕ) (id s : String)
    (db : Db) where
  -- the audit event of a transition
  abbrev pub change_event : String → Event
  change_event old = record {
    incident_id = id;
    event_type = "STATUS_CHANGE";
    actor_user_id = actor;
    old_value = null_if_empty old;
    new_value = null_if_empty s;
    note = note;
    created_at = now;
  }

  -- the tables when the `UPDATE` is written
  abbrev rewritten : Db
  rewritten = record db { incidents = map (at_id id (moved now s)) db.incidents }

  -- the tables when the `UPDATE` and the audit event are written
  abbrev updated : Row → Db
  updated r = record db {
    incidents = map (at_id id (moved now s)) db.incidents;
    events = db.events ++ change_event r.status ∷ [];
  }

  any-updated :
      (r : Row)
      → row_of id db ≡ some r
      → any (has_id id) (map (at_id id (moved now s)) db.incidents) ≡ true
  any-updated r f =
      any-update id id (moved now s) db.incidents (moved-KeepsId now s)
      ∙ any-find id db.incidents r f

  -- `transition` with no other connection at work, branch by branch
  transition-missing :
      row_of id db ≡ none
      → transition alone p actor note now id s db ≡ (raised incident_not_found, db)
  unfolding transition
  transition-missing f = rw f

  pub transition-invalid :
      (r : Row)
      → row_of id db ≡ some r
      → is_valid_transition r.status s ≡ false
      → transition alone p actor note now id s db ≡ (raised invalid_transition, db)
  unfolding transition
  transition-invalid r f v = rw f (rw v)

  transition-conflict :
      (r : Row)
      → row_of id db ≡ some r
      → is_valid_transition r.status s ≡ true
      → one_active (map (at_id id (moved now s)) db.incidents) ≡ false
      → transition alone p actor note now id s db ≡ (raised unique_violation, db)
  unfolding transition
  transition-conflict r f v c = rw f (rw v (rw c))

  transition-moves :
      (r : Row)
      → row_of id db ≡ some r
      → is_valid_transition r.status s ≡ true
      → one_active (map (at_id id (moved now s)) db.incidents) ≡ true
      → db.refuses (change_event r.status) ≡ false
      → transition alone p actor note now id s db ≡ publish p "STATUS_CHANGED" id (updated r)
  unfolding transition log_event insert_event
  transition-moves r f v c q = rw f (rw v (rw c (rw (any-updated r f) (rw q))))

  transition-refused :
      (r : Row)
      → row_of id db ≡ some r
      → is_valid_transition r.status s ≡ true
      → one_active (map (at_id id (moved now s)) db.incidents) ≡ true
      → db.refuses (change_event r.status) ≡ true
      → transition alone p actor note now id s db ≡ (raised event_refused, rewritten)
  unfolding transition log_event insert_event
  transition-refused r f v c q = rw f (rw v (rw c (rw (any-updated r f) (rw q))))

  data Branch : Type 0 where
    missing : row_of id db ≡ none → Branch
    invalid : (r : Row) → row_of id db ≡ some r → is_valid_transition r.status s ≡ false → Branch
    conflict :
        (r : Row)
        → row_of id db ≡ some r
        → is_valid_transition r.status s ≡ true
        → one_active (map (at_id id (moved now s)) db.incidents) ≡ false
        → Branch
    moves :
        (r : Row)
        → row_of id db ≡ some r
        → is_valid_transition r.status s ≡ true
        → one_active (map (at_id id (moved now s)) db.incidents) ≡ true
        → db.refuses (change_event r.status) ≡ false
        → Branch
    refused :
        (r : Row)
        → row_of id db ≡ some r
        → is_valid_transition r.status s ≡ true
        → one_active (map (at_id id (moved now s)) db.incidents) ≡ true
        → db.refuses (change_event r.status) ≡ true
        → Branch

  branch : Branch
  branch = elim (Option-cases (row_of id db)) [
    | inl f ↦ missing f
    | inr (r, f) ↦ elim (Bool-cases (is_valid_transition r.status s)) [
      | inr v ↦ invalid r f v
      | inl v ↦ elim (Bool-cases (one_active (map (at_id id (moved now s)) db.incidents))) [
        | inr c ↦ conflict r f v c
        | inl c ↦ elim (Bool-cases (db.refuses (change_event r.status))) [
          | inr q ↦ moves r f v c q
          | inl q ↦ refused r f v c q
        ]
      ]
    ]
  ]

  status-at_id : (r : Row) → row_of id db ≡ some r → (at_id id (moved now s) r).status ≡ s
  status-at_id r f = ground (arith, eq_iff r.id id, find-has_id id db.incidents r f)

  at_id-other :
      (j : String) (r : Row) → row_of j db ≡ some r → j ≢ id → at_id id (moved now s) r ≡ r
  at_id-other j r f n = ground (arith, eq_iff r.id id, find-has_id j db.incidents r f)

  status_of_self :
      (r : Row) (db' : Db)
      → row_of id db ≡ some r
      → db'.incidents ≡ map (at_id id (moved now s)) db.incidents
      → status_of id db' ≡ some s
  status_of_self r db' f e =
      rw (e, find-update id id (moved now s) db.incidents (moved-KeepsId now s), f)
        (ap some (status-at_id r f))

  status_of-other :
      (db' : Db) (j : String)
      → db'.incidents ≡ map (at_id id (moved now s)) db.incidents
      → j ≢ id
      → row_of j db' ≡ row_of j db
  status_of-other db' j e n = elim (Option-cases (row_of j db)) [
    | inl f ↦ rw (e, find-update id j (moved now s) db.incidents (moved-KeepsId now s), f) refl
    | inr (r, f) ↦
        rw (e, find-update id j (moved now s) db.incidents (moved-KeepsId now s), f)
          (ap some (at_id-other j r f n))
  ]

  refused_error :
      {e : Error} {x : Reply Unit} → x ≡ raised e → x ≡ raised event_refused → e ≡ event_refused
  refused_error h k = cc

  -- A transition that raises, with no other connection at work, changes nothing, other than where
  -- the audit table refuses its event: then an allowed move has been written, without an event,
  -- and every other incident is as it was.
  pub transition-raised :
      {e : Error}
      → (transition alone p actor note now id s db).0 ≡ raised e
      → let db' = (transition alone p actor note now id s db).1 in
        (db' ≡ db)
        ⊎ ((e ≡ event_refused)
            × ((old : String) × (status_of id db ≡ some old)
                × (is_valid_transition old s ≡ true)
                × (status_of id db' ≡ some s)
                × ((j : String) → j ≢ id → row_of j db' ≡ row_of j db)
                × (db'.events ≡ db.events)))
  transition-raised h = elim branch [
    | missing f ↦ inl (ap (λ x. x.1) (transition-missing f))
    | invalid r f v ↦ inl (ap (λ x. x.1) (transition-invalid r f v))
    | conflict r f v c ↦ inl (ap (λ x. x.1) (transition-conflict r f v c))
    | refused r f v c q ↦
        let k = transition-refused r f v c q in
        inr (
          refused_error h (ap (λ x. x.0) k),
          (
            r.status,
            rw f refl,
            v,
            rw k (status_of_self r rewritten f refl),
            (λ j n. rw k (status_of-other rewritten j refl n)),
            rw k refl,
          ),
        )
    | moves r f v c q ↦ cc (
      ap (λ x. x.0) (transition-moves r f v c q),
      (publish_keeps p "STATUS_CHANGED" id (updated r)).0,
      h,
    )
  ]

  -- A transition that returns, with no other connection at work, was allowed from the incident's
  -- status; it sets that status, leaves every other incident as it was, and appends one audit
  -- event with the old and the new status.
  pub transition-ok :
      (transition alone p actor note now id s db).0 ≡ ok tt
      → let db' = (transition alone p actor note now id s db).1 in
        (old : String) × (status_of id db ≡ some old)
        × (is_valid_transition old s ≡ true)
        × (status_of id db' ≡ some s)
        × ((j : String) → j ≢ id → row_of j db' ≡ row_of j db)
        × (db'.events ≡ db.events ++ change_event old ∷ [])
  transition-ok h = elim branch [
    | missing f ↦ cc (ap (λ x. x.0) (transition-missing f))
    | invalid r f v ↦ cc (ap (λ x. x.0) (transition-invalid r f v))
    | conflict r f v c ↦ cc (ap (λ x. x.0) (transition-conflict r f v c))
    | refused r f v c q ↦ cc (ap (λ x. x.0) (transition-refused r f v c q))
    | moves r f v c q ↦
        let k = publish_keeps p "STATUS_CHANGED" id (updated r) in
        let e = transition-moves r f v c q in
        rw e (
          r.status,
          rw f refl,
          v,
          status_of_self r (publish p "STATUS_CHANGED" id (updated r)).1 f k.1,
          (λ j n. status_of-other (publish p "STATUS_CHANGED" id (updated r)).1 j k.1 n),
          k.2,
        )
  ]

  -- With no other connection at work, a transition returns exactly if the incident is there, its
  -- status allows the move, and the move leaves at most one active incident on each machine.
  pub transition-ok_iff : ((transition alone p actor note now id s db).0 ≡ ok tt) ↔ (
      (r : Row) × (row_of id db ≡ some r)
      × (is_valid_transition r.status s ≡ true)
      × (one_active (map (at_id id (moved now s)) db.incidents) ≡ true)
      × (db.refuses (change_event r.status) ≡ false))
  transition-ok_iff = (
    λ h. elim branch [
      | missing f ↦ cc (ap (λ x. x.0) (transition-missing f))
      | invalid r f v ↦ cc (ap (λ x. x.0) (transition-invalid r f v))
      | conflict r f v c ↦ cc (ap (λ x. x.0) (transition-conflict r f v c))
      | refused r f v c q ↦ cc (ap (λ x. x.0) (transition-refused r f v c q))
      | moves r f v c q ↦ (r, f, v, c, q)
    ],
    λ w.
        ap (λ x. x.0) (transition-moves w.0 w.1 w.2 w.3 w.4)
        ∙ (publish_keeps p "STATUS_CHANGED" id (updated w.0)).0,
  )
