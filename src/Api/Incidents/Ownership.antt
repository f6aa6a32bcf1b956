-- ===== src/Api/Incidents/Ownership.antt =====
-- The statements of shared/incidents.py at an incident of one organization: the incidents of the others
-- stay.
use indu_sense.Base.{
  Bool, if◌then◌else◌, ◌++◌, ℕ, String, true, false, not, Option, none, some, List, [], ◌∷◌, map,
  ◌≡◌, refl, ap, sym, subst, ◌∙◌, arith, ◌==◌, eq_iff, filter, find, any, All, any-find, find-some,
  Bool-cases, Option-cases, inl, inr,
}
use indu_sense.Incidents.{Row, Event, is_valid_transition}
use indu_sense.Incidents.Tables.{
  Db, Error, Reply, ok, raised, Action, continue, ◌>>=◌, ◌>>◌, has_id, one_active, log_event,
  new_event, insert_event, event_refused, foreign_key_violation, publish,
}
use indu_sense.Incidents.Store.{transition, assign, resolve, move, moved, at_id, update}
use indu_sense.Incidents.Store.Transition.{alone}
use indu_sense.Incidents.Store.Attach.{insert_event-incidents}
use indu_sense.Incidents.Query.{get, is_in}
use indu_sense.Api.{Response}
use indu_sense.Api.Incidents.{no_content, if_found}

-- the primary key: no two rows have one id
abbrev pub UniqueIds : List Row → Type 0
UniqueIds [] = Unit
UniqueIds (r ∷ rows) = (any (has_id r.id) rows ≡ false) × UniqueIds rows

abbrev pub foreign : String → List Row → List Row
foreign org rows = filter (λ r. not (r.organization_id == org)) rows

-- the events of incidents that are none of the organization's
abbrev pub foreign_events : String → List Row → List Event → List Event
foreign_events org rows events = filter (λ e. not (any (is_in org e.incident_id) rows)) events

-- The incidents of the other organizations and their events stay as they are.
abbrev pub KeepsForeign : String → Db → Db → Type 0
KeepsForeign org before after =
    (foreign org after.incidents ≡ foreign org before.incidents)
    × (foreign_events org before.incidents after.events
        ≡ foreign_events org before.incidents before.events)

-- the events of the other incidents
elsewhere : String → List Event → List Event
elsewhere id events = filter (λ e. not (e.incident_id == id)) events

elsewhere-append :
    (id : String) (events : List Event) (e : Event)
    → e.incident_id ≡ id
    → elsewhere id (events ++ e ∷ []) ≡ elsewhere id events
unfolding elsewhere
elsewhere-append id [] e h = rw ((eq_iff e.incident_id id).1 h) refl
elsewhere-append id (x ∷ events) e h = elim (Bool-cases (x.incident_id == id)) [
  | inl i ↦ rw i (elsewhere-append id events e h)
  | inr i ↦ rw i (ap (λ t. x ∷ t) (elsewhere-append id events e h))
]

not_there :
    (org id : String) (rows : List Row) (e : Event)
    → any (is_in org id) rows ≡ true
    → (e.incident_id == id) ≡ true
    → not (any (is_in org e.incident_id) rows) ≡ false
not_there org id rows e h i = rw ((eq_iff e.incident_id id).0 i, h) refl

foreign-elsewhere :
    (org id : String) (rows : List Row) (events : List Event)
    → any (is_in org id) rows ≡ true
    → foreign_events org rows (elsewhere id events) ≡ foreign_events org rows events
unfolding elsewhere
foreign-elsewhere org id rows [] h = refl
foreign-elsewhere org id rows (e ∷ events) h = elim (Bool-cases (e.incident_id == id)) [
  | inl i ↦ rw (i, not_there org id rows e h i) (foreign-elsewhere org id rows events h)
  | inr i ↦ elim (Bool-cases (any (is_in org e.incident_id) rows)) [
    | inl a ↦ rw (i, a) (foreign-elsewhere org id rows events h)
    | inr a ↦ rw (i, a) (ap (λ t. e ∷ t) (foreign-elsewhere org id rows events h))
  ]
]

-- every row of the id is the organization's
abbrev pub Owns : String → String → List Row → Type 0
Owns org id rows = All (λ r. has_id id r ≡ true → r.organization_id ≡ org) rows

Owns-none : (org id : String) (rows : List Row) → any (has_id id) rows ≡ false → Owns org id rows
Owns-none org id [] h = tt
Owns-none org id (r ∷ rows) h = (λ e. ground arith, Owns-none org id rows (ground arith))

Owns-find :
    (org id : String) (rows : List Row) (r : Row)
    → UniqueIds rows
    → find (is_in org id) rows ≡ some r
    → Owns org id rows
Owns-find org id [] r u h = tt
Owns-find org id (s ∷ rows) r u h = elim (Bool-cases (is_in org id s)) [
  | inl e ↦ (
    λ _. ground (arith, eq_iff s.organization_id org),
    Owns-none org id rows (ground (arith, eq_iff s.id id)),
  )
  | inr e ↦
      let later : find (is_in org id) rows ≡ some r = ground arith in
      let there : any (has_id id) rows ≡ true =
        any-find (is_in org id) (has_id id) rows r later
          (ground (arith, find-some (is_in org id) rows r later)) in
      (λ same. ground (arith, eq_iff s.id id), Owns-find org id rows r u.1 later)
]

KeepsOrganization : (Row → Row) → Type 0
KeepsOrganization f = (r : Row) → (f r).organization_id ≡ r.organization_id

foreign-update :
    (org id : String) (f : Row → Row) (rows : List Row)
    → KeepsOrganization f
    → Owns org id rows
    → foreign org (map (at_id id f) rows) ≡ foreign org rows
unfolding KeepsOrganization
foreign-update org id f [] k o = refl
foreign-update org id f (r ∷ rows) k o = elim (Bool-cases (has_id id r)) [
  | inl e ↦ rw e (
      ground (
        arith,
        k r,
        o.0 e,
        eq_iff r.organization_id org,
        eq_iff (f r).organization_id org,
        foreign-update org id f rows k o.1,
      ))
  | inr e ↦ rw e (ground (arith, foreign-update org id f rows k o.1))
]

-- the statements after an `UPDATE` change no incident, and no event of another one
KeepsRows : {A : Type 0} → String → Action A → Type 0
KeepsRows id m =
    (db : Db)
    → ((m db).1.incidents ≡ db.incidents) × (elsewhere id (m db).1.events ≡ elsewhere id db.events)

log_event-KeepsRows :
    (now : ℕ) (id event_type : String) (actor : Option String) (old new note : String)
    → KeepsRows id (log_event now id event_type actor old new note)
unfolding log_event insert_event KeepsRows
log_event-KeepsRows now id event_type actor old new note db =
    (insert_event-incidents e db, by_tests (any (has_id id) db.incidents) (db.refuses e))
  where
    e : Event
    e = new_event now id event_type actor old new note

    outcome : Bool → Bool → Reply Unit × Db
    outcome i r =
        if i
        then (if r
            then (raised event_refused, db)
            else (ok tt, record db { events = db.events ++ e ∷ [] }))
        else (raised foreign_key_violation, db)

    by_tests : (i r : Bool) → elsewhere id (outcome i r).1.events ≡ elsewhere id db.events
    by_tests true true = refl
    by_tests true false = elsewhere-append id db.events e refl
    by_tests false r = refl

Owns-update :
    (org id : String) (f : Row → Row) (rows : List Row)
    → KeepsOrganization f
    → Owns org id rows
    → Owns org id (map (at_id id f) rows)
unfolding KeepsOrganization
Owns-update org id f [] k o = tt
Owns-update org id f (r ∷ rows) k o = elim (Bool-cases (has_id id r)) [
  | inl e ↦ rw e (λ _. k r ∙ o.0 e, Owns-update org id f rows k o.1)
  | inr e ↦ rw e (λ h. o.0 h, Owns-update org id f rows k o.1)
]

moved-KeepsOrganization : (now : ℕ) (s : String) → KeepsOrganization (moved now s)
unfolding KeepsOrganization
moved-KeepsOrganization now s r = ground arith

module _ (org id : String) where
  abbrev IsKept : Db → Db → Type 0
  IsKept before after =
      ((foreign org after.incidents ≡ foreign org before.incidents)
        × (elsewhere id after.events ≡ elsewhere id before.events))
      × Owns org id after.incidents

  -- An action that leaves the other organizations' incidents alone.
  pub Keeps : {A : Type 0} → Action A → Type 0
  Keeps m = (db : Db) → Owns org id db.incidents → IsKept db (m db).1

  continue-IsKept :
      {A B : Type 0} (r : Reply A) (f : A → Action B) (before after : Db)
      → ((a : A) → Keeps (f a))
      → IsKept before after
      → IsKept before (continue r f after).1
  unfolding Keeps
  continue-IsKept (raised e) f before after k h = h
  continue-IsKept (ok a) f before after k h =
      let (same, owns) = k a after h.1 in ((same.0 ∙ h.0.0, same.1 ∙ h.0.1), owns)

  bind-Keeps :
      {A B : Type 0} (m : Action A) (f : A → Action B)
      → Keeps m
      → ((a : A) → Keeps (f a))
      → Keeps (m >>= f)
  unfolding Keeps
  bind-Keeps m f km kf db o = continue-IsKept (m db).0 f db (m db).1 kf (km db o)

  update-Keeps : (f : Row → Row) → KeepsOrganization f → Keeps (update id f)
  unfolding Keeps update
  update-Keeps f k db o = elim (Bool-cases (one_active (map (at_id id f) db.incidents))) [
    | inl e ↦
        rw e
          ((foreign-update org id f db.incidents k o, refl), Owns-update org id f db.incidents k o)
    | inr e ↦ rw e ((refl, refl), o)
  ]

  rows-Keeps : {A : Type 0} (m : Action A) → KeepsRows id m → Keeps m
  unfolding Keeps KeepsRows
  rows-Keeps m k db o =
      ((ap (foreign org) (k db).0, (k db).1), subst (Owns org id) (sym (k db).0) o)

  -- an `UPDATE` with its audit event, and no publisher
  changed-Keeps :
      (f : Row → Row) (now : ℕ) (event_type : String) (actor : Option String)
      (old new note published : String)
      → KeepsOrganization f
      → Keeps (
          update id f
          >> (log_event now id event_type actor old new note >> publish none published id))
  unfolding publish KeepsRows
  changed-Keeps f now event_type actor old new note published k =
      bind-Keeps (update id f)
        (λ _. log_event now id event_type actor old new note >> publish none published id)
        (update-Keeps f k)
        (λ _.
          bind-Keeps (log_event now id event_type actor old new note)
            (λ _. publish none published id)
            (rows-Keeps _ (log_event-KeepsRows now id event_type actor old new note))
            (λ _. rows-Keeps (publish none published id) (λ d. (refl, refl))))

  move-Keeps :
      (actor : Option String) (note : String) (now : ℕ) (s : String) (row : Option Row)
      → Keeps (move alone none actor note now id s row)
  unfolding Keeps move
  move-Keeps actor note now s none db o = ((refl, refl), o)
  move-Keeps actor note now s (some r) db o = elim (Bool-cases (is_valid_transition r.status s)) [
    | inl e ↦ rw e (
        changed-Keeps (moved now s) now "STATUS_CHANGE" actor r.status s note "STATUS_CHANGED"
          (moved-KeepsOrganization now s) db o)
    | inr e ↦ rw e ((refl, refl), o)
  ]

  pub transition-Keeps :
      (actor : Option String) (note : String) (now : ℕ) (s : String)
      → Keeps (transition alone none actor note now id s)
  unfolding transition Keeps
  transition-Keeps actor note now s db o =
      move-Keeps actor note now s (find (has_id id) db.incidents) db o

  pub assign-Keeps :
      (actor : Option String) (now : ℕ) (user_id : String)
      → Keeps (assign none actor now id user_id)
  unfolding assign Keeps KeepsOrganization
  assign-Keeps actor now user_id =
      changed-Keeps _ now "ASSIGNMENT" actor "" user_id _ "ASSIGNED" (λ r. refl)

  pub resolve-Keeps :
      (actor : Option String) (now : ℕ) (notes : String)
      → Keeps (resolve alone none actor now id notes)
  unfolding resolve KeepsOrganization
  resolve-Keeps actor now notes =
      bind-Keeps (update id _) _ (update-Keeps _ (λ r. refl))
        (λ _. transition-Keeps actor notes now "RESOLVED")

  no_content-incidents :
      (on_error : Error → Response Unit) (r : Reply Unit × Db) → (no_content on_error r).1 ≡ r.1
  no_content-incidents on_error (ok _, db) = refl
  no_content-incidents on_error (raised e, db) = refl

  -- A handler that looks the incident up in the caller's organization first.
  pub guarded_Keeps :
      (m : Action Unit) (on_error : Error → Response Unit) (db : Db)
      → Keeps m
      → UniqueIds db.incidents
      → KeepsForeign org db (if_found (get org id db) (no_content on_error (m db)) db).1
  unfolding get Keeps
  guarded_Keeps m on_error db k u = elim (Option-cases (find (is_in org id) db.incidents)) [
    | inl e ↦ rw e (refl, refl)
    | inr (r, e) ↦
        let kept = (k db (Owns-find org id db.incidents r u e)).0 in
        let here : any (is_in org id) db.incidents ≡ true =
          any-find (is_in org id) (is_in org id) db.incidents r e
            (find-some (is_in org id) db.incidents r e).0 in
        rw (e, no_content-incidents)
          (
            kept.0,
            sym (foreign-elsewhere org id db.incidents (m db).1.events here)
                ∙ (ap (foreign_events org db.incidents) kept.1
                    ∙ foreign-elsewhere org id db.incidents db.events here),
          )
  ]
