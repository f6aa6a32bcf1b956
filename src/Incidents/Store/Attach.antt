-- ===== src/Incidents/Store/Attach.antt =====
-- The branches of `open_or_attach` of shared/incidents.py.
use indu_sense.Base.{
  ℕ, String, ◌≡◌, refl, ap, ◌∙◌, Bool, true, false, ◌&&◌, none, some, [], ◌∷◌, ◌++◌, eq_iff, any,
  find, ◌==◌, if◌then◌else◌, Bool-cases, Option-cases, inl, inr,
}
use indu_sense.Incidents.{AlertRef, Row, Event}
use indu_sense.Incidents.Tables.{
  Db, Reply, Action, ◌>>◌, pure, meanwhile, ok, raised, race_unresolved, event_refused,
  foreign_key_violation, invalid_uuid, null_if_empty, active_on, conflicts, Publisher, publish,
  new_event, insert_event, log_event, has_id, insert_incident, new_row, attached_note, opened_note,
}
use indu_sense.Incidents.Store.{
  Others, after_select, before_insert, after_conflict, after_insert, before_publish, attach_machine,
  open_or_attach,
}

-- the row that an incident is found by, as a test
abbrev pub is_incident_of : String → String → Row → Bool
is_incident_of machine_id id r = has_id id r && active_on machine_id r

pub self_id : (r : Row) → has_id r.id r ≡ true
self_id r = (eq_iff r.id r.id).1 refl

abbrev pub append_event : Db → Event → Db
append_event db e = record db { events = db.events ++ e ∷ [] }

abbrev pub append_row : Db → Row → Db
append_row db r = record db { incidents = db.incidents ++ r ∷ [] }

-- What holds if the machine's id is refused, and if it is looked up, holds of `open_or_attach`.
pub by_machine :
    (P : Reply (String × Bool) × Db → Type 0) (others : Others) (p : Publisher) (new_id : String)
    (now : ℕ) (alert : AlertRef) (db : Db)
    → P (raised invalid_uuid, db)
    → P (attach_machine others p new_id now alert db)
    → P (open_or_attach others p new_id now alert db)
unfolding open_or_attach
by_machine P others p new_id now alert db bad good = by_test (alert.machine_id == "")
  where
    by_test :
        (b : Bool)
        → P (if b then (raised invalid_uuid, db) else attach_machine others p new_id now alert db)
    by_test true = bad
    by_test false = good

pub open_or_attach-machine :
    (others : Others) (p : Publisher) (new_id : String) (now : ℕ) (alert : AlertRef) (db : Db)
    → alert.machine_id == "" ≡ false
    → open_or_attach others p new_id now alert db ≡ attach_machine others p new_id now alert db
unfolding open_or_attach
open_or_attach-machine others p new_id now alert db m =
    ap (λ b. if b then (raised invalid_uuid, db) else attach_machine others p new_id now alert db) m

pub open_or_attach-empty :
    (others : Others) (p : Publisher) (new_id : String) (now : ℕ) (alert : AlertRef) (db : Db)
    → alert.machine_id == "" ≡ true
    → open_or_attach others p new_id now alert db ≡ (raised invalid_uuid, db)
unfolding open_or_attach
open_or_attach-empty others p new_id now alert db m =
    ap (λ b. if b then (raised invalid_uuid, db) else attach_machine others p new_id now alert db) m

-- the two audit events of `open_or_attach`
abbrev pub attached_event : ℕ → AlertRef → String → Event
attached_event now alert id = new_event now id "ALERT_ATTACHED" none "" "" (attached_note alert)

abbrev pub opened_event : ℕ → AlertRef → String → Event
opened_event now alert id = new_event now id "STATUS_CHANGE" none "" "OPEN" (opened_note alert)

pub insert_event-ok :
    (e : Event) (db : Db)
    → any (has_id e.incident_id) db.incidents ≡ true
    → db.refuses e ≡ false
    → insert_event e db ≡ (ok tt, append_event db e)
unfolding insert_event
insert_event-ok e db i r =
    ap
      (λ b.
        if b
        then (if db.refuses e then (raised event_refused, db) else (ok tt, append_event db e))
        else (raised foreign_key_violation, db))
      i
    ∙ ap (λ b. if b then (raised event_refused, db) else (ok tt, append_event db e)) r

pub insert_event-refused :
    (e : Event) (db : Db)
    → any (has_id e.incident_id) db.incidents ≡ true
    → db.refuses e ≡ true
    → insert_event e db ≡ (raised event_refused, db)
unfolding insert_event
insert_event-refused e db i r =
    ap
      (λ b.
        if b
        then (if db.refuses e then (raised event_refused, db) else (ok tt, append_event db e))
        else (raised foreign_key_violation, db))
      i
    ∙ ap (λ b. if b then (raised event_refused, db) else (ok tt, append_event db e)) r

-- An event changes no incident, whether it is inserted or refused.
pub insert_event-incidents : (e : Event) (db : Db) → (insert_event e db).1.incidents ≡ db.incidents
unfolding insert_event
insert_event-incidents e db = by_tests (any (has_id e.incident_id) db.incidents) (db.refuses e)
  where
    outcome : Bool → Bool → Reply Unit × Db
    outcome i r =
        if i
        then (if r then (raised event_refused, db) else (ok tt, append_event db e))
        else (raised foreign_key_violation, db)

    by_tests : (i r : Bool) → (outcome i r).1.incidents ≡ db.incidents
    by_tests true true = refl
    by_tests true false = refl
    by_tests false r = refl

module _ (others : Others) (p : Publisher) (new_id : String) (now : ℕ) (alert : AlertRef)
    (db : Db) where
  abbrev pub db1 : Db
  db1 = others before_insert db

  -- the statements after a row that was found
  abbrev pub attach_to : String → Action (String × Bool)
  attach_to id = insert_event (attached_event now alert id) >> pure (id, false)

  -- the statements after the `INSERT`
  abbrev pub announce_new : Action (String × Bool)
  announce_new =
      insert_event (opened_event now alert new_id)
      >> (meanwhile (others before_publish) >> (publish p "CREATED" new_id >> pure (new_id, true)))

  -- what `attach_machine` does, branch by branch
  pub attach-found :
      (r : Row)
      → find (active_on alert.machine_id) db.incidents ≡ some r
      → attach_machine others p new_id now alert db ≡ attach_to r.id (others after_select db)
  unfolding attach_machine log_event
  attach-found r f = rw f refl

  pub attach-inserted :
      find (active_on alert.machine_id) db.incidents ≡ none
      → conflicts (null_if_empty alert.machine_id) db1.incidents ≡ false
      → attach_machine others p new_id now alert db
        ≡ announce_new (others after_insert (append_row db1 (new_row new_id now alert)))
  unfolding attach_machine insert_incident log_event
  attach-inserted f c = rw f (rw c refl)

  pub attach-lost :
      (r : Row)
      → find (active_on alert.machine_id) db.incidents ≡ none
      → conflicts (null_if_empty alert.machine_id) db1.incidents ≡ true
      → find (active_on alert.machine_id) (others after_conflict db1).incidents ≡ some r
      → attach_machine others p new_id now alert db ≡ (ok (r.id, false), others after_conflict db1)
  unfolding attach_machine insert_incident
  attach-lost r f c g = rw f (rw c (rw g refl))

  pub attach-unresolved :
      find (active_on alert.machine_id) db.incidents ≡ none
      → conflicts (null_if_empty alert.machine_id) db1.incidents ≡ true
      → find (active_on alert.machine_id) (others after_conflict db1).incidents ≡ none
      → attach_machine others p new_id now alert db
        ≡ (raised race_unresolved, others after_conflict db1)
  unfolding attach_machine insert_incident
  attach-unresolved f c g = rw f (rw c (rw g refl))

  pub data Branch : Type 0 where
    found : (r : Row) → find (active_on alert.machine_id) db.incidents ≡ some r → Branch
    inserts :
        find (active_on alert.machine_id) db.incidents ≡ none
        → conflicts (null_if_empty alert.machine_id) db1.incidents ≡ false
        → Branch
    lost :
        (r : Row)
        → find (active_on alert.machine_id) db.incidents ≡ none
        → conflicts (null_if_empty alert.machine_id) db1.incidents ≡ true
        → find (active_on alert.machine_id) (others after_conflict db1).incidents ≡ some r
        → Branch
    unresolved :
        find (active_on alert.machine_id) db.incidents ≡ none
        → conflicts (null_if_empty alert.machine_id) db1.incidents ≡ true
        → find (active_on alert.machine_id) (others after_conflict db1).incidents ≡ none
        → Branch

  pub branch : Branch
  branch = elim (Option-cases (find (active_on alert.machine_id) db.incidents)) [
    | inr (r, f) ↦ found r f
    | inl f ↦ elim (Bool-cases (conflicts (null_if_empty alert.machine_id) db1.incidents)) [
      | inr c ↦ inserts f c
      | inl c ↦
          elim (Option-cases
            (find (active_on alert.machine_id) (others after_conflict db1).incidents)) [
              | inr (r, g) ↦ lost r f c g
              | inl g ↦ unresolved f c g
            ]
    ]
  ]
