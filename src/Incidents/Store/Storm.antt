-- ===== src/Incidents/Store/Storm.antt =====
-- `open_or_attach` of shared/incidents.py under repeated alerts of one machine, with no other
-- connection at work.
use indu_sense.Base.{
  ℕ, String, ◌≡◌, refl, ap, ◌∙◌, Bool, true, false, none, some, List, [], ◌∷◌, ◌++◌, ◌==◌, arith,
  find, find-append_new, find-none, All, Bool-cases, Option-cases, inl, inr, ◌⊎◌, map, any,
  any-find, any-append, ◌||◌, sym, append-nil, append_assoc,
}
use indu_sense.Incidents.{AlertRef, Row, Event}
use indu_sense.Incidents.Tables.{
  Db, Reply, ok, null_if_empty, active_on, conflicts, Publisher, publish, new_row, has_id,
}
use indu_sense.Incidents.Store.{Others, open_or_attach}
use indu_sense.Incidents.Store.Transition.{publish_keeps}
use indu_sense.Incidents.Store.Attach.{
  append_event, append_row, attached_event, opened_event, self_id, open_or_attach-machine,
  insert_event-ok, attach-found, attach-inserted,
}
use indu_sense.Incidents.Store.OneActive.{active-new_row}

abbrev pub undisturbed : Others
undisturbed gap db = db

-- one call for each alert, with the id that the database would generate for it
abbrev pub attach_all :
    Publisher → ℕ → List (String × AlertRef) → Db → List (Reply (String × Bool)) × Db
attach_all p now [] db = ([], db)
attach_all p now ((new_id, alert) ∷ rest) db =
    let r = open_or_attach undisturbed p new_id now alert db in
    let s = attach_all p now rest r.1 in (r.0 ∷ s.0, s.1)

abbrev pub OfMachine : String → List (String × AlertRef) → Type 0
OfMachine m alerts = All (λ a. a.1.machine_id ≡ m) alerts

-- the audit events of alerts attached to an incident
abbrev pub attachments : ℕ → String → List (String × AlertRef) → List Event
attachments now id alerts = map (λ a. attached_event now a.1 id) alerts

pub no_conflict-alone :
    (m : String) (rows : List Row)
    → find (active_on m) rows ≡ none
    → conflicts (null_if_empty m) rows ≡ false
no_conflict-alone m rows f = elim (Bool-cases (m == "")) [
  | inl e ↦ rw e refl
  | inr e ↦ rw e (find-none (active_on m) rows f)
]

-- The audit table takes every event.
abbrev pub RefusesNone : Db → Type 0
RefusesNone db = (e : Event) → db.refuses e ≡ false

or_true : (a : Bool) {b : Bool} → b ≡ true → (a || (b || false)) ≡ true
or_true a h = ground arith

publish-refuses :
    (p : Publisher) (event_type id : String) (db : Db)
    → (publish p event_type id db).1.refuses ≡ db.refuses
unfolding publish
publish-refuses none event_type id db = refl
publish-refuses (some accepts) event_type id db = ground arith

module _ (p : Publisher) (now : ℕ) where
  abbrev opened : String → AlertRef → Db → Db
  opened new_id alert db =
      append_event (append_row db (new_row new_id now alert)) (opened_event now alert new_id)

  -- an alert of a machine that has an active incident
  attaches :
      (new_id : String) (alert : AlertRef) (db : Db) (r : Row)
      → alert.machine_id == "" ≡ false
      → RefusesNone db
      → find (active_on alert.machine_id) db.incidents ≡ some r
      → open_or_attach undisturbed p new_id now alert db
        ≡ (ok (r.id, false), append_event db (attached_event now alert r.id))
  attaches new_id alert db r n q f =
      let e = attached_event now alert r.id in
      let there =
        any-find (active_on alert.machine_id) (has_id r.id) db.incidents r f (self_id r) in
      open_or_attach-machine undisturbed p new_id now alert db n
      ∙ (attach-found undisturbed p new_id now alert db r f
          ∙ (rw (insert_event-ok e db there (q e)) refl))

  -- an alert of a machine that has none
  opens :
      (new_id : String) (alert : AlertRef) (db : Db)
      → alert.machine_id == "" ≡ false
      → RefusesNone db
      → find (active_on alert.machine_id) db.incidents ≡ none
      → open_or_attach undisturbed p new_id now alert db
        ≡ (ok (new_id, true), (publish p "CREATED" new_id (opened new_id alert db)).1)
  opens new_id alert db n q f =
      let e = opened_event now alert new_id in
      let row = new_row new_id now alert in
      let there =
        any-append (has_id new_id) db.incidents (row ∷ [])
        ∙ or_true (any (has_id new_id) db.incidents) (self_id row) in
      open_or_attach-machine undisturbed p new_id now alert db n
      ∙ (attach-inserted undisturbed p new_id now alert db f
            (no_conflict-alone alert.machine_id db.incidents f)
          ∙ rw (insert_event-ok e (append_row db row) there (q e))
              (rw ((publish_keeps p "CREATED" new_id (opened new_id alert db)).0) refl))

  -- With no other connection at work, an audit table that refuses nothing and a machine's id,
  -- open_or_attach does not raise: it returns the id of the machine's active incident, or, if there
  -- is none, the new id as that of an incident that it has opened.
  pub open_or_attach_alone :
      (new_id : String) (alert : AlertRef) (db : Db)
      → alert.machine_id == "" ≡ false
      → RefusesNone db
      → ((r : Row) × (find (active_on alert.machine_id) db.incidents ≡ some r)
          × ((open_or_attach undisturbed p new_id now alert db).0 ≡ ok (r.id, false)))
        ⊎ ((find (active_on alert.machine_id) db.incidents ≡ none)
            × ((open_or_attach undisturbed p new_id now alert db).0 ≡ ok (new_id, true)))
  open_or_attach_alone new_id alert db n q =
      elim (Option-cases (find (active_on alert.machine_id) db.incidents)) [
        | inr (r, f) ↦ inl (r, f, ap (λ x. x.0) (attaches new_id alert db r n q f))
        | inl f ↦ inr (f, ap (λ x. x.0) (opens new_id alert db n q f))
      ]

  -- Once the machine has an active incident, each alert of the machine is attached to it: the
  -- incidents stay as they are, and each alert adds its audit event.
  pub attach_all-attached :
      (m : String) (alerts : List (String × AlertRef)) (db : Db) (r : Row)
      → m == "" ≡ false
      → RefusesNone db
      → OfMachine m alerts
      → find (active_on m) db.incidents ≡ some r
      → let s = attach_all p now alerts db in
        All (λ a. a ≡ ok (r.id, false)) s.0
        × (s.1.incidents ≡ db.incidents)
        × (s.1.events ≡ db.events ++ attachments now r.id alerts)
  attach_all-attached m [] db r n q o f = (tt, refl, sym (append-nil db.events))
  attach_all-attached m ((new_id, alert) ∷ rest) db r n q o f =
      let e = attaches new_id alert db r (rw o.0 n) q (rw o.0 f) in
      let s =
        attach_all-attached m rest (append_event db (attached_event now alert r.id)) r n q o.1 f in
      rw e (
        (refl, s.0),
        s.1,
        s.2
            ∙ append_assoc db.events (attached_event now alert r.id ∷ [])
                (attachments now r.id rest),
      )

  -- With no other connection at work, and an audit table that refuses nothing: if a machine, whose
  -- id is not empty, has no active incident, then any number of alerts of that machine, at least
  -- one, add exactly one row, and each adds one audit event: the first call opens the incident and
  -- logs that, every other call returns the same incident and logs that its alert was attached to
  -- it.
  pub attach_all-opens_one :
      (m new_id : String) (alert : AlertRef) (rest : List (String × AlertRef)) (db : Db)
      → m == "" ≡ false
      → RefusesNone db
      → find (active_on m) db.incidents ≡ none
      → OfMachine m ((new_id, alert) ∷ rest)
      → let s = attach_all p now ((new_id, alert) ∷ rest) db in
        (s.1.incidents ≡ db.incidents ++ new_row new_id now alert ∷ [])
        × (s.1.events ≡ db.events ++ opened_event now alert new_id ∷ attachments now new_id rest)
        × ((replies : List (Reply (String × Bool))) × (s.0 ≡ ok (new_id, true) ∷ replies)
            × All (λ a. a ≡ ok (new_id, false)) replies)
  attach_all-opens_one m new_id alert rest db n q f o =
      let f' = find-none (active_on alert.machine_id) db.incidents (rw o.0 f) in
      let n' : alert.machine_id == "" ≡ false = rw o.0 n in
      let e = opens new_id alert db n' q (rw o.0 f) in
      let db2 = opened new_id alert db in
      let k = publish_keeps p "CREATED" new_id db2 in
      let d = (open_or_attach undisturbed p new_id now alert db).1 in
      let rows : d.incidents ≡ db.incidents ++ new_row new_id now alert ∷ [] = rw e k.1 in
      let events : d.events ≡ db.events ++ opened_event now alert new_id ∷ [] = rw e k.2 in
      let quiet : RefusesNone d =
        λ x. rw e (ap (λ h. h x) (publish-refuses p "CREATED" new_id db2) ∙ q x) in
      let there =
        find-append_new (active_on alert.machine_id) db.incidents (new_row new_id now alert) f'
          (active-new_row undisturbed p new_id now alert db n') in
      let s =
        attach_all-attached m rest d (new_row new_id now alert) n quiet o.1
          (rw (← o.0, rows) there) in
      (
        s.1 ∙ rows,
        s.2
            ∙ (ap (λ x. x ++ attachments now new_id rest) events
                ∙ append_assoc db.events (opened_event now alert new_id ∷ [])
                    (attachments now new_id rest)),
        (
          (attach_all p now rest d).0,
          ap (λ x. x ∷ (attach_all p now rest d).0) (ap (λ x. x.0) e),
          s.0,
        ),
      )
