-- ===== src/Incidents/Store/OneActive.antt =====
-- `open_or_attach` of shared/incidents.py and the unique index of active incidents.
use indu_sense.Base.{
  ℕ, String, ◌≡◌, refl, sym, ap, subst, ◌∙◌, Bool, true, false, ◌&&◌, ◌||◌, not, Option, none, some,
  List, [], ◌∷◌, ◌++◌, ◌==◌, arith, eq_iff, any, find, any-find, find-some, any-append, Bool-cases,
  Option-cases, inl, inr,
}
use indu_sense.Incidents.{AlertRef, Row, Event}
use indu_sense.Incidents.Tables.{
  Db, Reply, Action, continue, ◌>>◌, pure, meanwhile, ok, raised, is_active, active_on, conflicts,
  one_active, null_if_empty, Publisher, publish, insert_event, new_row,
}
use indu_sense.Incidents.Store.{
  Others, Gap, after_select, before_insert, after_conflict, after_insert, before_publish,
  attach_machine, open_or_attach,
}
use indu_sense.Incidents.Store.Transition.{publish_keeps}
use indu_sense.Incidents.Store.Attach.{
  is_incident_of, self_id, attached_event, opened_event, append_row, by_machine,
  open_or_attach-machine, open_or_attach-empty, insert_event-incidents, announce_new, attach-found,
  attach-inserted, attach-lost, attach-unresolved, found, inserts, lost, unresolved, branch,
}

conflicts-append :
    (m : Option String) (rows : List Row) (r : Row)
    → conflicts m (rows ++ r ∷ []) ≡ (conflicts m rows || conflicts m (r ∷ []))
conflicts-append none rows r = refl
conflicts-append (some m) rows r = any-append (active_on m) rows (r ∷ [])

-- two rows of one machine conflict both ways
conflict_sym :
    (x r : Row)
    → is_active x.status && conflicts x.machine_id (r ∷ []) ≡ true
    → conflicts r.machine_id (x ∷ []) ≡ true
conflict_sym x r h = elim (Option-cases x.machine_id) [
  | inl n ↦ ground arith
  | inr (v, e) ↦ elim (Option-cases r.machine_id) [
    | inl n ↦ ground (arith, e, n)
    | inr (w, k) ↦ ground (arith, e, k, eq_iff v w, eq_iff w v)
  ]
]

conflicts-cons :
    (m : Option String) (x : Row) (rows : List Row)
    → conflicts m (x ∷ rows) ≡ (conflicts m (x ∷ []) || conflicts m rows)
conflicts-cons none x rows = refl
conflicts-cons (some v) x rows = ground arith

and_right : (a b : Bool) → a && b ≡ true → b ≡ true
and_right a b h = ground arith

c_split : {c a b : Bool} → c ≡ (a || b) → c ≡ false → (a ≡ false) × (b ≡ false)
c_split e h = ground arith

no_conflict :
    (x r : Row)
    → conflicts r.machine_id (x ∷ []) ≡ false
    → is_active x.status && conflicts x.machine_id (r ∷ []) ≡ false
no_conflict x r h = elim (Bool-cases (is_active x.status && conflicts x.machine_id (r ∷ []))) [
  | inl y ↦ cc (conflict_sym x r y)
  | inr n ↦ n
]

-- the test of the index at a row, when a row that does not conflict with it is appended
keep_test :
    (active clash clash_new rest rest' : Bool)
    → not (active && clash) && rest ≡ true
    → active && clash_new ≡ false
    → rest' ≡ true
    → not (active && (clash || clash_new)) && rest' ≡ true
keep_test active clash clash_new rest rest' h n k = ground arith

-- A row that the index does not hold against its machine can be appended.
one_active-append :
    (rows : List Row) (r : Row)
    → conflicts r.machine_id rows ≡ false
    → one_active rows ≡ true
    → one_active (rows ++ r ∷ []) ≡ true
one_active-append [] r c h = ground arith
one_active-append (x ∷ rows) r c h =
    let c' = c_split (conflicts-cons r.machine_id x rows) c in
    let apart = no_conflict x r c'.0 in
    rw (conflicts-append x.machine_id rows r) (
      keep_test (is_active x.status) (conflicts x.machine_id rows) (conflicts x.machine_id (r ∷ []))
        (one_active rows) (one_active (rows ++ r ∷ [])) h apart
        (one_active-append rows r c'.1 (and_right _ _ h)))

or_right : (a : Bool) → a || (true || false) ≡ true
or_right a = ground arith

-- what other connections commit keeps at most one active incident on each machine
abbrev pub KeepsOneActive : Others → Type 0
KeepsOneActive others =
    (gap : Gap) (d : Db)
    → one_active d.incidents ≡ true
    → one_active (others gap d).incidents ≡ true

-- A further action whose every reply keeps it keeps what the first has kept.
continue_keeps :
    {A B : Type 0} (P : Db → Type 0) (r : Reply A × Db) (f : A → Action B)
    → P r.1
    → ((a : A) (d : Db) → P d → P (f a d).1)
    → P (continue r.0 f r.1).1
continue_keeps P (ok a, db) f h k = k a db h
continue_keeps P (raised e, db) f h k = h

module _ (others : Others) (p : Publisher) (new_id : String) (now : ℕ) (alert : AlertRef)
    (db : Db) where
  abbrev HasOneActive : Db → Type 0
  HasOneActive d = one_active d.incidents ≡ true

  insert_event-one_active :
      (e : Event) (d : Db) → HasOneActive d → HasOneActive (insert_event e d).1
  insert_event-one_active e d h = ap one_active (insert_event-incidents e d) ∙ h

  announce_new-one_active :
      KeepsOneActive others
      → (d : Db) → HasOneActive d
      → HasOneActive (announce_new others p new_id now alert db d).1
  announce_new-one_active k d h =
      continue_keeps HasOneActive (insert_event (opened_event now alert new_id) d)
        (λ _.
          meanwhile (others before_publish) >> (publish p "CREATED" new_id >> pure (new_id, true)))
        (insert_event-one_active _ d h)
        (λ _ d2 h2.
          continue_keeps HasOneActive (publish p "CREATED" new_id (others before_publish d2))
            (λ _. pure (new_id, true))
            (ap one_active (publish_keeps p "CREATED" new_id (others before_publish d2)).1
              ∙ k before_publish d2 h2)
            (λ _ d3 h3. h3))

  attach_machine-one_active :
      KeepsOneActive others
      → HasOneActive db
      → HasOneActive (attach_machine others p new_id now alert db).1
  attach_machine-one_active k h = elim (branch others p new_id now alert db) [
    | found r f ↦ rw (attach-found others p new_id now alert db r f) (
        continue_keeps HasOneActive
          (insert_event (attached_event now alert r.id) (others after_select db))
          (λ _. pure (r.id, false))
          (insert_event-one_active _ (others after_select db) (k after_select db h)) (λ _ d i. i))
    | inserts f c ↦ rw (attach-inserted others p new_id now alert db f c) (
        announce_new-one_active k _ (
          k after_insert _
            (one_active-append _ (new_row new_id now alert) c (k before_insert db h))))
    | lost r f c g ↦
        rw (attach-lost others p new_id now alert db r f c g)
          (k after_conflict _ (k before_insert db h))
    | unresolved f c g ↦
        rw (attach-unresolved others p new_id now alert db f c g)
          (k after_conflict _ (k before_insert db h))
  ]

  -- If what other connections commit in between keeps at most one active incident on each machine,
  -- so does open_or_attach.
  pub open_or_attach-one_active :
      KeepsOneActive others
      → one_active db.incidents ≡ true
      → one_active (open_or_attach others p new_id now alert db).1.incidents ≡ true
  open_or_attach-one_active k h =
      by_machine (λ r. HasOneActive r.1) others p new_id now alert db h
        (attach_machine-one_active k h)

  found_incident :
      (rows : List Row) (r : Row)
      → find (active_on alert.machine_id) rows ≡ some r
      → any (is_incident_of alert.machine_id r.id) rows ≡ true
  found_incident rows r f =
      any-find (active_on alert.machine_id) (is_incident_of alert.machine_id r.id) rows r f
        (rw (self_id r, (find-some (active_on alert.machine_id) rows r f).0) refl)

  pub active-new_row :
      alert.machine_id == "" ≡ false → active_on alert.machine_id (new_row new_id now alert) ≡ true
  active-new_row h = rw (h, (eq_iff alert.machine_id alert.machine_id).1 refl) refl

  -- The reply's incident was active on the machine in the table of the first `SELECT`, in that which
  -- the `INSERT` left, or in that of the second `SELECT`.
  pub data WasActive (id : String) : Bool → Type 0 where
    at_select : any (is_incident_of alert.machine_id id) db.incidents ≡ true → WasActive id false
    at_insert :
        any
            (is_incident_of alert.machine_id id)
            (append_row (others before_insert db) (new_row new_id now alert)).incidents
          ≡ true
        → conflicts (null_if_empty alert.machine_id) (others before_insert db).incidents ≡ false
        → WasActive id true
    at_second_select :
        any
            (is_incident_of alert.machine_id id)
            (others after_conflict (others before_insert db)).incidents
          ≡ true
        → WasActive id false

  -- the id that a reply carries, if any
  abbrev Answers : Reply (String × Bool) → Type 0
  Answers (ok (id, created)) = WasActive id created
  Answers (raised e) = Unit

  continue-Answers :
      {A : Type 0} (r : Reply A × Db) (f : A → Action (String × Bool))
      → ((a : A) (d : Db) → Answers (f a d).0)
      → Answers (continue r.0 f r.1).0
  continue-Answers (ok a, d) f k = k a d
  continue-Answers (raised e, d) f k = tt

  attach_machine-Answers :
      alert.machine_id == "" ≡ false → Answers (attach_machine others p new_id now alert db).0
  attach_machine-Answers m = elim (branch others p new_id now alert db) [
    | found r f ↦ rw (attach-found others p new_id now alert db r f) (
        continue-Answers (insert_event (attached_event now alert r.id) (others after_select db))
          (λ _. pure (r.id, false)) (λ _ d. at_select (found_incident db.incidents r f)))
    | inserts f c ↦ rw (attach-inserted others p new_id now alert db f c) (
        continue-Answers (insert_event (opened_event now alert new_id) _)
          (λ _.
            meanwhile (others before_publish)
            >> (publish p "CREATED" new_id >> pure (new_id, true)))
          (λ _ d.
            continue-Answers (publish p "CREATED" new_id (others before_publish d))
              (λ _. pure (new_id, true)) (λ _ d'. at_insert (row_is_active m) c)))
    | lost r f c g ↦
        rw (attach-lost others p new_id now alert db r f c g)
          (at_second_select (found_incident _ r g))
    | unresolved f c g ↦ rw (attach-unresolved others p new_id now alert db f c g) tt
  ]
    where
      row_is_active :
          alert.machine_id == "" ≡ false
          → any
              (is_incident_of alert.machine_id new_id)
              (append_row (others before_insert db) (new_row new_id now alert)).incidents
            ≡ true
      row_is_active m =
          rw
            (
              any-append (is_incident_of alert.machine_id new_id)
                  (others before_insert db).incidents (new_row new_id now alert ∷ []),
              self_id (new_row new_id now alert),
              active-new_row m,
            )
            (or_right
              (any (is_incident_of alert.machine_id new_id) (others before_insert db).incidents))

  -- Whatever other connections commit between its statements: when open_or_attach returns an id,
  -- then that incident was active on the alert's machine in the table in which the first SELECT
  -- found it, in that which the INSERT left, or in that in which the second SELECT found it; it
  -- was inserted exactly if the reply says so. Another connection may have moved it since.
  pub open_or_attach-active :
      {id : String} {created : Bool}
      → (open_or_attach others p new_id now alert db).0 ≡ ok (id, created)
      → WasActive id created
  open_or_attach-active {id} {created} h = subst Answers h answers
    where
      answers : Answers (open_or_attach others p new_id now alert db).0
      answers = elim (Bool-cases (alert.machine_id == "")) [
        | inl e ↦
            subst (λ r. Answers r.0) (sym (open_or_attach-empty others p new_id now alert db e)) tt
        | inr e ↦
            subst (λ r. Answers r.0) (sym (open_or_attach-machine others p new_id now alert db e))
              (attach_machine-Answers e)
      ]
