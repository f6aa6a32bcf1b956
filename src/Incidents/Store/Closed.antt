-- ===== src/Incidents/Store/Closed.antt =====
-- What becomes of a closed incident in shared/incidents.py.
use indu_sense.Base.{
  concat, Bool, ℕ, String, ◌≡◌, refl, ap, ◌∙◌, sym, true, false, Option, none, some, List, [], ◌∷◌,
  ◌++◌, map, arith, any, find, find-append, Bool-cases, Option-cases, inl, inr,
}
use indu_sense.Incidents.{AlertRef, Row, Event, is_valid_transition}
use indu_sense.Incidents.Tables.{
  Db, Reply, ok, raised, active_on, has_id, Publisher, publish, new_row, one_active, new_event,
  insert_event, log_event, Action, continue,
}
use indu_sense.Incidents.Store.{open_or_attach, transition, assign, resolve, at_id, update}
use indu_sense.Incidents.Store.Find.{row_of, status, status_of, find-update, map_row}
use indu_sense.Incidents.Store.Races.{noted, publish-incidents}
use indu_sense.Incidents.Store.Storm.{undisturbed, no_conflict-alone}
use indu_sense.Incidents.Store.Attach.{
  by_machine, attached_event, opened_event, attach_to, announce_new, append_row, attach-found,
  attach-inserted, insert_event-incidents,
}
use indu_sense.Incidents.Store.Transition.{alone, transition-ok, transition-raised}

-- A request of a caller, with what the database generates for it.
pub data Request : Type 0 where
  alerts : String → AlertRef → Request
  moves : Option String → String → String → String → Request
  assigns : Option String → String → String → Request
  resolves : Option String → String → String → Request

-- Requests one after the other; one that raises leaves what it has written.
abbrev pub serve : Publisher → ℕ → Request → Db → Db
serve p now (alerts new_id alert) db = (open_or_attach undisturbed p new_id now alert db).1
serve p now (moves actor note id s) db = (transition alone p actor note now id s db).1
serve p now (assigns actor id user_id) db = (assign p actor now id user_id db).1
serve p now (resolves actor id notes) db = (resolve alone p actor now id notes db).1

abbrev pub serve_all : Publisher → List (ℕ × Request) → Db → Db
serve_all p [] db = db
serve_all p ((now, q) ∷ rest) db = serve_all p rest (serve p now q db)

closed_has_no_move : (s : String) → is_valid_transition "CLOSED" s ≡ false
unfolding is_valid_transition
closed_has_no_move s = refl

some_text : {a b : String} → some a ≡ some b → a ≡ b
some_text h = cc

closed_cannot_move : (old s : String) → "CLOSED" ≡ old → is_valid_transition old s ≡ true → ⊥
closed_cannot_move old s e v = cc (closed_has_no_move s, rw (← e) at v)

abbrev Closed : String → Db → Type 0
Closed id db = status_of id db ≡ some "CLOSED"

-- an `UPDATE` that leaves ids and statuses
update-status_of :
    (j id : String) (f : Row → Row) (db : Db)
    → ((r : Row) → (f r).id ≡ r.id)
    → ((r : Row) → (f r).status ≡ r.status)
    → status_of id (update j f db).1 ≡ status_of id db
unfolding update
update-status_of j id f db k t = elim (Bool-cases (one_active (map (at_id j f) db.incidents))) [
  | inr c ↦ rw c refl
  | inl c ↦ rw (c, find-update j id f db.incidents k) (same_status (row_of id db))
]
  where
    same_row : (r : Row) → (at_id j f r).status ≡ r.status
    same_row r = ground (arith, t r)

    same_status : (x : Option Row) → status (map_row (at_id j f) x) ≡ status x
    same_status none = refl
    same_status (some r) = ap some (same_row r)

abbrev assigned : ℕ → String → Row → Row
assigned now user_id r = record r { assigned_to = some user_id; updated_at = now }

abbrev assigned_event : Option String → ℕ → String → String → Event
assigned_event actor now j user_id =
    new_event now j "ASSIGNMENT" actor "" user_id
      (concat ("assigned to technician " ∷ user_id ∷ []))

assign-incidents :
    (p : Publisher) (actor : Option String) (now : ℕ) (j user_id : String) (db : Db)
    → (assign p actor now j user_id db).1.incidents
      ≡ (update j (assigned now user_id) db).1.incidents
unfolding assign log_event insert_event
assign-incidents p actor now j user_id db =
    elim (Bool-cases (one_active (map (at_id j (assigned now user_id)) db.incidents))) [
      | inr c ↦ rw c refl
      | inl c ↦
          elim (Bool-cases (any (has_id j) (map (at_id j (assigned now user_id)) db.incidents))) [
            | inl a ↦ elim (Bool-cases (db.refuses (assigned_event actor now j user_id))) [
              | inl q ↦ rw c (rw a (rw q refl))
              | inr q ↦ rw c (rw a (rw q (publish-incidents p "ASSIGNED" j _)))
            ]
            | inr a ↦ rw c (rw a refl)
          ]
    ]

resolve-stopped :
    (p : Publisher) (actor : Option String) (now : ℕ) (j notes : String) (db : Db)
    → one_active (map (at_id j (noted notes)) db.incidents) ≡ false
    → (resolve alone p actor now j notes db).1 ≡ db
unfolding resolve
resolve-stopped p actor now j notes db k = rw k refl

resolve-transition :
    (p : Publisher) (actor : Option String) (now : ℕ) (j notes : String) (db : Db)
    → one_active (map (at_id j (noted notes)) db.incidents) ≡ true
    → resolve alone p actor now j notes db
      ≡ transition alone p actor notes now j "RESOLVED" (update j (noted notes) db).1
unfolding resolve update
resolve-transition p actor now j notes db k = rw k refl

status_of-append :
    (id : String) (rows : List Row) (r : Row) (db db' : Db)
    → db.incidents ≡ rows
    → db'.incidents ≡ rows ++ r ∷ []
    → Closed id db
    → Closed id db'
status_of-append id rows r db db' e e' c = elim (Option-cases (row_of id db)) [
  | inl f ↦ cc (ap status f)
  | inr (x, f) ↦ rw (e', find-append (has_id id) rows (r ∷ []) x (rw (← e) f)) (rw f at c)
]

attach_to-incidents :
    (p : Publisher) (new_id : String) (now : ℕ) (alert : AlertRef) (db : Db) (id : String)
    → (attach_to undisturbed p new_id now alert db id db).1.incidents ≡ db.incidents
attach_to-incidents p new_id now alert db id =
    let e = attached_event now alert id in
    after (insert_event e db).0 (insert_event e db).1 ∙ insert_event-incidents e db
  where
    after :
        (x : Reply Unit) (d : Db)
        → (continue {A = Unit} {B = String × Bool} x (λ _ d'. (ok (id, false), d')) d).1.incidents
          ≡ d.incidents
    after (ok u) d = refl
    after (raised e) d = refl

announce_new-incidents :
    (p : Publisher) (new_id : String) (now : ℕ) (alert : AlertRef) (db d : Db)
    → (announce_new undisturbed p new_id now alert db d).1.incidents ≡ d.incidents
announce_new-incidents p new_id now alert db d =
    let e = opened_event now alert new_id in
    after (insert_event e d).0 (insert_event e d).1 ∙ insert_event-incidents e d
  where
    published :
        (x : Reply Unit) (d' : Db)
        → (continue {A = Unit} {B = String × Bool} x
            (λ _ d''. (ok (new_id, true), d''))
            d').1.incidents
          ≡ d'.incidents
    published (ok u) d' = refl
    published (raised e) d' = refl

    rest : Action (String × Bool)
    rest d' =
        let r = publish p "CREATED" new_id d' in
        continue r.0 (λ _ d''. (ok (new_id, true), d'')) r.1

    after : (x : Reply Unit) (d' : Db) → (continue x (λ _. rest) d').1.incidents ≡ d'.incidents
    after (ok u) d' =
        published (publish p "CREATED" new_id d').0 (publish p "CREATED" new_id d').1
        ∙ publish-incidents p "CREATED" new_id d'
    after (raised e) d' = refl

module _ (p : Publisher) (id : String) where
  Closed-transition :
      (actor : Option String) (note : String) (now : ℕ) (j s : String) (db : Db)
      → Closed id db
      → Closed id (transition alone p actor note now j s db).1
  Closed-transition actor note now j s db c =
      by_reply (transition alone p actor note now j s db).0 refl
    where
      not_this :
          (old : String) → status_of j db ≡ some old → is_valid_transition old s ≡ true → id ≡ j → ⊥
      not_this old o v e =
          closed_cannot_move old s (some_text (sym c ∙ (ap (λ x. status_of x db) e ∙ o))) v

      by_reply :
          (x : Reply Unit)
          → (transition alone p actor note now j s db).0 ≡ x
          → Closed id (transition alone p actor note now j s db).1
      by_reply (raised e) h = elim (transition-raised p actor note now j s db h) [
        | inl same ↦ rw same c
        | inr (_, w) ↦ rw (w.4 id (not_this w.0 w.1 w.2)) c
      ]
      by_reply (ok u) h =
          let w = transition-ok p actor note now j s db h in rw (w.4 id (not_this w.0 w.1 w.2)) c

  serve-Closed : (now : ℕ) (q : Request) (db : Db) → Closed id db → Closed id (serve p now q db)
  serve-Closed now (alerts new_id alert) db c =
      by_machine (λ x. Closed id x.1) undisturbed p new_id now alert db c
        (elim (Option-cases (find (active_on alert.machine_id) db.incidents)) [
          | inr (r, f) ↦
              ap (λ x. status_of id x.1) (attach-found undisturbed p new_id now alert db r f)
              ∙ (ap (λ rows. status (find (has_id id) rows))
                    (attach_to-incidents p new_id now alert db r.id)
                  ∙ c)
          | inl f ↦
              let k = no_conflict-alone alert.machine_id db.incidents f in
              let db2 = append_row db (new_row new_id now alert) in
              ap (λ x. status_of id x.1) (attach-inserted undisturbed p new_id now alert db f k)
              ∙ status_of-append id db.incidents (new_row new_id now alert) db
                  (announce_new undisturbed p new_id now alert db db2).1 refl
                  (announce_new-incidents p new_id now alert db db2) c
        ])
  serve-Closed now (moves actor note j s) db c = Closed-transition actor note now j s db c
  serve-Closed now (assigns actor j user_id) db c =
      ap (λ rows. status (find (has_id id) rows)) (assign-incidents p actor now j user_id db)
      ∙ (update-status_of j id (assigned now user_id) db (λ r. refl) (λ r. refl) ∙ c)
  serve-Closed now (resolves actor j notes) db c =
      elim (Bool-cases (one_active (map (at_id j (noted notes)) db.incidents))) [
        | inr k ↦ ap (status_of id) (resolve-stopped p actor now j notes db k) ∙ c
        | inl k ↦
            let db' = (update j (noted notes) db).1 in
            ap (λ x. status_of id x.1) (resolve-transition p actor now j notes db k)
            ∙ (Closed-transition actor notes now j "RESOLVED" db'
                (update-status_of j id (noted notes) db (λ r. refl) (λ r. refl) ∙ c))
      ]

  -- A closed incident stays closed, whatever requests are served one after the other: alerts,
  -- transitions, assignments, resolutions.
  pub serve_all-closed :
      (requests : List (ℕ × Request)) (db : Db)
      → status_of id db ≡ some "CLOSED"
      → status_of id (serve_all p requests db) ≡ some "CLOSED"
  serve_all-closed [] db c = c
  serve_all-closed ((now, q) ∷ rest) db c =
      serve_all-closed rest (serve p now q db) (serve-Closed now q db c)
