-- ===== src/Alerts/Store/Due.antt =====
-- When `create_if_due` of services/alert-service/store.py creates an alert.
use indu_sense.Base.{
  ℕ, ◌+◌, ◌≤◌, String, ◌≡◌, refl, sym, subst, Bool, true, false, Option, none, some, List, [], ◌∷◌,
  ◌++◌, arith, eq_iff, any, filter, All,
}
use indu_sense.Alerts.{microseconds}
use indu_sense.Alerts.Store.{
  Alert, AlertRow, Reason, created, inserted_unless, is_of, is_open_of, row_of, stored, later_of,
  latest, held_back, insert_alert, unless_held, create_if_due,
}

latest-none : (rows : List AlertRow) → latest rows ≡ none → rows ≡ []
unfolding latest
latest-none [] h = refl
latest-none (x ∷ rows) h = cc

All-le :
    (a b : ℕ) (rows : List AlertRow)
    → a ≤ b
    → All (λ s. s.created_at ≤ a) rows
    → All (λ s. s.created_at ≤ b) rows
All-le a b [] h v = tt
All-le a b (r ∷ rows) h v = (omega (arith, v.0, h), All-le a b rows h v.1)

later_of-All :
    (x : AlertRow) (rows : List AlertRow) (r : AlertRow) (o : Option AlertRow)
    → latest rows ≡ o
    → ((s : AlertRow) → latest rows ≡ some s → All (λ t. t.created_at ≤ s.created_at) rows)
    → some (later_of x o) ≡ some r
    → All (λ s. s.created_at ≤ r.created_at) (x ∷ rows)
later_of-All x rows r none e tail h =
    let same : x ≡ r = cc in
    subst (λ z. All (λ s. s.created_at ≤ z.created_at) (x ∷ rows)) same
      (
        omega arith,
        subst (λ t. All (λ s. s.created_at ≤ x.created_at) t) (sym (latest-none rows e)) tt,
      )
later_of-All x rows r (some s) e tail h =
    let same : later_of x (some s) ≡ r = cc in
    subst (λ z. All (λ t. t.created_at ≤ z.created_at) (x ∷ rows)) same
      (
        ground arith,
        All-le s.created_at (later_of x (some s)).created_at rows (ground arith) (tail s e),
      )

latest-All :
    (rows : List AlertRow) (r : AlertRow)
    → latest rows ≡ some r
    → All (λ s. s.created_at ≤ r.created_at) rows
unfolding latest
latest-All [] r h = tt
latest-All (x ∷ rows) r h = later_of-All x rows r (latest rows) refl (latest-All rows) h

-- The alerts of the kind leave room for another: the last is resolved, and the cooldown has passed
-- since each was triggered.
pub record HasRoom (now cooldown_seconds : ℕ) (kind : List AlertRow) : Type 0 where
  pub resolved : (r : AlertRow) → latest kind ≡ some r → r.alert.status ≡ "RESOLVED"
  pub cooled : All (λ s. s.created_at + microseconds cooldown_seconds ≤ now) kind

cooled_each :
    (now wait at : ℕ) (kind : List AlertRow)
    → at + wait ≤ now
    → All (λ s. s.created_at ≤ at) kind
    → All (λ s. s.created_at + wait ≤ now) kind
cooled_each now wait at [] h v = tt
cooled_each now wait at (r ∷ kind) h v = (omega (arith, v.0, h), cooled_each now wait at kind h v.1)

not_held :
    (now cooldown_seconds : ℕ) (r : AlertRow)
    → held_back now cooldown_seconds (some r) ≡ none
    → (r.alert.status ≡ "RESOLVED") × (r.created_at + microseconds cooldown_seconds ≤ now)
unfolding held_back
not_held now cooldown_seconds r h = ground (arith, eq_iff r.alert.status "RESOLVED")

room_of :
    (now cooldown_seconds : ℕ) (kind : List AlertRow) (o : Option AlertRow)
    → latest kind ≡ o
    → held_back now cooldown_seconds o ≡ none
    → HasRoom now cooldown_seconds kind
room_of now cooldown_seconds kind none e h = record {
  resolved = λ r k. cc;
  cooled =
      subst (λ t. All (λ s. s.created_at + microseconds cooldown_seconds ≤ now) t)
        (sym (latest-none kind e)) tt;
}
room_of now cooldown_seconds kind (some r) e h =
    let free = not_held now cooldown_seconds r h in
    record {
      resolved =
          λ s k. let same : r ≡ s = cc in subst (λ z. z.alert.status ≡ "RESOLVED") same free.0;
      cooled =
          cooled_each now (microseconds cooldown_seconds) r.created_at kind free.1
            (latest-All kind r e);
    }

abbrev pub alone : List AlertRow → List AlertRow
alone rows = rows

module _ (id : String) (now : ℕ) (rule_id : String) (cooldown_seconds : ℕ) (alert : Alert)
    (dedupe_key : String) (rows : List AlertRow) where
  abbrev kind : List AlertRow
  kind = filter (is_of rule_id dedupe_key) rows

  inserted-created :
      (b : Bool) (a : Alert)
      → (inserted_unless b rule_id dedupe_key id now alert rows).0 ≡ created a
      → (a ≡ stored id now alert)
        × ((inserted_unless b rule_id dedupe_key id now alert rows).1
            ≡ rows ++ row_of rule_id dedupe_key id now alert ∷ [])
  unfolding inserted_unless
  inserted-created true a h = cc
  inserted-created false a h = (cc, refl)

  -- With no other connection at work, an alert that create_if_due creates finds the last alert of
  -- its rule and dedupe key, if any, resolved, and each of them triggered at least the cooldown
  -- ago; exactly one row is added, which is open.
  pub create_if_due-created :
      (a : Alert)
      → (create_if_due alone id now rule_id cooldown_seconds alert dedupe_key rows).0 ≡ created a
      → HasRoom now cooldown_seconds kind
        × ((a ≡ stored id now alert)
            × ((create_if_due alone id now rule_id cooldown_seconds alert dedupe_key rows).1
                ≡ rows ++ row_of rule_id dedupe_key id now alert ∷ []))
  unfolding create_if_due insert_alert
  create_if_due-created a = by_held (held_back now cooldown_seconds (latest kind)) refl
    where
      by_held :
          (o : Option Reason)
          → held_back now cooldown_seconds (latest kind) ≡ o
          → (unless_held o rows (insert_alert rule_id dedupe_key id now alert rows)).0 ≡ created a
          → HasRoom now cooldown_seconds kind
            × ((a ≡ stored id now alert)
                × ((unless_held o rows (insert_alert rule_id dedupe_key id now alert rows)).1
                    ≡ rows ++ row_of rule_id dedupe_key id now alert ∷ []))
      by_held none e h = (
        room_of now cooldown_seconds kind (latest kind) refl e,
        inserted-created (any (is_open_of rule_id dedupe_key) rows) a h,
      )
      by_held (some c) e h = cc
