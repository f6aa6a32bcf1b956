-- ===== src/Alerts/Store/OneOpen.antt =====
-- `create_if_due` of services/alert-service/store.py and the unique index of open alerts.
use indu_sense.Base.{
  ℕ, ◌+◌, ◌≤◌, String, ◌≡◌, refl, sym, subst, ap, ◌∙◌, Bool, true, false, Option, none, some, List,
  [], ◌∷◌, ◌++◌, arith, eq_iff, if◌then◌else◌, any, filter,
}
use indu_sense.Alerts.Store.{
  Alert, AlertRow, Reason, inserted_unless, is_of, is_open_of, row_of, latest, held_back,
  insert_alert, unless_held, create_if_due,
}

abbrev pub open_count : String → String → List AlertRow → ℕ
open_count rule_id dedupe_key [] = 0
open_count rule_id dedupe_key (r ∷ rows) =
    (if is_open_of rule_id dedupe_key r then 1 else 0) + open_count rule_id dedupe_key rows

abbrev pub OneOpen : List AlertRow → Type 0
OneOpen rows = (rule_id dedupe_key : String) → open_count rule_id dedupe_key rows ≤ 1

open_count-append :
    (k d : String) (xs ys : List AlertRow)
    → open_count k d (xs ++ ys) ≡ open_count k d xs + open_count k d ys
open_count-append k d [] ys = omega arith
open_count-append k d (x ∷ xs) ys = omega (arith, open_count-append k d xs ys)

open_count-none :
    (k d : String) (rows : List AlertRow)
    → any (is_open_of k d) rows ≡ false
    → open_count k d rows ≡ 0
open_count-none k d [] h = refl
open_count-none k d (r ∷ rows) h = ground (arith, open_count-none k d rows)

-- the row that is inserted opens an alert of its own kind, and of no other
row_of-open :
    (rule_id dedupe_key id : String) (now : ℕ) (alert : Alert) (k d : String) (n : ℕ)
    → n ≤ 1
    → (rule_id ≡ k → dedupe_key ≡ d → n ≡ 0)
    → n + open_count k d (row_of rule_id dedupe_key id now alert ∷ []) ≤ 1
row_of-open rule_id dedupe_key id now alert k d n h z =
    ground (arith, eq_iff rule_id k, eq_iff dedupe_key d)

none_open :
    (rule_id dedupe_key k d : String) (rows : List AlertRow)
    → any (is_open_of rule_id dedupe_key) rows ≡ false
    → rule_id ≡ k
    → dedupe_key ≡ d
    → open_count k d rows ≡ 0
none_open rule_id dedupe_key k d rows h e e' = open_count-none k d rows (
    ap (λ x. any (is_open_of x d) rows) (sym e)
    ∙ (ap (λ y. any (is_open_of rule_id y) rows) (sym e') ∙ h))

insert_alert-OneOpen :
    (rule_id dedupe_key id : String) (now : ℕ) (alert : Alert) (rows : List AlertRow)
    → OneOpen rows
    → OneOpen (insert_alert rule_id dedupe_key id now alert rows).1
unfolding insert_alert inserted_unless
insert_alert-OneOpen rule_id dedupe_key id now alert rows v k d =
    by_open (any (is_open_of rule_id dedupe_key) rows) refl
  where
    by_open :
        (b : Bool)
        → any (is_open_of rule_id dedupe_key) rows ≡ b
        → open_count k d (inserted_unless b rule_id dedupe_key id now alert rows).1 ≤ 1
    by_open true e = v k d
    by_open false e =
        subst (λ n. n ≤ 1)
          (sym (open_count-append k d rows (row_of rule_id dedupe_key id now alert ∷ [])))
          (row_of-open rule_id dedupe_key id now alert k d (open_count k d rows) (v k d)
            (none_open rule_id dedupe_key k d rows e))

-- If what other connections commit in between keeps at most one open alert for each rule and
-- dedupe key, so does create_if_due.
pub create_if_due-OneOpen :
    (others : List AlertRow → List AlertRow) (id : String) (now : ℕ) (rule_id : String)
    (cooldown_seconds : ℕ) (alert : Alert) (dedupe_key : String) (rows : List AlertRow)
    → ((t : List AlertRow) → OneOpen t → OneOpen (others t))
    → OneOpen rows
    → OneOpen (create_if_due others id now rule_id cooldown_seconds alert dedupe_key rows).1
unfolding create_if_due
create_if_due-OneOpen others id now rule_id cooldown_seconds alert dedupe_key rows kept v =
    by_held (held_back now cooldown_seconds (latest (filter (is_of rule_id dedupe_key) rows)))
  where
    by_held :
        (o : Option Reason)
        → OneOpen
            (unless_held o rows (insert_alert rule_id dedupe_key id now alert (others rows))).1
    by_held none = insert_alert-OneOpen rule_id dedupe_key id now alert (others rows) (kept rows v)
    by_held (some c) = v
