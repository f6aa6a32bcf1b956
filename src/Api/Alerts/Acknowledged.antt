-- ===== src/Api/Alerts/Acknowledged.antt =====
-- An acknowledgment of services/api/handlers_alerts.py, as the alert service sees it.
use indu_sense.Base.{
  ℕ, ◌≤◌, String, true, false, List, [], ◌∷◌, map, ◌≡◌, arith, ◌==◌, eq_iff, All, Bool-cases, inl,
  inr,
}
use indu_sense.Alerts.Store.{Alert, AlertRow, is_due, due_for_escalation}
use indu_sense.Alerts.Store.OneOpen.{OneOpen, open_count}
use indu_sense.Auth.Token.{Claims}
use indu_sense.Api.Alerts.{is_open_in, acknowledged_if, acknowledge_alert}

-- no alert of the list has the id
abbrev pub None : String → List Alert → Type 0
None id alerts = All (λ a. (a.id == id) ≡ false) alerts

-- the rows of the id are the organization's
abbrev pub OwnedBy : String → String → List AlertRow → Type 0
OwnedBy org id rows = All (λ r. (r.alert.id == id) ≡ true → r.alert.organization_id ≡ org) rows

module _ (org id : String) where
  open_count-acknowledged :
      (rule_id dedupe_key : String) (rows : List AlertRow)
      → open_count rule_id dedupe_key (map (acknowledged_if (is_open_in org id)) rows)
        ≤ open_count rule_id dedupe_key rows
  open_count-acknowledged k d [] = omega arith
  open_count-acknowledged k d (r ∷ rows) = elim (Bool-cases (is_open_in org id r)) [
    | inl e ↦ rw e (ground (arith, open_count-acknowledged k d rows))
    | inr e ↦ rw e (ground (arith, open_count-acknowledged k d rows))
  ]

  -- a row that is due, and stayed as it was, is another one
  due_other :
      (now after_seconds : ℕ) (r : AlertRow)
      → ((r.alert.id == id) ≡ true → r.alert.organization_id ≡ org)
      → is_open_in org id r ≡ false
      → is_due now after_seconds r ≡ true
      → (r.alert.id == id) ≡ false
  due_other now after_seconds r o n d = elim (Bool-cases (r.alert.id == id)) [
    | inl e ↦ ground (arith, o e, eq_iff r.alert.organization_id org)
    | inr e ↦ e
  ]

  not_due :
      (now after_seconds : ℕ) (rows : List AlertRow)
      → OwnedBy org id rows
      → None id
          (due_for_escalation now after_seconds (map (acknowledged_if (is_open_in org id)) rows))
  unfolding due_for_escalation
  not_due now after_seconds [] o = tt
  not_due now after_seconds (r ∷ rows) o = elim (Bool-cases (is_open_in org id r)) [
    | inl e ↦ rw e (not_due now after_seconds rows o.1)
    | inr e ↦ rw e (elim (Bool-cases (is_due now after_seconds r)) [
      | inl d ↦ rw d (due_other now after_seconds r o.0 e d, not_due now after_seconds rows o.1)
      | inr d ↦ rw d (not_due now after_seconds rows o.1)
    ])
  ]

-- Acknowledging an alert keeps at most one open alert for each rule and dedupe key; if every alert
-- with that id is in the caller's organization, none of them is due for escalation after it.
pub acknowledge_alert-OneOpen :
    (id : String) (claims : Claims) (rows : List AlertRow) (now after_seconds : ℕ)
    → OneOpen rows
    → OwnedBy claims.organization_id id rows
    → OneOpen (acknowledge_alert id claims rows).1
      × None id (due_for_escalation now after_seconds (acknowledge_alert id claims rows).1)
unfolding acknowledge_alert
acknowledge_alert-OneOpen id claims rows now after_seconds one owned = (
  λ k d. omega (arith, one k d, open_count-acknowledged claims.organization_id id k d rows),
  not_due claims.organization_id id now after_seconds rows owned,
)
