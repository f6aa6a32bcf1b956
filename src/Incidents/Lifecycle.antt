-- ===== src/Incidents/Lifecycle.antt =====
-- The table of transitions of shared/incidents.py against the life cycle as a relation.
use indu_sense.Base.{◌↔◌, String, ◌≡◌, refl, inl, inr, true, false, ◌==◌, arith, eq_iff, Bool-cases}
use indu_sense.Incidents.{is_valid_transition}

pub data Status : Type 0 where
  opened acknowledged investigating resolved closed : Status

-- how the program spells a status
abbrev pub text : Status → String
text opened = "OPEN"
text acknowledged = "ACKNOWLEDGED"
text investigating = "INVESTIGATING"
text resolved = "RESOLVED"
text closed = "CLOSED"

-- The life cycle: forwards, back from resolved to investigating, and nowhere from closed.
infix 40 ◌⟶◌
pub data ◌⟶◌ : Status → Status → Type 0 where
  acknowledge : opened ⟶ acknowledged
  look_into : opened ⟶ investigating
  resolve_opened : opened ⟶ resolved
  take_up : acknowledged ⟶ investigating
  resolve_acknowledged : acknowledged ⟶ resolved
  resolve_investigated : investigating ⟶ resolved
  close : resolved ⟶ closed
  recur : resolved ⟶ investigating

ruleset steps = (
  acknowledge, look_into, resolve_opened, take_up, resolve_acknowledged, resolve_investigated,
  close, recur,
)

pub data Known (s : String) : Type 0 where
  known : (a : Status) → s ≡ text a → Known s
  unknown :
      s == "OPEN" ≡ false
      → s == "ACKNOWLEDGED" ≡ false
      → s == "INVESTIGATING" ≡ false
      → s == "RESOLVED" ≡ false
      → s == "CLOSED" ≡ false
      → Known s

status_cases : (s : String) → Known s
status_cases s = elim (Bool-cases (s == "OPEN")) [
  | inl p ↦ known opened ((eq_iff s "OPEN").0 p)
  | inr p ↦ elim (Bool-cases (s == "ACKNOWLEDGED")) [
    | inl q ↦ known acknowledged ((eq_iff s "ACKNOWLEDGED").0 q)
    | inr q ↦ elim (Bool-cases (s == "INVESTIGATING")) [
      | inl r ↦ known investigating ((eq_iff s "INVESTIGATING").0 r)
      | inr r ↦ elim (Bool-cases (s == "RESOLVED")) [
        | inl t ↦ known resolved ((eq_iff s "RESOLVED").0 t)
        | inr t ↦ elim (Bool-cases (s == "CLOSED")) [
          | inl u ↦ known closed ((eq_iff s "CLOSED").0 u)
          | inr u ↦ unknown p q r t u
        ]
      ]
    ]
  ]
]

step_of_valid : (a b : Status) → is_valid_transition (text a) (text b) ≡ true → a ⟶ b
unfolding is_valid_transition
step_of_valid opened acknowledged h = acknowledge
step_of_valid opened investigating h = look_into
step_of_valid opened resolved h = resolve_opened
step_of_valid acknowledged investigating h = take_up
step_of_valid acknowledged resolved h = resolve_acknowledged
step_of_valid investigating resolved h = resolve_investigated
step_of_valid resolved closed h = close
step_of_valid resolved investigating h = recur
step_of_valid _ _ h = cc

valid_of_step : (a b : Status) → a ⟶ b → is_valid_transition (text a) (text b) ≡ true
unfolding is_valid_transition
valid_of_step a b acknowledge = refl
valid_of_step a b _ = refl

unknown_source :
    (f t : String)
    → f == "OPEN" ≡ false
    → f == "ACKNOWLEDGED" ≡ false
    → f == "INVESTIGATING" ≡ false
    → f == "RESOLVED" ≡ false
    → f == "CLOSED" ≡ false
    → is_valid_transition f t ≡ false
unfolding is_valid_transition
unknown_source f t a b c d e = ground (
  arith,
  eq_iff "OPEN" f,
  eq_iff f "OPEN",
  eq_iff "ACKNOWLEDGED" f,
  eq_iff f "ACKNOWLEDGED",
  eq_iff "INVESTIGATING" f,
  eq_iff f "INVESTIGATING",
  eq_iff "RESOLVED" f,
  eq_iff f "RESOLVED",
  eq_iff "CLOSED" f,
  eq_iff f "CLOSED",
)

unknown_target :
    (a : Status) (t : String)
    → t == "ACKNOWLEDGED" ≡ false
    → t == "INVESTIGATING" ≡ false
    → t == "RESOLVED" ≡ false
    → t == "CLOSED" ≡ false
    → is_valid_transition (text a) t ≡ false
unfolding is_valid_transition
unknown_target opened t b c d e = ground arith
unknown_target _ t b c d e = ground arith

valid_between :
    (f t : String) (a : Status)
    → f ≡ text a
    → Known t
    → is_valid_transition f t ≡ true
    → (a : Status) × (b : Status) × (f ≡ text a) × (t ≡ text b) × (a ⟶ b)
valid_between f t a p (known b q) h = (a, b, p, q, step_of_valid a b (rw (p, q) at h))
valid_between f t a p (unknown _ k l m n) h = let h' = rw p at h in cc (unknown_target a t k l m n)

step_of_transition :
    (f t : String)
    → is_valid_transition f t ≡ true
    → (a : Status) × (b : Status) × (f ≡ text a) × (t ≡ text b) × (a ⟶ b)
step_of_transition f t h = from_source (status_cases f) h
  where
    from_source :
        Known f
        → is_valid_transition f t ≡ true
        → (a : Status) × (b : Status) × (f ≡ text a) × (t ≡ text b) × (a ⟶ b)
    from_source (known a p) h' = valid_between f t a p (status_cases t) h'
    from_source (unknown a b c d e) h' = cc (unknown_source f t a b c d e)

-- is_valid_transition allows a move between two texts exactly if they are the texts of two of the
-- five statuses between which the life cycle has a step.
pub is_valid_transition-step :
    (f t : String)
    → (is_valid_transition f t ≡ true)
      ↔ ((a : Status) × (b : Status) × (f ≡ text a) × (t ≡ text b) × (a ⟶ b))
is_valid_transition-step f t =
    (step_of_transition f t, λ w. rw (w.2, w.3) (valid_of_step w.0 w.1 w.4))
