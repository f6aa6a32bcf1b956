-- ===== src/Base/Lists.antt =====
-- Lists measured by native numbers, Boolean searches and predicates by recursion.
use Prim.Native.Nat.{ℕ, zero, suc, ◌+◌, ◌-◌, ◌≤◌}
use Prim.Native.String.{String, ◌++◌ as str_append}
use mathlib.Core.Path.{◌≡◌, refl, ap, sym, ◌∙◌, subst}
use mathlib.Core.Logic.{inl, inr}
use mathlib.Core.Bool.{Bool, true, false, ◌||◌}
use mathlib.Core.Option.{Option, none, some}
use mathlib.Core.List.{List, [], ◌∷◌, ◌++◌}
use native.Mathlib.Omega.{arith}
use text.Mathlib.Text.{◌==◌}
use indu_sense.Base.Tests.{if◌then◌else◌, Bool-cases}

module _ {ℓ} {A : Type ℓ} where
  abbrev pub length : List A → ℕ
  length [] = 0
  length (x ∷ xs) = suc (length xs)

  abbrev pub drop : ℕ → List A → List A
  drop zero xs = xs
  drop (suc n) [] = []
  drop (suc n) (x ∷ xs) = drop n xs

  abbrev pub get_elem? : List A → ℕ → Option A
  get_elem? [] i = none
  get_elem? (x ∷ xs) zero = some x
  get_elem? (x ∷ xs) (suc i) = get_elem? xs i

  -- a write past the end changes nothing
  abbrev pub set : List A → ℕ → A → List A
  set [] i v = []
  set (x ∷ xs) zero v = v ∷ xs
  set (x ∷ xs) (suc i) v = x ∷ set xs i v

  abbrev pub remove : List A → ℕ → List A
  remove [] i = []
  remove (x ∷ xs) zero = xs
  remove (x ∷ xs) (suc i) = x ∷ remove xs i

  abbrev pub take : ℕ → List A → List A
  take zero xs = []
  take (suc n) [] = []
  take (suc n) (x ∷ xs) = x ∷ take n xs

  -- `[x for x in xs if p(x)]`
  abbrev pub filter : (A → Bool) → List A → List A
  filter p [] = []
  filter p (x ∷ xs) = let rest = filter p xs in if p x then x ∷ rest else rest

  abbrev pub any : (A → Bool) → List A → Bool
  any p [] = false
  any p (x ∷ xs) = p x || any p xs

  -- the first element that passes, as `fetchone` of a query and `next` give it
  abbrev pub find : (A → Bool) → List A → Option A
  find p [] = none
  find p (x ∷ xs) = if p x then some x else find p xs

  pub length-remove :
      (xs : List A) (i : ℕ) (a : A) → get_elem? xs i ≡ some a → length (remove xs i) + 1 ≡ length xs
  length-remove [] i a e = ground arith
  length-remove (x ∷ xs) zero a e = omega arith
  length-remove (x ∷ xs) (suc i) a e = omega (arith, length-remove xs i a e)

  pub length-append : (xs ys : List A) → length (xs ++ ys) ≡ length xs + length ys
  length-append [] ys = omega arith
  length-append (x ∷ xs) ys = omega (arith, length-append xs ys)

  pub length-drop : (n : ℕ) (xs : List A) → length (drop n xs) ≡ length xs - n
  length-drop zero xs = omega arith
  length-drop (suc n) [] = omega arith
  length-drop (suc n) (x ∷ xs) = omega (arith, length-drop n xs)

  pub length-filter : (p : A → Bool) (xs : List A) → length (filter p xs) ≤ length xs
  length-filter p [] = omega arith
  length-filter p (x ∷ xs) = ground (arith, length-filter p xs)

module _ {ℓ κ} {A : Type ℓ} where
  -- A predicate of every element.
  abbrev pub All : (A → Type κ) → List A → Type κ
  All P [] = Unit
  All P (x ∷ xs) = P x × All P xs

-- Membership, with the place where it stands.
pub data In {ℓ} {A : Type ℓ} (a : A) : List A → Type ℓ where
  here : {x : A} {xs : List A} → a ≡ x → In a (x ∷ xs)
  there : {x : A} {xs : List A} → In a xs → In a (x ∷ xs)

-- `x in xs` for texts.
abbrev pub mem : String → List String → Bool
mem s [] = false
mem s (x ∷ xs) = s == x || mem s xs

-- the parts of an f-string, joined
abbrev pub concat : List String → String
concat [] = ""
concat (s ∷ ss) = str_append s (concat ss)

module _ {ℓ} {A : Type ℓ} where
  -- what `find` returns passes the test, and something in the list does
  pub find-some :
      (t : A → Bool) (xs : List A) (a : A) → find t xs ≡ some a → (t a ≡ true) × (any t xs ≡ true)
  find-some t [] a h = ground arith
  find-some t (x ∷ xs) a h = ground (arith, find-some t xs a)

  pub find-none : (t : A → Bool) (xs : List A) → find t xs ≡ none → any t xs ≡ false
  find-none t [] h = refl
  find-none t (x ∷ xs) h = ground (arith, find-none t xs)

  pub any-append : (t : A → Bool) (xs ys : List A) → any t (xs ++ ys) ≡ (any t xs || any t ys)
  any-append t [] ys = refl
  any-append t (x ∷ xs) ys = ground (arith, any-append t xs ys)

  pub any-weaken :
      (s t : A → Bool) (xs : List A)
      → ((a : A) → s a ≡ true → t a ≡ true)
      → any s xs ≡ true
      → any t xs ≡ true
  any-weaken s t [] w h = h
  any-weaken s t (x ∷ xs) w h = ground (arith, w x, any-weaken s t xs w)

  pub find-append :
      (t : A → Bool) (xs ys : List A) (a : A) → find t xs ≡ some a → find t (xs ++ ys) ≡ some a
  find-append t [] ys a h = ground arith
  find-append t (x ∷ xs) ys a h = ground (arith, find-append t xs ys a)

  pub find-append_new :
      (t : A → Bool) (xs : List A) (a : A)
      → any t xs ≡ false
      → t a ≡ true
      → find t (xs ++ a ∷ []) ≡ some a
  find-append_new t [] a h p = ground arith
  find-append_new t (x ∷ xs) a h p = ground (arith, find-append_new t xs a)

  pub append-nil : (xs : List A) → xs ++ [] ≡ xs
  append-nil [] = refl
  append-nil (x ∷ xs) = ap (λ t. x ∷ t) (append-nil xs)

  pub any-find :
      (t u : A → Bool) (xs : List A) (a : A) → find t xs ≡ some a → u a ≡ true → any u xs ≡ true
  any-find t u [] a h p = ground arith
  any-find t u (x ∷ xs) a h p = ground (arith, any-find t u xs a)

-- `s.endswith(t)`
abbrev pub ends_with : String → String → Bool
ends_with String.[] t = String.[] == t
ends_with (String.◌∷◌ c s) t = let rest = ends_with s t in (String.◌∷◌ c s) == t || rest

module _ {ℓ} {A : Type ℓ} where
  abbrev pub reverse : List A → List A
  reverse [] = []
  reverse (x ∷ xs) = reverse xs ++ x ∷ []

module _ {ℓ} {A : Type ℓ} where
  pub In-append_left : (a : A) (xs ys : List A) → In a xs → In a (xs ++ ys)
  In-append_left a [] ys i = elim i [ ]
  In-append_left a (x ∷ xs) ys (here e) = here e
  In-append_left a (x ∷ xs) ys (there i) = there (In-append_left a xs ys i)

  pub In-append_last : (a : A) (xs : List A) → In a (xs ++ a ∷ [])
  In-append_last a [] = here refl
  In-append_last a (x ∷ xs) = there (In-append_last a xs)

  pub In-filter : (p : A → Bool) (a : A) (xs : List A) → p a ≡ true → In a xs → In a (filter p xs)
  In-filter p a [] h i = elim i [ ]
  In-filter p a (x ∷ xs) h (here e) = rw (ap p (sym e) ∙ h) (here e)
  In-filter p a (x ∷ xs) h (there i) = elim (Bool-cases (p x)) [
    | inl e ↦ rw e (there (In-filter p a xs h i))
    | inr e ↦ rw e (In-filter p a xs h i)
  ]

module _ {ℓ} {A : Type ℓ} (P : A → Type 0) where
  pub All-append : (xs ys : List A) → All P xs → All P ys → All P (xs ++ ys)
  All-append [] ys h k = k
  All-append (x ∷ xs) ys h k = (h.0, All-append xs ys h.1 k)

  pub All-get_elem? : (xs : List A) (i : ℕ) (a : A) → All P xs → get_elem? xs i ≡ some a → P a
  All-get_elem? [] i a h e = ground arith
  All-get_elem? (x ∷ xs) zero a h e = subst P (ground arith) h.0
  All-get_elem? (x ∷ xs) (suc i) a h e = All-get_elem? xs i a h.1 e
