-- ===== src/Stream/Window/Order.antt =====
-- The order of the buffer of services/stream-processor/window.py.
use indu_sense.Base.{ℕ, ◌≤◌, List, [], ◌∷◌, ◌++◌, arith, ltb, reverse, All, Bool-cases, inl, inr}
use indu_sense.Stream.Window.{
  Sample, SeriesBuffer, insert_back, insert_sample, newest, is_before, trim, add,
}

module _ {F : Type 0} where
  abbrev pub AllFrom : ℕ → List (Sample F) → Type 0
  AllFrom at samples = All (λ s. at ≤ s.at) samples

  abbrev pub AllUpTo : ℕ → List (Sample F) → Type 0
  AllUpTo at samples = All (λ s. s.at ≤ at) samples

  -- oldest first
  abbrev pub IsOrdered : List (Sample F) → Type 0
  IsOrdered [] = Unit
  IsOrdered (x ∷ samples) = AllFrom x.at samples × IsOrdered samples

  -- newest first
  abbrev Falls : List (Sample F) → Type 0
  Falls [] = Unit
  Falls (x ∷ samples) = AllUpTo x.at samples × Falls samples

  AllUpTo-insert_back :
      (at : ℕ) (x : Sample F) (older : List (Sample F))
      → x.at ≤ at
      → AllUpTo at older
      → AllUpTo at (insert_back x older)
  unfolding insert_back
  AllUpTo-insert_back at x [] h a = (h, tt)
  AllUpTo-insert_back at x (y ∷ older) h a = elim (Bool-cases (ltb x.at y.at)) [
    | inl e ↦ rw e (a.0, AllUpTo-insert_back at x older h a.1)
    | inr e ↦ rw e (h, a)
  ]

  AllUpTo-weaken :
      (a b : ℕ) (samples : List (Sample F)) → a ≤ b → AllUpTo a samples → AllUpTo b samples
  AllUpTo-weaken a b [] h u = tt
  AllUpTo-weaken a b (x ∷ samples) h u = (omega arith, AllUpTo-weaken a b samples h u.1)

  Falls-insert_back :
      (x : Sample F) (older : List (Sample F)) → Falls older → Falls (insert_back x older)
  unfolding insert_back
  Falls-insert_back x [] h = (tt, tt)
  Falls-insert_back x (y ∷ older) h = elim (Bool-cases (ltb x.at y.at)) [
    | inl e ↦
        rw e (AllUpTo-insert_back y.at x older (ground arith) h.0, Falls-insert_back x older h.1)
    | inr e ↦ rw e ((ground arith, AllUpTo-weaken y.at x.at older (ground arith) h.0), h)
  ]

  AllUpTo-append :
      (at : ℕ) (xs : List (Sample F)) (y : Sample F)
      → AllUpTo at xs
      → y.at ≤ at
      → AllUpTo at (xs ++ y ∷ [])
  AllUpTo-append at [] y u h = (h, tt)
  AllUpTo-append at (x ∷ xs) y u h = (u.0, AllUpTo-append at xs y u.1 h)

  AllFrom-append :
      (at : ℕ) (xs : List (Sample F)) (y : Sample F)
      → AllFrom at xs
      → at ≤ y.at
      → AllFrom at (xs ++ y ∷ [])
  AllFrom-append at [] y u h = (h, tt)
  AllFrom-append at (x ∷ xs) y u h = (u.0, AllFrom-append at xs y u.1 h)

  AllFrom-reverse : (at : ℕ) (xs : List (Sample F)) → AllFrom at xs → AllFrom at (reverse xs)
  AllFrom-reverse at [] u = tt
  AllFrom-reverse at (x ∷ xs) u = AllFrom-append at (reverse xs) x (AllFrom-reverse at xs u.1) u.0

  AllUpTo-reverse : (at : ℕ) (xs : List (Sample F)) → AllUpTo at xs → AllUpTo at (reverse xs)
  AllUpTo-reverse at [] u = tt
  AllUpTo-reverse at (x ∷ xs) u = AllUpTo-append at (reverse xs) x (AllUpTo-reverse at xs u.1) u.0

  Falls-append :
      (xs : List (Sample F)) (y : Sample F) → Falls xs → AllFrom y.at xs → Falls (xs ++ y ∷ [])
  Falls-append [] y f u = (tt, tt)
  Falls-append (x ∷ xs) y f u = (AllUpTo-append x.at xs y f.0 u.0, Falls-append xs y f.1 u.1)

  IsOrdered-append :
      (xs : List (Sample F)) (y : Sample F)
      → IsOrdered xs
      → AllUpTo y.at xs
      → IsOrdered (xs ++ y ∷ [])
  IsOrdered-append [] y f u = (tt, tt)
  IsOrdered-append (x ∷ xs) y f u =
      (AllFrom-append x.at xs y f.0 u.0, IsOrdered-append xs y f.1 u.1)

  Falls-reverse : (xs : List (Sample F)) → IsOrdered xs → Falls (reverse xs)
  Falls-reverse [] o = tt
  Falls-reverse (x ∷ xs) o =
      Falls-append (reverse xs) x (Falls-reverse xs o.1) (AllFrom-reverse x.at xs o.0)

  IsOrdered-reverse : (xs : List (Sample F)) → Falls xs → IsOrdered (reverse xs)
  IsOrdered-reverse [] o = tt
  IsOrdered-reverse (x ∷ xs) o =
      IsOrdered-append (reverse xs) x (IsOrdered-reverse xs o.1) (AllUpTo-reverse x.at xs o.0)

  -- An insertion keeps the order.
  pub insert_sample-IsOrdered :
      (x : Sample F) (samples : List (Sample F))
      → IsOrdered samples
      → IsOrdered (insert_sample x samples)
  unfolding insert_sample
  insert_sample-IsOrdered x samples o =
      IsOrdered-reverse (insert_back x (reverse samples))
        (Falls-insert_back x (reverse samples) (Falls-reverse samples o))

  AllFrom-trim :
      (at latest window : ℕ) (samples : List (Sample F))
      → AllFrom at samples
      → AllFrom at (trim latest window samples)
  unfolding trim
  AllFrom-trim at latest window [] h = tt
  AllFrom-trim at latest window (x ∷ samples) h = elim (Bool-cases (is_before latest window x)) [
    | inl e ↦ rw e (AllFrom-trim at latest window samples h.1)
    | inr e ↦ rw e h
  ]

  pub trim-IsOrdered :
      (latest window : ℕ) (samples : List (Sample F))
      → IsOrdered samples
      → IsOrdered (trim latest window samples)
  unfolding trim
  trim-IsOrdered latest window [] o = tt
  trim-IsOrdered latest window (x ∷ samples) o = elim (Bool-cases (is_before latest window x)) [
    | inl e ↦ rw e (trim-IsOrdered latest window samples o.1)
    | inr e ↦ rw e o
  ]

  pub AllUpTo-newest :
      (samples : List (Sample F)) → IsOrdered samples → AllUpTo (newest samples) samples
  unfolding newest
  AllUpTo-newest [] o = tt
  AllUpTo-newest (x ∷ []) o = (omega arith, tt)
  AllUpTo-newest (x ∷ y ∷ samples) o =
      let u = AllUpTo-newest (y ∷ samples) o.1 in (omega (arith, u.0, o.0.0), u)

module _ {F : Type 0} (at : ℕ) (value : F) (b : SeriesBuffer F) (o : IsOrdered b.samples) where
  abbrev pub arrived : Sample F
  arrived = record { at = at; value = value }

  -- the newest event time, the arrived sample included
  abbrev pub latest : ℕ
  latest = newest (insert_sample arrived b.samples)

  -- A sample that arrives at a buffer in order of event time, at whatever time, leaves it in
  -- order.
  pub add-IsOrdered : IsOrdered (add at value b).samples
  unfolding add
  add-IsOrdered =
      trim-IsOrdered latest b.max_window (insert_sample arrived b.samples)
        (insert_sample-IsOrdered arrived b.samples o)
