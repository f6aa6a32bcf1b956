-- ===== src/Stream/Window/Contents.antt =====
-- What the buffer of services/stream-processor/window.py holds after an addition.
use indu_sense.Base.{
  ℕ, ◌+◌, ◌≤◌, ◌≡◌, refl, ap, ◌∙◌, Bool, not, ◌&&◌, List, [], ◌∷◌, ◌++◌, arith, filter, reverse,
  All, length, Bool-cases, inl, inr,
}
use indu_sense.Stream.Window.{
  Sample, SeriesBuffer, insert_back, insert_sample, is_before, trim, add,
}
use indu_sense.Stream.Window.Order.{
  IsOrdered, AllFrom, arrived, latest, insert_sample-IsOrdered, AllUpTo-newest,
}

module _ {F : Type 0} where
  keep_all :
      (latest window at : ℕ) (samples : List (Sample F))
      → AllFrom at samples
      → latest ≤ at + window
      → filter (λ s. not (is_before latest window s)) samples ≡ samples
  keep_all latest window at [] h k = refl
  keep_all latest window at (x ∷ samples) h k = elim (Bool-cases (is_before latest window x)) [
    | inl e ↦ absurd (ground arith)
    | inr e ↦ rw (e, keep_all latest window at samples h.1 k) refl
  ]

  -- On samples in order, dropping from the front drops exactly those before the cutoff.
  pub trim-filter :
      (latest window : ℕ) (samples : List (Sample F))
      → IsOrdered samples
      → trim latest window samples ≡ filter (λ s. not (is_before latest window s)) samples
  unfolding trim
  trim-filter latest window [] o = refl
  trim-filter latest window (x ∷ samples) o = elim (Bool-cases (is_before latest window x)) [
    | inl e ↦ rw (e) (trim-filter latest window samples o.1)
    | inr e ↦ rw (e, keep_all latest window x.at samples o.0 (ground arith)) refl
  ]

  abbrev pub count : (Sample F → Bool) → List (Sample F) → ℕ
  count p samples = length (filter p samples)

  count-append :
      (p : Sample F → Bool) (xs ys : List (Sample F)) → count p (xs ++ ys) ≡ count p xs + count p ys
  count-append p [] ys = omega arith
  count-append p (x ∷ xs) ys = ground (arith, count-append p xs ys)

  count-reverse : (p : Sample F → Bool) (xs : List (Sample F)) → count p (reverse xs) ≡ count p xs
  count-reverse p [] = refl
  count-reverse p (x ∷ xs) =
      ground (arith, count-append p (reverse xs) (x ∷ []), count-reverse p xs)

  count-insert_back :
      (p : Sample F → Bool) (x : Sample F) (older : List (Sample F))
      → count p (insert_back x older) ≡ count p (x ∷ older)
  unfolding insert_back
  count-insert_back p x [] = refl
  count-insert_back p x (y ∷ older) = ground (arith, count-insert_back p x older)

  count-insert_sample :
      (p : Sample F → Bool) (x : Sample F) (samples : List (Sample F))
      → count p (insert_sample x samples) ≡ count p (x ∷ samples)
  unfolding insert_sample
  count-insert_sample p x samples =
      count-reverse p (insert_back x (reverse samples))
      ∙ count-insert_back p x (reverse samples)
      ∙ count-cons p x (reverse samples) samples (count-reverse p samples)
    where
      count-cons :
          (q : Sample F → Bool) (z : Sample F) (xs ys : List (Sample F))
          → count q xs ≡ count q ys
          → count q (z ∷ xs) ≡ count q (z ∷ ys)
      count-cons q z xs ys h = ground arith

  count-filter :
      (p q : Sample F → Bool) (samples : List (Sample F))
      → count p (filter q samples) ≡ count (λ s. q s && p s) samples
  count-filter p q [] = refl
  count-filter p q (x ∷ samples) = ground (arith, count-filter p q samples)

module _ {F : Type 0} (at : ℕ) (value : F) (b : SeriesBuffer F) (o : IsOrdered b.samples) where
  -- The buffer of a series, in order before, holds after an addition exactly the samples that are
  -- not older than the window before the newest event time, each as often as before and the
  -- arrived one once more; no sample is newer.
  pub count-add :
      ((p : Sample F → Bool)
        → count p (add at value b).samples
          ≡ count
              (λ s. not (is_before (latest at value b o) b.max_window s) && p s)
              ((arrived at value b o) ∷ b.samples))
      × All (λ s. s.at ≤ (latest at value b o)) (insert_sample (arrived at value b o) b.samples)
  unfolding add
  count-add = (
    λ p.
        ap (count p) (
          trim-filter (latest at value b o) b.max_window
            (insert_sample (arrived at value b o) b.samples)
            (insert_sample-IsOrdered (arrived at value b o) b.samples o))
        ∙ count-filter p (λ s. not (is_before (latest at value b o) b.max_window s))
            (insert_sample (arrived at value b o) b.samples)
        ∙ count-insert_sample (λ s. not (is_before (latest at value b o) b.max_window s) && p s)
            (arrived at value b o) b.samples,
    AllUpTo-newest (insert_sample (arrived at value b o) b.samples)
        (insert_sample-IsOrdered (arrived at value b o) b.samples o),
  )
