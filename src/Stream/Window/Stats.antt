-- ===== src/Stream/Window/Stats.antt =====
-- `stats_for` of services/stream-processor/window.py: what its minimum, maximum and count are.
use indu_sense.Base.{
  ℕ, ◌≡◌, refl, sym, subst, true, false, some, List, [], ◌∷◌, map, if◌then◌else◌, All, length,
  Bool-cases, inl, inr,
}
use indu_sense.Float.{Float, Comparison}
use indu_sense.Stream.Window.{
  Sample, WindowStats, SeriesBuffer, min_of, max_of, compute_stats, stats_of, stats_for, in_window,
}

module _ {F : Type 0} (f : Float F) (c : Comparison f) where
  smaller : (v m : F) → f.lt v m ≡ true → (if f.lt v m then v else m) ≡ v
  smaller v m e = rw e refl

  not_smaller : (v m : F) → f.lt v m ≡ false → (if f.lt v m then v else m) ≡ m
  not_smaller v m e = rw e refl

  greater : (v m : F) → f.lt m v ≡ true → (if f.lt m v then v else m) ≡ v
  greater v m e = rw e refl

  not_greater : (v m : F) → f.lt m v ≡ false → (if f.lt m v then v else m) ≡ m
  not_greater v m e = rw e refl

  -- no value of the list is below `m`
  abbrev Floor : F → List F → Type 0
  Floor m vs = All (λ v. f.lt v m ≡ false) vs

  abbrev Ceiling : F → List F → Type 0
  Ceiling m vs = All (λ v. f.lt m v ≡ false) vs

  below_next : (u m v : F) → f.lt u m ≡ false → f.lt v m ≡ true → f.lt u v ≡ false
  below_next u m v h k = elim (Bool-cases (f.lt u v)) [
    | inl e ↦ cc (c.lt_trans u v m e k)
    | inr e ↦ e
  ]

  above_next : (u m v : F) → f.lt m u ≡ false → f.lt m v ≡ true → f.lt v u ≡ false
  above_next u m v h k = elim (Bool-cases (f.lt v u)) [
    | inl e ↦ cc (c.lt_trans m v u k e)
    | inr e ↦ e
  ]

  min_of-le : (u m : F) (vs : List F) → f.lt u m ≡ false → f.lt u (min_of f m vs) ≡ false
  unfolding min_of
  min_of-le u m [] h = h
  min_of-le u m (v ∷ vs) h = elim (Bool-cases (f.lt v m)) [
    | inl e ↦ rw e (min_of-le u v vs (below_next u m v h e))
    | inr e ↦ rw e (min_of-le u m vs h)
  ]

  min_of-Floor : (m : F) (vs : List F) → Floor (min_of f m vs) vs
  unfolding min_of
  min_of-Floor m [] = tt
  min_of-Floor m (v ∷ vs) = elim (Bool-cases (f.lt v m)) [
    | inl e ↦
        subst (λ z. Floor (min_of f z vs) (v ∷ vs)) (sym (smaller v m e))
          (min_of-le v v vs (c.lt_irrefl v), min_of-Floor v vs)
    | inr e ↦
        subst (λ z. Floor (min_of f z vs) (v ∷ vs)) (sym (not_smaller v m e))
          (min_of-le v m vs e, min_of-Floor m vs)
  ]

  max_of-ge : (u m : F) (vs : List F) → f.lt m u ≡ false → f.lt (max_of f m vs) u ≡ false
  unfolding max_of
  max_of-ge u m [] h = h
  max_of-ge u m (v ∷ vs) h = elim (Bool-cases (f.lt m v)) [
    | inl e ↦ rw e (max_of-ge u v vs (above_next u m v h e))
    | inr e ↦ rw e (max_of-ge u m vs h)
  ]

  max_of-Ceiling : (m : F) (vs : List F) → Ceiling (max_of f m vs) vs
  unfolding max_of
  max_of-Ceiling m [] = tt
  max_of-Ceiling m (v ∷ vs) = elim (Bool-cases (f.lt m v)) [
    | inl e ↦
        subst (λ z. Ceiling (max_of f z vs) (v ∷ vs)) (sym (greater v m e))
          (max_of-ge v v vs (c.lt_irrefl v), max_of-Ceiling v vs)
    | inr e ↦
        subst (λ z. Ceiling (max_of f z vs) (v ∷ vs)) (sym (not_greater v m e))
          (max_of-ge v m vs e, max_of-Ceiling m vs)
  ]

  -- the statistics of a list of samples bound its values and count them
  abbrev pub Summarizes : WindowStats F → List (Sample F) → Type 0
  Summarizes st samples =
      (st.count ≡ length samples)
      × All (λ s. (f.lt s.value st.min ≡ false) × (f.lt st.max s.value ≡ false)) samples

  join_values :
      (lo hi : F) (samples : List (Sample F))
      → Floor lo (map (λ s. s.value) samples)
      → Ceiling hi (map (λ s. s.value) samples)
      → All (λ s. (f.lt s.value lo ≡ false) × (f.lt hi s.value ≡ false)) samples
  join_values lo hi [] a b = tt
  join_values lo hi (s ∷ samples) a b = ((a.0, b.0), join_values lo hi samples a.1 b.1)

  compute_stats-Summarizes :
      (s : Sample F) (samples : List (Sample F))
      → Summarizes (compute_stats f s samples) (s ∷ samples)
  unfolding compute_stats
  compute_stats-Summarizes s samples =
      let vs = map (λ (x : Sample F). x.value) samples in
      (
        refl,
        (
          (
            min_of-le s.value s.value vs (c.lt_irrefl s.value),
            max_of-ge s.value s.value vs (c.lt_irrefl s.value),
          ),
          join_values (min_of f s.value vs) (max_of f s.value vs) samples (min_of-Floor s.value vs)
              (max_of-Ceiling s.value vs),
        ),
      )

  stats_of-Summarizes :
      (samples : List (Sample F)) (st : WindowStats F)
      → stats_of f samples ≡ some st
      → Summarizes st samples
  unfolding stats_of
  stats_of-Summarizes [] st h = cc
  stats_of-Summarizes (s ∷ samples) st h =
      subst (λ z. Summarizes z (s ∷ samples)) (some_stats h) (compute_stats-Summarizes s samples)
    where
      some_stats : {a b : WindowStats F} → some a ≡ some b → a ≡ b
      some_stats e = cc

  -- If a comparison is irreflexive and transitive, then the statistics of a window count the
  -- buffer's samples in that window, and none of these is below their minimum or above their
  -- maximum.
  pub stats_for-Summarizes :
      (now window : ℕ) (b : SeriesBuffer F) (st : WindowStats F)
      → stats_for f now window b ≡ some st
      → Summarizes st (in_window now window b.samples)
  unfolding stats_for
  stats_for-Summarizes now window b st h = stats_of-Summarizes (in_window now window b.samples) st h
