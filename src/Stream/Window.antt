-- ===== src/Stream/Window.antt =====
-- services/stream-processor/window.py. A timestamp and a window are numbers of microseconds.
pub mod Order
pub mod Contents
pub mod Stats
use indu_sense.Base.{
  ℕ, zero, suc, ◌+◌, ◌-◌, ◌*◌, ◌≤◌, Bool, true, false, not, Option, none, some, List, [], ◌∷◌, map,
  ltb, leb, if◌then◌else◌, filter, length, reverse,
}
use indu_sense.Float.{Float, number}

pub record Sample (F : Type 0) : Type 0 where
  pub at : ℕ
  pub value : F

pub record WindowStats (F : Type 0) : Type 0 where
  pub count : ℕ
  pub moving_avg : F
  pub moving_stddev : F
  pub min : F
  pub max : F
  pub rate_of_change : F

pub record SeriesBuffer (F : Type 0) : Type 0 where
  pub samples : List (Sample F)
  pub max_window : ℕ

module _ {F : Type 0} where
  -- the `while` of `add`, which goes from the newest sample to the oldest, so over the reversed list
  unfoldable pub insert_back : Sample F → List (Sample F) → List (Sample F)
  insert_back x [] = x ∷ []
  insert_back x (y ∷ older) =
      let rest = insert_back x older in if ltb x.at y.at then y ∷ rest else x ∷ y ∷ older

  unfoldable pub insert_sample : Sample F → List (Sample F) → List (Sample F)
  unfolding insert_back
  insert_sample x samples = reverse (insert_back x (reverse samples))

  -- `samples[-1].at`
  unfoldable pub newest : List (Sample F) → ℕ
  newest [] = 0
  newest (x ∷ []) = x.at
  newest (x ∷ y ∷ samples) = newest (y ∷ samples)

  -- `s.at < cutoff`, for the cutoff `latest - window`
  abbrev pub is_before : ℕ → ℕ → Sample F → Bool
  is_before latest window s = ltb (s.at + window) latest

  -- the second `while` of `add`, and the slice
  unfoldable pub trim : ℕ → ℕ → List (Sample F) → List (Sample F)
  trim latest window [] = []
  trim latest window (x ∷ samples) =
      let rest = trim latest window samples in
      if is_before latest window x then rest else x ∷ samples

  unfoldable pub add : ℕ → F → SeriesBuffer F → SeriesBuffer F
  unfolding insert_sample newest trim
  add at value b =
      let inserted = insert_sample (record { at = at; value = value }) b.samples in
      record b { samples = trim (newest inserted) b.max_window inserted }

  -- `[s for s in samples if s.at >= now - window]`
  abbrev pub in_window : ℕ → ℕ → List (Sample F) → List (Sample F)
  in_window now window samples = filter (λ s. leb now (s.at + window)) samples

module _ {F : Type 0} (f : Float F) where
  unfoldable pub sum : List F → F → F
  sum [] total = total
  sum (v ∷ vs) total = sum vs (f.add total v)

  unfoldable pub min_of : F → List F → F
  min_of m [] = m
  min_of m (v ∷ vs) = min_of (if f.lt v m then v else m) vs

  unfoldable pub max_of : F → List F → F
  max_of m [] = m
  max_of m (v ∷ vs) = max_of (if f.lt m v then v else m) vs

  abbrev squares : F → List F → List F
  squares avg vs = map (λ v. f.mul (f.sub v avg) (f.sub v avg)) vs

  -- the last sample of a list, or the one at hand
  unfoldable pub last_of : Sample F → List (Sample F) → Sample F
  last_of x [] = x
  last_of x (y ∷ samples) = last_of y samples

  -- microseconds as seconds
  abbrev seconds : ℕ → F
  seconds us = f.ratio us 1000000

  -- With one sample alone the first is the last, and no time has passed.
  rate : Sample F → Sample F → F
  rate first last =
      if ltb first.at last.at
      then f.div (f.sub last.value first.value) (seconds (last.at - first.at))
      else number f 0

  -- `_compute_stats` of a list that is not empty
  unfoldable pub compute_stats : Sample F → List (Sample F) → WindowStats F
  unfolding sum min_of max_of last_of rate
  compute_stats first rest =
      let n = suc (length rest) in
      let values = map (λ s. s.value) (first ∷ rest) in
      let avg = f.div (sum values (number f 0)) (number f n) in
      record {
        count = n;
        moving_avg = avg;
        moving_stddev = f.sqrt (f.div (sum (squares avg values) (number f 0)) (number f n));
        min = min_of first.value (map (λ s. s.value) rest);
        max = max_of first.value (map (λ s. s.value) rest);
        rate_of_change = rate first (last_of first rest);
      }

  stats_of : List (Sample F) → Option (WindowStats F)
  unfolding compute_stats
  stats_of [] = none
  stats_of (s ∷ samples) = some (compute_stats s samples)

  unfoldable pub stats_for : ℕ → ℕ → SeriesBuffer F → Option (WindowStats F)
  unfolding stats_of
  stats_for now window b = stats_of (in_window now window b.samples)
