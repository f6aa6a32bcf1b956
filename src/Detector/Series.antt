-- ===== src/Detector/Series.antt =====
-- services/anomaly-detector/stats.py: the moving mean and variance of each series.
use indu_sense.Base.{
  ℕ, suc, ◌+◌, String, ◌≡◌, sym, subst, ap, ◌∙◌, Bool, true, false, Option, none, some, List, [],
  ◌∷◌, arith, if◌then◌else◌, concat, ◌==◌, eq_iff,
}
use indu_sense.Base.Dict.{Dict, lookup, insert, lookup-insert}
use indu_sense.Float.{Float, number}

pub record EwmaTracker (F : Type 0) : Type 0 where
  pub alpha : F
  pub mean : F
  pub variance : F
  pub sample_count : ℕ
  pub initialized : Bool

pub record StatisticalTrackers (F : Type 0) : Type 0 where
  pub trackers : Dict (EwmaTracker F)
  pub alpha : F

abbrev pub series_key : String → String → String
series_key device_id metric = concat (device_id ∷ "|" ∷ metric ∷ [])

module _ {F : Type 0} (f : Float F) where
  abbrev pub new_tracker : F → EwmaTracker F
  new_tracker alpha = record {
    alpha = alpha;
    mean = number f 0;
    variance = number f 0;
    sample_count = 0;
    initialized = false;
  }

  first_sample : F → EwmaTracker F → (F × ℕ) × EwmaTracker F
  first_sample value t = (
    (number f 0, 1),
    record t { mean = value; variance = number f 0; initialized = true; sample_count = 1 },
  )

  next_sample : F → EwmaTracker F → (F × ℕ) × EwmaTracker F
  next_sample value t =
      let stddev = f.sqrt t.variance in
      let delta = f.sub value t.mean in
      let z_score = if f.lt (number f 0) stddev then f.div delta stddev else number f 0 in
      (
        (z_score, t.sample_count + 1),
        record t {
          mean = f.add t.mean (f.mul t.alpha delta);
          variance =
              f.mul (f.sub (number f 1) t.alpha)
                (f.add t.variance (f.mul (f.mul t.alpha delta) delta));
          sample_count = t.sample_count + 1;
        },
      )

  unfoldable pub update_tracker : F → EwmaTracker F → (F × ℕ) × EwmaTracker F
  unfolding first_sample next_sample
  update_tracker value t = if t.initialized then next_sample value t else first_sample value t

  -- the tracker of a series, new if there is none
  abbrev or_new : F → Option (EwmaTracker F) → EwmaTracker F
  or_new alpha none = new_tracker alpha
  or_new alpha (some t) = t

  -- `StatisticalTrackers.update`
  unfoldable pub update :
      String → String → F → StatisticalTrackers F → (F × ℕ) × StatisticalTrackers F
  unfolding update_tracker
  update device_id metric value s =
      let key = series_key device_id metric in
      let r = update_tracker value (or_new s.alpha (lookup key s.trackers)) in
      (r.0, record s { trackers = insert key r.1 s.trackers })

  -- readings, one after the other
  abbrev pub update_all : List (String × String × F) → StatisticalTrackers F → StatisticalTrackers F
  update_all [] s = s
  update_all ((device_id, metric, value) ∷ readings) s =
      update_all readings (update device_id metric value s).1

  -- how many of the readings belong to the series
  abbrev pub of_series : String → List (String × String × F) → ℕ
  of_series key [] = 0
  of_series key ((device_id, metric, value) ∷ readings) =
      let rest = of_series key readings in
      if series_key device_id metric == key then suc rest else rest

  -- the samples that a series has had
  abbrev pub count_of : String → StatisticalTrackers F → ℕ
  count_of key s = (or_new s.alpha (lookup key s.trackers)).sample_count

  -- A tracker that has had no sample is not initialized.
  abbrev Fresh : EwmaTracker F → Type 0
  Fresh t = t.initialized ≡ false → t.sample_count ≡ 0

  abbrev pub IsValid : StatisticalTrackers F → Type 0
  IsValid s = (key : String) → Fresh (or_new s.alpha (lookup key s.trackers))

  update_tracker-count :
      (value : F) (t : EwmaTracker F)
      → Fresh t
      → ((update_tracker value t).1.sample_count ≡ t.sample_count + 1)
        × ((update_tracker value t).0.1 ≡ t.sample_count + 1)
        × ((update_tracker value t).1.initialized ≡ true)
  unfolding update_tracker
  update_tracker-count value t h = ground arith

  tracker_after :
      (device_id metric : String) (value : F) (s : StatisticalTrackers F) (key : String)
      → or_new s.alpha (lookup key (update device_id metric value s).1.trackers) ≡ (
          if series_key device_id metric == key
          then (update_tracker value
              (or_new s.alpha (lookup (series_key device_id metric) s.trackers))).1
          else or_new s.alpha (lookup key s.trackers))
  unfolding update
  tracker_after device_id metric value s key =
      ap (or_new s.alpha) (lookup-insert (series_key device_id metric) key _ s.trackers)
      ∙ ground arith

  Fresh-if :
      (b : Bool) (value : F) (t u : EwmaTracker F)
      → Fresh t
      → Fresh u
      → Fresh (if b then (update_tracker value t).1 else u)
  Fresh-if true value t u h k = ground (arith, update_tracker-count value t h)
  Fresh-if false value t u h k = k

  update-IsValid :
      (device_id metric : String) (value : F) (s : StatisticalTrackers F)
      → IsValid s
      → IsValid (update device_id metric value s).1
  unfolding update
  update-IsValid device_id metric value s v key =
      subst Fresh (sym (tracker_after device_id metric value s key)) (
        Fresh-if (series_key device_id metric == key) value _ _ (v (series_key device_id metric))
          (v key))

  counted :
      (k key : String) (value : F) (alpha : F) (d : Dict (EwmaTracker F))
      → Fresh (or_new alpha (lookup k d))
      → (if k == key
          then (update_tracker value (or_new alpha (lookup k d))).1
          else or_new alpha (lookup key d)).sample_count
        ≡ (if k == key
            then suc (or_new alpha (lookup key d)).sample_count
            else (or_new alpha (lookup key d)).sample_count)
  counted k key value alpha d h =
      ground (arith, eq_iff k key, update_tracker-count value (or_new alpha (lookup k d)) h)

  count_after :
      (device_id metric : String) (value : F) (s : StatisticalTrackers F) (key : String)
      → IsValid s
      → count_of key (update device_id metric value s).1
        ≡ (if series_key device_id metric == key then suc (count_of key s) else count_of key s)
  unfolding update
  count_after device_id metric value s key v =
      ap (λ t. t.sample_count) (tracker_after device_id metric value s key)
      ∙ counted (series_key device_id metric) key value s.alpha s.trackers
          (v (series_key device_id metric))

  add_up :
      (b : Bool) (n m k rest : ℕ)
      → n ≡ m + rest
      → m ≡ (if b then suc k else k)
      → n ≡ k + (if b then suc rest else rest)
  add_up b n m k rest h e = ground arith

  -- If a tracker that is not initialized has had no sample, then the sample count of a series
  -- grows by the number of its readings, whatever readings of other series stand between them.
  pub update_all-count :
      (readings : List (String × String × F)) (s : StatisticalTrackers F) (key : String)
      → IsValid s
      → count_of key (update_all readings s) ≡ count_of key s + of_series key readings
  update_all-count [] s key v = omega arith
  update_all-count ((device_id, metric, value) ∷ readings) s key v =
      let s' = (update device_id metric value s).1 in
      add_up (series_key device_id metric == key) (count_of key (update_all readings s'))
        (count_of key s') (count_of key s) (of_series key readings)
        (update_all-count readings s' key (update-IsValid device_id metric value s v))
        (count_after device_id metric value s key v)
