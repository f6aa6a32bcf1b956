-- ===== src/Detector/Trainer.antt =====
-- services/anomaly-detector/forestregistry.py, and what featurestore.py gives it. An `IndexError` of
-- the training ends the thread; the forests that have been set stay. The features stay as they are
-- during a round.
use indu_sense.Base.{
  ℕ, String, Bool, true, false, Option, none, some, List, [], ◌∷◌, ltb, if◌then◌else◌, length, map,
}
use indu_sense.Base.Dict.{Dict, lookup, insert}
use indu_sense.Float.{Float}
use indu_sense.Detector.Features.{FeatureStore, or_empty}
use indu_sense.Detector.Forest.{IsolationForest, Random, fit_isolation_forest}

abbrev pub min_training_samples : ℕ
min_training_samples = 60

module _ {F : Type 0} where
  unfoldable pub training_snapshot : String → FeatureStore F → List (List F)
  training_snapshot machine_type s = or_empty (lookup machine_type s.training_data)

  unfoldable pub machine_types_with_data : FeatureStore F → List String
  machine_types_with_data s = map (λ entry. entry.0) s.training_data

  -- `set` of the registry, for a forest that was fitted
  abbrev set_if :
      String
      → Option (IsolationForest F)
      → Dict (IsolationForest F)
      → Bool × Dict (IsolationForest F)
  set_if machine_type none forests = (false, forests)
  set_if machine_type (some forest) forests = (true, insert machine_type forest forests)

module _ {F : Type 0} (f : Float F) (rng : String → Random F) (num_trees subsample_size : ℕ) where
  -- one machine type; whether the thread goes on
  unfoldable pub train :
      String → FeatureStore F → Dict (IsolationForest F) → Bool × Dict (IsolationForest F)
  unfolding training_snapshot
  train machine_type s forests =
      let data_ = training_snapshot machine_type s in
      if ltb (length data_) min_training_samples
      then (true, forests)
      else set_if machine_type
          (fit_isolation_forest f (rng machine_type) num_trees subsample_size data_) forests

  unfoldable pub train_each :
      List String
      → FeatureStore F
      → Bool × Dict (IsolationForest F)
      → Bool × Dict (IsolationForest F)
  unfolding train
  train_each types s (false, forests) = (false, forests)
  train_each [] s (true, forests) = (true, forests)
  train_each (t ∷ types) s (true, forests) = train_each types s (train t s forests)

  -- one round of `run_forest_trainer`
  unfoldable pub train_round :
      FeatureStore F → Dict (IsolationForest F) → Bool × Dict (IsolationForest F)
  unfolding train_each machine_types_with_data
  train_round s forests = train_each (machine_types_with_data s) s (true, forests)
