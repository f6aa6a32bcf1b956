-- ===== src/Detector/Forest.antt =====
-- services/anomaly-detector/isolationforest.py. A row that is shorter than a feature's index makes the
-- source raise `IndexError`; here it gives `none`. The generator of random numbers is its two answers
-- to each draw, and the depth that the logarithm gives, with the number of draws so far as its state.

pub mod Depth
use indu_sense.Base.{
  ℕ, zero, suc, ◌-◌, ◌*◌, Bool, true, false, ◌||◌, not, Option, none, some, List, [], ◌∷◌, ltb, leb,
  if◌then◌else◌, length,
}
use indu_sense.Float.{Float, number}

pub data TreeNode (F : Type 0) : Type 0 where
  leaf : ℕ → TreeNode F
  split : ℕ → F → TreeNode F → TreeNode F → TreeNode F

pub record IsolationForest (F : Type 0) : Type 0 where
  pub trees : List (TreeNode F)
  pub subsample_size : ℕ
  pub avg_path_norm_c : F

pub record Random (F : Type 0) : Type 0 where
  -- `randrange` of a bound, `random`, and `sample` of so many elements, at the given draw
  pub randrange : ℕ → ℕ → ℕ
  pub random : ℕ → F
  pub sample : ℕ → List (List F) → ℕ → List (List F)
  -- `math.ceil(math.log2(n))`
  pub ceil_log2 : ℕ → ℕ

module _ {F : Type 0} where
  -- `row[feature]`
  unfoldable pub at_index : List F → ℕ → Option F
  at_index [] i = none
  at_index (v ∷ row) zero = some v
  at_index (v ∷ row) (suc i) = at_index row i

  -- `[row for row in data if p(row[feature])]`
  unfoldable pub select : (F → Bool) → ℕ → List (List F) → List (List F)
  unfolding at_index
  select p feature [] = []
  select p feature (row ∷ data_) =
      let rest = select p feature data_ in
      elim (at_index row feature) [ none ↦ rest | some v ↦ if p v then row ∷ rest else rest ]

  -- whether every row has the feature
  unfoldable pub has_feature : ℕ → List (List F) → Bool
  unfolding at_index
  has_feature feature [] = true
  has_feature feature (row ∷ data_) = elim (at_index row feature) [
    | none ↦ false
    | some v ↦ has_feature feature data_
  ]

module _ {F : Type 0} (f : Float F) where
  -- `average_path_length_normalizer`
  unfoldable pub average_path_length_normalizer : ℕ → F
  average_path_length_normalizer n =
      if leb n 1
      then number f 0
      else if leb n 2
      then number f 1
      else f.sub
          (f.mul (number f 2) (f.add (f.log (number f (n - 1))) (f.ratio 5772156649 10000000000)))
          (f.div (number f (2 * (n - 1))) (number f n))

  next_node : Option F → F → Option F → Option F → Option F
  next_node none split_value left right = none
  next_node (some v) split_value left right = if f.lt v split_value then left else right

  unfoldable pub path_length : List F → TreeNode F → ℕ → Option F
  unfolding average_path_length_normalizer next_node
  path_length x (leaf size) depth =
      some (f.add (number f depth) (average_path_length_normalizer size))
  path_length x (split feature split_value left right) depth =
      let l = path_length x left (suc depth) in
      let r = path_length x right (suc depth) in next_node (at_index x feature) split_value l r

  add_path : Option F → Option F → Option F
  add_path (some total) (some p) = some (f.add total p)
  add_path (some total) none = none
  add_path none p = none

  total_path : List F → List (TreeNode F) → Option F → Option F
  unfolding path_length add_path
  total_path x [] total = total
  total_path x (t ∷ trees) total = total_path x trees (add_path total (path_length x t 0))

  of_total : IsolationForest F → Option F → Option F
  of_total forest none = none
  of_total forest (some total) = some (
      f.pow (number f 2)
        (f.div (f.neg (f.div total (number f (length forest.trees)))) forest.avg_path_norm_c))

  -- `x == 0` on floating-point numbers
  abbrev is_zero : F → Bool
  is_zero v = if f.le v (number f 0) then f.le (number f 0) v else false

  unfoldable pub score : IsolationForest F → List F → Option F
  unfolding total_path of_total
  score forest x =
      if leb (length forest.trees) 0 || is_zero forest.avg_path_norm_c
      then some (number f 0)
      else of_total forest (total_path x forest.trees (some (number f 0)))

  -- the loop of `_feature_range`, over rows that have the feature
  range_from : F → F → ℕ → List (List F) → F × F
  range_from lo hi feature [] = (lo, hi)
  range_from lo hi feature (row ∷ data_) = elim (at_index row feature) [
    | none ↦ (lo, hi)
    | some v ↦ range_from (if f.lt v lo then v else lo) (if f.lt hi v then v else hi) feature data_
  ]

  feature_range : ℕ → List (List F) → F × F
  unfolding range_from
  feature_range feature [] = (number f 0, number f 0)
  feature_range feature (row ∷ data_) = elim (at_index row feature) [
    | none ↦ (number f 0, number f 0)
    | some v ↦ range_from v v feature (row ∷ data_)
  ]

  -- What one try of the loop in `_build_tree` does, after `i` draws: it goes on, raises, or splits.
  pub data Try : Type 0 where
    next : ℕ → Try
    index_error : Try
    splits : ℕ → F → ℕ → Try

  is_empty : List (List F) → Bool
  is_empty [] = true
  is_empty (row ∷ data_) = false

  -- the rows on the two sides of a split
  abbrev pub left_of : ℕ → F → List (List F) → List (List F)
  left_of feature v data_ = select (λ u. f.lt u v) feature data_

  abbrev pub right_of : ℕ → F → List (List F) → List (List F)
  right_of feature v data_ = select (λ u. f.le v u) feature data_

  try_feature : Random F → List (List F) → ℕ → ℕ → Try
  unfolding has_feature feature_range select is_empty
  try_feature rng data_ i feature =
      let (lo, hi) = feature_range feature data_ in
      let v = f.add lo (f.mul (rng.random (suc i)) (f.sub hi lo)) in
      if not (has_feature feature data_)
      then index_error
      else if (if f.le lo hi then f.le hi lo else false)
      then next (suc i)
      else if is_empty (left_of feature v data_) || is_empty (right_of feature v data_)
      then next (suc (suc i))
      else splits feature v (suc (suc i))

  after_try : Try → (ℕ → Try) → Try
  after_try (next i) more = more i
  after_try index_error more = index_error
  after_try (splits feature v i) more = splits feature v i

  -- the loop, with so many tries left
  find_split : Random F → ℕ → ℕ → List (List F) → ℕ → Try
  unfolding try_feature after_try
  find_split rng num_features zero data_ i = next i
  find_split rng num_features (suc tries) data_ i =
      after_try (try_feature rng data_ i (rng.randrange i num_features))
        (λ j. find_split rng num_features tries data_ j)

  -- `len(data[0])`
  width : List (List F) → ℕ
  width [] = 0
  width (row ∷ data_) = length row

  abbrev pub Grown : Type 0
  Grown = Option (TreeNode F × ℕ)

  -- the node of a split, given how its right side grows
  joined : ℕ → F → TreeNode F → Grown → Grown
  joined feature v l none = none
  joined feature v l (some (r, n)) = some (split feature v l r, n)

  -- the right side grows after the left
  right_side : ℕ → F → Grown → (ℕ → Grown) → Grown
  unfolding joined
  right_side feature v none grow_right = none
  right_side feature v (some (l, k)) grow_right = joined feature v l (grow_right k)

  -- what follows the loop, where `grow` builds a tree one level deeper
  after_split : Try → List (List F) → (List (List F) → ℕ → Grown) → Grown
  unfolding right_side
  after_split (next j) data_ grow = some (leaf (length data_), j)
  after_split index_error data_ grow = none
  after_split (splits feature v j) data_ grow =
      right_side feature v (grow (left_of feature v data_) j)
        (λ k. grow (right_of feature v data_) k)

  -- The first argument is what is left of `max_depth`; the tree comes with the number of draws.
  unfoldable pub build_tree : Random F → ℕ → List (List F) → ℕ → Grown
  unfolding find_split width after_split
  build_tree rng zero data_ i = some (leaf (length data_), i)
  build_tree rng (suc left_depth) data_ i =
      if leb (length data_) 1
      then some (leaf (length data_), i)
      else after_split (find_split rng (width data_) (width data_) data_ i) data_
          (λ rows j. build_tree rng left_depth rows j)

  sample_without_replacement : Random F → List (List F) → ℕ → ℕ → List (List F)
  sample_without_replacement rng data_ n i =
      if leb (length data_) n then data_ else rng.sample i data_ n

  grow : Random F → ℕ → ℕ → ℕ → List (List F) → ℕ → Option (List (TreeNode F))
  unfolding build_tree sample_without_replacement
  grow rng zero max_depth size data_ i = some []
  grow rng (suc num_trees) max_depth size data_ i =
      elim (build_tree rng max_depth (sample_without_replacement rng data_ size i) (suc i)) [
        | none ↦ none
        | some (t, j) ↦ elim (grow rng num_trees max_depth size data_ j) [
          | none ↦ none
          | some trees ↦ some (t ∷ trees)
        ]
      ]

  abbrev at_least_two : ℕ → ℕ
  at_least_two n = if ltb n 2 then 2 else n

  unfoldable pub fit_isolation_forest :
      Random F → ℕ → ℕ → List (List F) → Option (IsolationForest F)
  unfolding grow average_path_length_normalizer
  fit_isolation_forest rng num_trees subsample_size data_ =
      let size = if ltb (length data_) subsample_size then length data_ else subsample_size in
      elim (grow rng num_trees (rng.ceil_log2 (at_least_two size)) size data_ 0) [
        | none ↦ none
        | some trees ↦ some (record {
          trees = trees;
          subsample_size = size;
          avg_path_norm_c = average_path_length_normalizer size;
        })
      ]
