-- ===== src/Detector/Forest/Depth.antt =====
-- How deep the trees of services/anomaly-detector/isolationforest.py are.
use indu_sense.Base.{
  ℕ, zero, suc, ◌≤◌, ◌≡◌, refl, subst, Bool, true, false, none, some, List, arith, leb,
  if◌then◌else◌, length,
}
use indu_sense.Float.{Float}
use indu_sense.Detector.Forest.{
  TreeNode, leaf, split, Random, Try, next, index_error, splits, left_of, right_of, Grown, joined,
  right_side, after_split, build_tree,
}

-- the number of splits on the longest path
abbrev pub height : {F : Type 0} → TreeNode F → ℕ
height (leaf size) = 0
height (split feature v l r) =
    let a = height l in let b = height r in suc (if leb a b then b else a)

module _ {F : Type 0} (f : Float F) where
  -- whatever grows is at most so high
  abbrev Within : ℕ → Grown f → Type 0
  Within d g = (t : TreeNode F) (j : ℕ) → g ≡ some (t, j) → height t ≤ d

  joined-Within :
      (feature : ℕ) (v : F) (l : TreeNode F) (d : ℕ) (g : Grown f)
      → height l ≤ d
      → Within d g
      → Within (suc d) (joined f feature v l g)
  unfolding joined
  joined-Within feature v l d none h w t j e = cc
  joined-Within feature v l d (some (r, n)) h w t j e =
      let hr = w r n refl in
      let same : split feature v l r ≡ t = cc in
      subst (λ z. height z ≤ suc d) same (ground (arith, h, hr))

  right_side-Within :
      (feature : ℕ) (v : F) (d : ℕ) (g : Grown f) (grow : ℕ → Grown f)
      → Within d g
      → ((k : ℕ) → Within d (grow k))
      → Within (suc d) (right_side f feature v g grow)
  unfolding right_side
  right_side-Within feature v d none grow w ws = λ t j e. cc
  right_side-Within feature v d (some (l, k)) grow w ws =
      joined-Within feature v l d (grow k) (w l k refl) (ws k)

  leaf-Within : (d size i : ℕ) → Within d (some (leaf size, i))
  leaf-Within d size i t j e =
      let same : leaf size ≡ t = cc in subst (λ z. height z ≤ d) same (omega arith)

  after_split-Within :
      (d : ℕ) (r : Try f) (rows : List (List F)) (grow : List (List F) → ℕ → Grown f)
      → ((xs : List (List F)) (k : ℕ) → Within d (grow xs k))
      → Within (suc d) (after_split f r rows grow)
  unfolding after_split
  after_split-Within d (next j) rows grow w = leaf-Within (suc d) (length rows) j
  after_split-Within d index_error rows grow w = λ t j e. cc
  after_split-Within d (splits feature v j) rows grow w =
      right_side-Within feature v d _ _ (w (left_of f feature v rows) j)
        (λ k. w (right_of f feature v rows) k)

  if-Within :
      (b : Bool) (d : ℕ) (g h : Grown f) → Within d g → Within d h → Within d (if b then g else h)
  if-Within true d g h v w = v
  if-Within false d g h v w = w

  -- A tree that _build_tree returns has no path with more splits than the maximal depth.
  pub height-build_tree :
      (rng : Random F) (max_depth : ℕ) (rows : List (List F)) (i : ℕ) (t : TreeNode F) (j : ℕ)
      → build_tree f rng max_depth rows i ≡ some (t, j)
      → height t ≤ max_depth
  unfolding build_tree
  height-build_tree rng zero rows i = leaf-Within 0 (length rows) i
  height-build_tree rng (suc d) rows i =
      if-Within (leb (length rows) 1) (suc d) _ _ (leaf-Within (suc d) (length rows) i)
        (after_split-Within d _ rows _ (λ xs k. height-build_tree rng d xs k))
