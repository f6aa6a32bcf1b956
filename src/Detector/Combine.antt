-- ===== src/Detector/Combine.antt =====
-- The severity, the score and the methods of `combine_detections` of
-- services/anomaly-detector/detect.py.
use indu_sense.Base.{ℕ, ◌≤◌, ◌≡◌, ◌∙◌, false, List, [], ◌∷◌, ◌++◌, map, arith, All, append-nil}
use mathlib.Core.List.{append_assoc}
use indu_sense.Float.{Float, Comparison}
use indu_sense.Detector.{Detection, Combined, severity_rank, fold_in, fold_all, combine_detections}

module _ {F : Type 0} (f : Float F) (l : Comparison f) where
  fold_all-rank :
      (n : ℕ) (c : Combined F) (results : List (Detection F))
      → n ≤ severity_rank c.severity
      → n ≤ severity_rank (fold_all f c results).severity
  unfolding fold_all fold_in
  fold_all-rank n c [] h = h
  fold_all-rank n c (r ∷ results) h = fold_all-rank n (fold_in f c r) results (ground (arith, h))

  fold_all-ranks :
      (c : Combined F) (results : List (Detection F))
      → All (λ r. severity_rank r.severity ≤ severity_rank (fold_all f c results).severity) results
  unfolding fold_all fold_in
  fold_all-ranks c [] = tt
  fold_all-ranks c (r ∷ results) = (
    fold_all-rank (severity_rank r.severity) (fold_in f c r) results (ground arith),
    fold_all-ranks (fold_in f c r) results,
  )

  fold_all-score :
      (v : F) (c : Combined F) (results : List (Detection F))
      → f.lt c.score v ≡ false
      → f.lt (fold_all f c results).score v ≡ false
  unfolding fold_all fold_in
  fold_all-score v c [] h = h
  fold_all-score v c (r ∷ results) h =
      fold_all-score v (fold_in f c r) results (ground (arith, l.lt_trans c.score r.score v))

  fold_all-scores :
      (c : Combined F) (results : List (Detection F))
      → All (λ r. f.lt (fold_all f c results).score r.score ≡ false) results
  unfolding fold_all fold_in
  fold_all-scores c [] = tt
  fold_all-scores c (r ∷ results) = (
    fold_all-score r.score (fold_in f c r) results (ground (arith, l.lt_irrefl r.score)),
    fold_all-scores (fold_in f c r) results,
  )

  fold_all-methods :
      (c : Combined F) (results : List (Detection F))
      → (fold_all f c results).methods ≡ c.methods ++ map (λ r. r.method) results
  unfolding fold_all fold_in
  fold_all-methods c [] = simp (append-nil c.methods)
  fold_all-methods c (r ∷ results) =
      fold_all-methods (fold_in f c r) results
      ∙ append_assoc c.methods (r.method ∷ []) (map (λ x. x.method) results)

  -- If a comparison is irreflexive and transitive, then no detection is of a severity above the
  -- combined one, or of a score above the combined one, and the methods are those that fired, in
  -- order.
  pub combine_detections-worst :
      (results : List (Detection F))
      → All
          (λ r. severity_rank r.severity ≤ severity_rank (combine_detections f results).severity)
          results
        × (All (λ r. f.lt (combine_detections f results).score r.score ≡ false) results
            × ((combine_detections f results).methods ≡ map (λ r. r.method) results))
  unfolding combine_detections
  combine_detections-worst results =
      (fold_all-ranks _ results, (fold_all-scores _ results, fold_all-methods _ results))
