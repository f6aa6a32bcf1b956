-- ===== src/Detector/Features.antt =====
-- services/anomaly-detector/featurestore.py.
use indu_sense.Base.{
  ℕ, ◌-◌, ◌≤◌, String, ◌≡◌, refl, sym, subst, ap, ◌∙◌, Bool, true, false, Option, none, some, List,
  [], ◌∷◌, ◌++◌, map, arith, if◌then◌else◌, ltb, length, drop, length-drop, ◌==◌, eq_iff,
}
use indu_sense.Base.Dict.{Dict, lookup, insert, lookup-insert}

pub record FeatureStore (F : Type 0) : Type 0 where
  pub latest : Dict (Dict F)
  pub training_data : Dict (List (List F))
  pub buffer_size : ℕ

abbrev pub or_empty {ℓ} : {A : Type ℓ} → Option (List A) → List A
or_empty none = []
or_empty (some xs) = xs

just_inserted : {V : Type 0} (k : String) (v : V) (d : Dict V) → lookup k (insert k v d) ≡ some v
just_inserted k v d = lookup-insert k k v d ∙ ground (arith, eq_iff k k)

module _ {F : Type 0} where
  with_feature : Option F → Option (List F) → Option (List F)
  with_feature (some v) (some vector) = some (v ∷ vector)
  with_feature (some v) none = none
  with_feature none rest = none

  -- the values of the features, if there is one for each
  unfoldable pub assemble : Dict F → List String → Option (List F)
  unfolding with_feature
  assemble values [] = some []
  assemble values (m ∷ ms) = with_feature (lookup m values) (assemble values ms)

  -- `del buf[: len(buf) - self._buffer_size]` if the buffer is too long
  unfoldable pub cut : ℕ → List (List F) → List (List F)
  cut size buf = if ltb size (length buf) then drop (length buf - size) buf else buf

  remembered : String → Option (List F) → FeatureStore F → Option (List F) × FeatureStore F
  unfolding cut
  remembered machine_type none s = (none, s)
  remembered machine_type (some vector) s =
      let buf = or_empty (lookup machine_type s.training_data) ++ vector ∷ [] in
      (
        some vector,
        record s { training_data = insert machine_type (cut s.buffer_size buf) s.training_data },
      )

  -- an empty feature order gives no vector
  abbrev vector_of : Dict F → List String → Option (List F)
  vector_of values [] = none
  vector_of values (m ∷ ms) = assemble values (m ∷ ms)

  unfoldable pub observe :
      String → String → String → F → List String → FeatureStore F → Option (List F) × FeatureStore F
  unfolding assemble remembered
  observe device_id machine_type metric value feature_order s =
      let values = insert metric value (or_empty (lookup device_id s.latest)) in
      remembered machine_type (vector_of values feature_order)
        (record s { latest = insert device_id values s.latest })

  -- no training buffer is longer than the size given
  abbrev pub IsBounded : FeatureStore F → Type 0
  IsBounded s = (t : String) → length (or_empty (lookup t s.training_data)) ≤ s.buffer_size

  length-cut : (size : ℕ) (buf : List (List F)) → length (cut size buf) ≤ size
  unfolding cut
  length-cut size buf = ground (arith, length-drop (length buf - size) buf)

  remembered-IsBounded :
      (machine_type : String) (o : Option (List F)) (s : FeatureStore F)
      → IsBounded s
      → IsBounded (remembered machine_type o s).1
  unfolding remembered
  remembered-IsBounded machine_type none s b t = b t
  remembered-IsBounded machine_type (some vector) s b t =
      let buf = or_empty (lookup machine_type s.training_data) ++ vector ∷ [] in
      subst (λ o. length (or_empty o) ≤ s.buffer_size)
        (sym (lookup-insert machine_type t (cut s.buffer_size buf) s.training_data))
        (either (machine_type == t) (cut s.buffer_size buf) (lookup t s.training_data)
          (length-cut s.buffer_size buf) (b t))
    where
      either :
          (c : Bool) (xs : List (List F)) (o : Option (List (List F)))
          → length xs ≤ s.buffer_size
          → length (or_empty o) ≤ s.buffer_size
          → length (or_empty (if c then some xs else o)) ≤ s.buffer_size
      either true xs o h k = h
      either false xs o h k = k

  -- An observation keeps every training buffer within its size.
  pub observe-IsBounded :
      (device_id machine_type metric : String) (value : F) (feature_order : List String)
      (s : FeatureStore F)
      → IsBounded s
      → IsBounded (observe device_id machine_type metric value feature_order s).1
  unfolding observe
  observe-IsBounded device_id machine_type metric value feature_order s b =
      remembered-IsBounded machine_type _ _ b

  by_parts :
      (values : Dict F) (m : String) (ms : List String) (vector : List F) (o : Option F)
      (rest : Option (List F))
      → lookup m values ≡ o
      → ((vs : List F) → rest ≡ some vs → map (λ k. lookup k values) ms ≡ map (λ v. some v) vs)
      → with_feature o rest ≡ some vector
      → lookup m values ∷ map (λ k. lookup k values) ms ≡ map (λ v. some v) vector
  unfolding with_feature
  by_parts values m ms vector none rest e tail h = cc
  by_parts values m ms vector (some v) none e tail h = cc
  by_parts values m ms vector (some v) (some vs) e tail h =
      let whole : lookup m values ∷ map (λ j. lookup j values) ms ≡ some v ∷ map (λ u. some u) vs =
        ap (λ o. o ∷ map (λ j. lookup j values) ms) e ∙ ap (λ r. some v ∷ r) (tail vs refl) in
      let same : v ∷ vs ≡ vector = cc in whole ∙ ap (map (λ u. some u)) same

  assemble-values :
      (values : Dict F) (ms : List String) (vector : List F)
      → assemble values ms ≡ some vector
      → map (λ m. lookup m values) ms ≡ map (λ v. some v) vector
  unfolding assemble
  assemble-values values [] vector h = ground arith
  assemble-values values (m ∷ ms) vector h =
      by_parts values m ms vector (lookup m values) (assemble values ms) refl
        (assemble-values values ms) h

  vector_of-values :
      (values : Dict F) (ms : List String) (vector : List F)
      → vector_of values ms ≡ some vector
      → map (λ m. lookup m values) ms ≡ map (λ v. some v) vector
  vector_of-values values [] vector h = cc
  vector_of-values values (m ∷ ms) vector h = assemble-values values (m ∷ ms) vector h

  -- what the store remembers of a device
  abbrev pub latest_of : String → FeatureStore F → Dict F
  latest_of device_id s = or_empty (lookup device_id s.latest)

  remembered-latest :
      (machine_type : String) (o : Option (List F)) (s : FeatureStore F)
      → ((remembered machine_type o s).0 ≡ o) × ((remembered machine_type o s).1.latest ≡ s.latest)
  unfolding remembered
  remembered-latest machine_type none s = (refl, refl)
  remembered-latest machine_type (some vector) s = (refl, refl)

  stored : (k : String) (v : Dict F) (d : Dict (Dict F)) → or_empty (lookup k (insert k v d)) ≡ v
  stored k v d = ap or_empty (just_inserted k v d)

  -- After an observation the store has the reading as the latest of its metric; a vector that it
  -- returns has the latest value of each feature, in the order of the features.
  pub observe-vector :
      (device_id machine_type metric : String) (value : F) (feature_order : List String)
      (s : FeatureStore F)
      → let r = observe device_id machine_type metric value feature_order s in
        (lookup metric (latest_of device_id r.1) ≡ some value)
        × ((vector : List F)
            → r.0 ≡ some vector
            → map (λ m. lookup m (latest_of device_id r.1)) feature_order
              ≡ map (λ v. some v) vector)
  unfolding observe
  observe-vector device_id machine_type metric value feature_order s =
      let values = insert metric value (latest_of device_id s) in
      let o = vector_of values feature_order in
      let s' = record s { latest = insert device_id values s.latest } in
      let latest : latest_of device_id (remembered machine_type o s').1 ≡ values =
        ap (λ d. or_empty (lookup device_id d)) (remembered-latest machine_type o s').1
        ∙ stored device_id values s.latest in
      (
        ap (lookup metric) latest ∙ just_inserted metric value (latest_of device_id s),
        λ vector h.
            ap (λ d. map (λ m. lookup m d) feature_order) latest
            ∙ vector_of-values values feature_order vector
                (sym (remembered-latest machine_type o s').0 ∙ h),
      )
