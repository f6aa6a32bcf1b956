-- ===== src/Api/Devices/Rotation.antt =====
-- A rotation of services/api/handlers_devices.py: the new secret is the device's only one.
use Prim.Native.String.{len}
use indu_sense.Base.{
  ◌≤◌, String, Bool, true, false, some, List, [], ◌∷◌, ◌++◌, map, ◌≡◌, ◌≢◌, refl, ap, ◌∙◌, arith,
  ◌==◌, eq_iff, any, filter, ltb, Bool-cases, inl, inr, append-nil,
}
use indu_sense.Auth.{Bcrypt, returned, hash_password, verify_password}
use indu_sense.Auth.Token.{Claims}
use indu_sense.Api.{success}
use indu_sense.Api.Devices.{
  Credential, Tables, is_in, is_active_of, deactivated_if, secret_of, replace_credential,
  rotate_credentials,
}

filter-append :
    (t : Credential → Bool) (xs ys : List Credential)
    → filter t (xs ++ ys) ≡ filter t xs ++ filter t ys
filter-append t [] ys = refl
filter-append t (x ∷ xs) ys = elim (Bool-cases (t x)) [
  | inl e ↦ rw e (ap (λ zs. x ∷ zs) (filter-append t xs ys))
  | inr e ↦ rw e (filter-append t xs ys)
]

module _ (id : String) where
  abbrev deactivated : List Credential → List Credential
  deactivated cs = map (deactivated_if (is_active_of id)) cs

  none_active : (cs : List Credential) → filter (is_active_of id) (deactivated cs) ≡ []
  none_active [] = refl
  none_active (c ∷ cs) = elim (Bool-cases (is_active_of id c)) [
    | inl e ↦ rw e (ground (arith, none_active cs))
    | inr e ↦ rw (e, e) (none_active cs)
  ]

  others_active :
      (other : String) (cs : List Credential)
      → other ≢ id
      → filter (is_active_of other) (deactivated cs) ≡ filter (is_active_of other) cs
  others_active other [] n = refl
  others_active other (c ∷ cs) n = elim (Bool-cases (is_active_of id c)) [
    | inl e ↦
        rw e (
          ground (arith, eq_iff c.device_id id, eq_iff c.device_id other, others_active other cs n))
    | inr e ↦ rw e (ground (arith, others_active other cs n))
  ]

  new_active :
      (hash : String) (cs : List Credential)
      → filter (is_active_of id) (deactivated cs ++ secret_of id hash ∷ []) ≡ secret_of id hash ∷ []
  new_active hash cs =
      let same : (id == id) ≡ true = (eq_iff id id).1 refl in
      filter-append (is_active_of id) (deactivated cs) (secret_of id hash ∷ [])
      ∙ rw (none_active cs, same)

  others_kept :
      (other hash : String) (cs : List Credential)
      → other ≢ id
      → filter (is_active_of other) (deactivated cs ++ secret_of id hash ∷ [])
        ≡ filter (is_active_of other) cs
  others_kept other hash cs n =
      let another : (id == other) ≡ false = ground (arith, eq_iff id other) in
      filter-append (is_active_of other) (deactivated cs) (secret_of id hash ∷ [])
      ∙ rw another (append-nil _ ∙ others_active other cs n)

hashed :
    (b : Bcrypt) (salt plain : String)
    → len plain ≤ 72
    → hash_password b salt plain ≡ returned (b.hashpw plain salt)
unfolding hash_password
hashed b salt plain h = let short : ltb 72 (len plain) ≡ false = ground arith in rw short

-- If the device is in the caller's organization and bcrypt verifies what it hashed, then a
-- rotation returns the new secret, which the one credential of the device that is active after it
-- verifies; the active credentials of every other device stay.
pub rotate_credentials-filter :
    (b : Bcrypt) (secret salt id : String) (claims : Claims) (t : Tables)
    → len secret ≤ 72
    → b.checkpw secret (b.hashpw secret salt) ≡ some true
    → any (is_in claims.organization_id id) t.devices ≡ true
    → let r = rotate_credentials b secret salt id claims t in
      let hash = b.hashpw secret salt in
      (r.0 ≡ success secret)
      × (verify_password b hash secret ≡ true)
      × (filter (is_active_of id) r.1.credentials ≡ secret_of id hash ∷ [])
      × ((other : String)
          → other ≢ id
          → filter (is_active_of other) r.1.credentials ≡ filter (is_active_of other) t.credentials)
unfolding rotate_credentials replace_credential verify_password
rotate_credentials-filter b secret salt id claims t short reads there =
    rw (there, hashed b salt secret short)
      (
        refl,
        rw reads,
        new_active id (b.hashpw secret salt) t.credentials,
        λ other n. others_kept id other (b.hashpw secret salt) t.credentials n,
      )
