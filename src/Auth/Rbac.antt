-- ===== src/Auth/Rbac.antt =====
-- What the roles of shared/auth.py come to: the union of their permissions, each of them once.
use indu_sense.Base.{
  String, ◌≡◌, refl, false, ◌||◌, List, [], ◌∷◌, ◌++◌, any, mem, arith, eq_iff, Bool-cases, inl,
  inr,
}
use indu_sense.Auth.{add_unseen, granted_to, add_roles, permissions_for_roles}

-- no text stands twice
abbrev pub NoDuplicates : List String → Type 0
NoDuplicates [] = Unit
NoDuplicates (x ∷ xs) = (mem x xs ≡ false) × NoDuplicates xs

mem-append : (p : String) (xs ys : List String) → mem p (xs ++ ys) ≡ (mem p xs || mem p ys)
mem-append p [] ys = refl
mem-append p (x ∷ xs) ys = ground (arith, mem-append p xs ys)

NoDuplicates-append_new :
    (x : String) (xs : List String)
    → mem x xs ≡ false
    → NoDuplicates xs
    → NoDuplicates (xs ++ x ∷ [])
NoDuplicates-append_new x [] h d = (refl, tt)
NoDuplicates-append_new x (y ∷ ys) h d = (
  ground (arith, eq_iff x y, eq_iff y x, mem-append y ys (x ∷ [])),
  NoDuplicates-append_new x ys (ground arith) d.1,
)

mem-add_unseen :
    (p : String) (perms out : List String)
    → mem p (add_unseen perms out) ≡ (mem p out || mem p perms)
unfolding add_unseen
mem-add_unseen p [] out = ground arith
mem-add_unseen p (q ∷ perms) out = elim (Bool-cases (mem q out)) [
  | inl old ↦ rw old (ground (arith, eq_iff p q, mem-add_unseen p perms out))
  | inr new ↦
      rw new (ground (arith, mem-add_unseen p perms (out ++ q ∷ []), mem-append p out (q ∷ [])))
]

add_unseen-NoDuplicates :
    (perms out : List String) → NoDuplicates out → NoDuplicates (add_unseen perms out)
unfolding add_unseen
add_unseen-NoDuplicates [] out d = d
add_unseen-NoDuplicates (q ∷ perms) out d = elim (Bool-cases (mem q out)) [
  | inl old ↦ rw old (add_unseen-NoDuplicates perms out d)
  | inr new ↦
      rw new (add_unseen-NoDuplicates perms (out ++ q ∷ []) (NoDuplicates-append_new q out new d))
]

mem-add_roles :
    (p : String) (roles out : List String)
    → mem p (add_roles roles out) ≡ (mem p out || any (λ role. mem p (granted_to role)) roles)
unfolding add_roles
mem-add_roles p [] out = ground arith
mem-add_roles p (r ∷ roles) out = ground (
  arith,
  mem-add_roles p roles (add_unseen (granted_to r) out),
  mem-add_unseen p (granted_to r) out,
)

add_roles-NoDuplicates :
    (roles out : List String) → NoDuplicates out → NoDuplicates (add_roles roles out)
unfolding add_roles
add_roles-NoDuplicates [] out d = d
add_roles-NoDuplicates (r ∷ roles) out d =
    add_roles-NoDuplicates roles (add_unseen (granted_to r) out)
      (add_unseen-NoDuplicates (granted_to r) out d)

pub mem-permissions_for_roles :
    (p : String) (roles : List String)
    → mem p (permissions_for_roles roles) ≡ any (λ role. mem p (granted_to role)) roles
unfolding permissions_for_roles
mem-permissions_for_roles p roles = mem-add_roles p roles []

-- permissions_for_roles has exactly the permissions that some of the roles grants, each once.
pub permissions_for_roles-union :
    (roles : List String)
    → ((p : String)
        → mem p (permissions_for_roles roles) ≡ any (λ role. mem p (granted_to role)) roles)
      × NoDuplicates (permissions_for_roles roles)
unfolding permissions_for_roles
permissions_for_roles-union roles =
    (λ p. mem-add_roles p roles [], add_roles-NoDuplicates roles [] tt)
