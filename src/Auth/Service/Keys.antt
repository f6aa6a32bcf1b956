-- ===== src/Auth/Service/Keys.antt =====
-- The keys of Redis under the statements of `Service` in shared/auth.py: a key that is gone stays
-- gone while only others are set.
use indu_sense.Base.{
  ℕ, String, Bool, true, false, if◌then◌else◌, not, Option, List, [], ◌∷◌, ◌≡◌, ◌≢◌, refl, ◌∙◌,
  arith, ◌==◌, eq_iff, any, filter, Bool-cases, inl, inr, any-append,
}
use text.Mathlib.TextLemmas.{append_cancel_left, append_cancel_right}
use indu_sense.Audit.{Datum}
use indu_sense.Auth.{Outcome, returned, raised, unavailable}
use indu_sense.Auth.Service.{
  Given, Stores, RefreshKey, refresh_redis_key, is_live, set_key, delete_key, log_auth, Service,
  TokenPair, roles_for_user, issue_pair, issue,
}

abbrev pub has_key : String → RefreshKey → Bool
has_key key r = r.key == key

-- Redis has no such key, expired or not
abbrev pub IsGone : String → Stores → Type 0
IsGone key s = any (has_key key) s.refresh_keys ≡ false

any-filter :
    (p q : RefreshKey → Bool) (keys : List RefreshKey)
    → any p keys ≡ false
    → any p (filter q keys) ≡ false
any-filter p q [] h = h
any-filter p q (r ∷ keys) h = ground (arith, any-filter p q keys)

none_kept :
    (p : RefreshKey → Bool) (keys : List RefreshKey) → any p (filter (λ r. not (p r)) keys) ≡ false
none_kept p [] = refl
none_kept p (r ∷ keys) = ground (arith, none_kept p keys)

pub refresh_redis_key-inj : (a b : String) → refresh_redis_key a ≡ refresh_redis_key b → a ≡ b
refresh_redis_key-inj a b h = append_cancel_right a b "" (append_cancel_left "refresh_token:" _ _ h)

pub delete_key-IsGone :
    (now : ℕ) (key other : String) (keys : List RefreshKey)
    → any (has_key key) keys ≡ false
    → any (has_key key) (delete_key now other keys).1 ≡ false
unfolding delete_key
delete_key-IsGone now key other keys h = any-filter (has_key key) _ keys h

pub delete_key-gone :
    (now : ℕ) (key : String) (keys : List RefreshKey)
    → any (has_key key) (delete_key now key keys).1 ≡ false
unfolding delete_key
delete_key-gone now key keys = none_kept (has_key key) keys

pub set_key-IsGone :
    (now : ℕ) (key other user_id : String) (ex : ℕ) (keys : List RefreshKey)
    → other ≢ key
    → any (has_key key) keys ≡ false
    → any (has_key key) (set_key now other user_id ex keys) ≡ false
unfolding set_key
set_key-IsGone now key other user_id ex keys n h =
    any-append (has_key key) (filter (λ r. not (r.key == other)) keys) _
    ∙ ground (arith, any-filter (has_key key) (λ r. not (r.key == other)) keys h, eq_iff other key)

pub log_auth-IsGone :
    (g : Given) (org user : Option String) (action result ip : String) (m : List (String × Datum))
    (key : String) (s : Stores)
    → IsGone key s
    → IsGone key (log_auth g org user action result ip m s)
unfolding log_auth
log_auth-IsGone g org user action result ip m key s h = elim (Bool-cases g.audit_fails) [
  | inl e ↦ rw e h
  | inr e ↦ rw e h
]

pub not_live :
    (now : ℕ) (key : String) (keys : List RefreshKey)
    → any (has_key key) keys ≡ false
    → any (is_live now key) keys ≡ false
not_live now key [] h = h
not_live now key (r ∷ keys) h = ground (arith, not_live now key keys)

-- What holds before and after the pair is stored holds however its issue ends.
pub issue_keeps :
    (P : Stores → Type 0) (v : Service) (g : Given) (user_id org_id email : String) (s : Stores)
    → P s
    → P (issue_pair v g user_id org_id email (roles_for_user user_id s) s).1
    → P (issue v g user_id org_id email s).1
unfolding issue
issue_keeps P v g user_id org_id email s before after =
    by_case g.roles_fail g.set_fails g.set_stored
  where
    issued : TokenPair × Stores
    issued = issue_pair v g user_id org_id email (roles_for_user user_id s) s

    outcome : Bool → Bool → Bool → Outcome TokenPair × Stores
    outcome roles_fail set_fails set_stored =
        if roles_fail
        then (raised unavailable, s)
        else if set_fails
        then (raised unavailable, if set_stored then issued.1 else s)
        else (returned issued.0, issued.1)

    by_case : (a b c : Bool) → P (outcome a b c).1
    by_case true b c = before
    by_case false true true = after
    by_case false true false = before
    by_case false false c = after

-- A fresh key is another one.
abbrev pub IsFresh : String → Given → Type 0
IsFresh jti g = g.refresh_jti ≢ jti
