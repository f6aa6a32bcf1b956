-- ===== src/Auth/Service/Login.antt =====
-- `login` and `refresh_access_token` of shared/auth.py: what is audited, what is handed out, and how
-- many refresh tokens live.
use indu_sense.Base.{
  ℕ, ◌+◌, ◌/◌, ◌≤◌, String, true, false, not, Option, none, some, List, [], ◌∷◌, ◌++◌, ◌≡◌, subst,
  sym, if◌then◌else◌, refl, arith, ◌==◌, any, find, filter, length, Bool-cases, inl, inr,
  length-append, length-filter,
}
use indu_sense.Audit.{Datum, Entry, log}
use indu_sense.Auth.{Outcome, returned, raised, unavailable, verify_password}
use indu_sense.Auth.Token.{Claims}
use indu_sense.Auth.Service.Keys.{issue_keeps}
use indu_sense.Auth.Service.{
  Service, Given, Stores, RefreshKey, User, TokenPair, refresh_redis_key, is_live, set_key,
  delete_key, log_auth, issue_pair, issue, audited_login, failed_login, login_as, login_found,
  login, rotated, refresh_with, without_key, refresh_access_token,
}

-- the verdict in the audit log
abbrev pub verdict : Outcome TokenPair → String
verdict (returned p) = "SUCCESS"
verdict (raised e) = "FAILURE"

-- The keys of Redis are as before if the login fails.
abbrev pub KeepsKeysOnFailure : Stores → Outcome TokenPair × Stores → Type 0
KeepsKeysOnFailure s (returned p, after) = Unit
KeepsKeysOnFailure s (raised e, after) = after.refresh_keys ≡ s.refresh_keys

-- One row of the log tells of the attempt.
abbrev pub IsAudited : Stores → Outcome TokenPair × Stores → Type 0
IsAudited s r =
    (e : Entry) × (r.1.audit_logs ≡ s.audit_logs ++ e ∷ [])
    × (e.action ≡ "user.login")
    × (e.result ≡ verdict r.0)

login_found-IsAudited :
    (v : Service) (g : Given) (u : Option User) (email password ip : String) (s : Stores)
    → g.audit_fails ≡ false
    → g.roles_fail ≡ false
    → g.set_fails ≡ false
    → IsAudited s (login_found v g u email password ip s)
      × KeepsKeysOnFailure s (login_found v g u email password ip s)
unfolding login_found failed_login login_as audited_login log_auth log issue issue_pair
login_found-IsAudited v g none email password ip s h k f = rw h ((_, refl, refl, refl), refl)
login_found-IsAudited v g (some u) email password ip s h k f =
    elim (Bool-cases (verify_password v.bcrypt u.password_hash password)) [
      | inl e ↦ rw e (elim (Bool-cases u.is_active) [
        | inl a ↦ rw (a, k, f, h) ((_, refl, refl, refl), tt)
        | inr a ↦ rw (a, h) ((_, refl, refl, refl), refl)
      ])
      | inr e ↦ rw (e, h) ((_, refl, refl, refl), refl)
    ]

-- If the queries on users and roles and the SET of the refresh token are answered, and the audit
-- log can be written, then a login adds exactly one entry to it, a success if it returns and a
-- failure if it raises; one that raises leaves the refresh tokens as they were.
pub login-IsAudited :
    (v : Service) (g : Given) (email password ip_address : String) (s : Stores)
    → g.audit_fails ≡ false
    → g.users_fail ≡ false
    → g.roles_fail ≡ false
    → g.set_fails ≡ false
    → IsAudited s (login v g email password ip_address s)
      × KeepsKeysOnFailure s (login v g email password ip_address s)
unfolding login
login-IsAudited v g email password ip s h w k f =
    subst
      (λ b.
        let r : Outcome TokenPair × Stores =
          if b
          then (raised unavailable, s)
          else login_found v g (find (λ u. u.email == email) s.users) email password ip s in
        IsAudited s r × KeepsKeysOnFailure s r)
      (sym w) (login_found-IsAudited v g _ email password ip s h k f)

length-filter_live :
    (now : ℕ) (key : String) (keys : List RefreshKey)
    → any (is_live now key) keys ≡ true
    → length (filter (λ r. not (r.key == key)) keys) + 1 ≤ length keys
length-filter_live now key [] h = ground arith
length-filter_live now key (r ∷ keys) h =
    ground (arith, length-filter_live now key keys, length-filter (λ r. not (r.key == key)) keys)

length-set_key :
    (now : ℕ) (key user_id : String) (ex : ℕ) (keys : List RefreshKey)
    → length (set_key now key user_id ex keys) ≤ length keys + 1
unfolding set_key
length-set_key now key user_id ex keys = omega (
  arith,
  length-append (filter (λ r. not (r.key == key)) keys)
      (record { key = key; user_id = user_id; expires_at = _ } ∷ []),
  length-filter (λ r. not (r.key == key)) keys,
)

log_auth-keys :
    (g : Given) (org user : Option String) (action result ip : String) (m : List (String × Datum))
    (s : Stores)
    → (log_auth g org user action result ip m s).refresh_keys ≡ s.refresh_keys
unfolding log_auth
log_auth-keys g org user action result ip m s = elim (Bool-cases g.audit_fails) [
  | inl e ↦ rw e
  | inr e ↦ rw e
]

-- A presented token is deleted before a new key is set.
length-rotated :
    (v : Service) (g : Given) (c : Claims) (ip : String) (s : Stores)
    → let d = without_key g c s in
      length (rotated v g c ip d.0 d.1).1.refresh_keys ≤ length s.refresh_keys
unfolding rotated delete_key issue_pair
length-rotated v g c ip s =
    let key = refresh_redis_key c.jti in
    elim (Bool-cases (any (is_live g.now key) s.refresh_keys)) [
      | inl e ↦ rw e (
          issue_keeps (λ t. length t.refresh_keys ≤ length s.refresh_keys) v g c.user_id
            c.organization_id c.email (without_key g c s).1
            (omega (arith, length-filter_live g.now key s.refresh_keys e))
            (omega (
              arith,
              length-filter_live g.now key s.refresh_keys e,
              length-set_key g.now (refresh_redis_key g.refresh_jti) c.user_id
                  (v.refresh_ttl / 1000000) (filter (λ r. not (r.key == key)) s.refresh_keys),
            )))
      | inr e ↦ rw (e, log_auth-keys) (length-filter (λ r. not (r.key == key)) s.refresh_keys)
    ]

length-refresh_with :
    (v : Service) (g : Given) (o : Outcome Claims) (ip : String) (s : Stores)
    → length (refresh_with v g o ip s).1.refresh_keys ≤ length s.refresh_keys
unfolding refresh_with
length-refresh_with v g (raised e) ip s = omega arith
length-refresh_with v g (returned c) ip s = length-rotated v g c ip s

-- A refresh does not add to the number of the refresh tokens that Redis holds.
pub length-refresh_access_token :
    (v : Service) (g : Given) (token ip_address : String) (s : Stores)
    → length (refresh_access_token v g token ip_address s).1.refresh_keys ≤ length s.refresh_keys
unfolding refresh_access_token
length-refresh_access_token v g token ip s = length-refresh_with v g _ ip s
