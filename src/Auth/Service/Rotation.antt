-- ===== src/Auth/Service/Rotation.antt =====
-- Refresh tokens over the life of `Service` in shared/auth.py: what a call has spent stays spent.
use indu_sense.Base.{
  ℕ, String, Bool, true, false, Option, none, some, List, [], ◌∷◌, ◌≡◌, refl, ap, sym, subst, ◌∙◌,
  arith, ◌==◌, eq_iff, any, All, Bool-cases, inl, inr, if◌then◌else◌,
}
use indu_sense.Auth.{Outcome, returned, raised, token_revoked, verify_password}
use indu_sense.Auth.Token.{Jwt, Payload, Claims, checked_type, claims_of, parse_and_validate}
use indu_sense.Auth.Service.{
  Service, Given, Stores, User, refresh_redis_key, is_live, delete_key, roles_for_user, without_key,
  issue_pair, issue, audited_login, TokenPair, failed_login, login_as, login_found, login, rotated,
  refresh_with, refresh_access_token, logout_with, logout,
}
use indu_sense.Auth.Service.Keys.{
  has_key, IsGone, refresh_redis_key-inj, delete_key-IsGone, delete_key-gone, set_key-IsGone,
  log_auth-IsGone, issue_keeps, not_live, IsFresh,
}

-- One call of a method, with what it is given.
pub data Call : Type 0 where
  sign_in : Given → String → String → String → Call
  renew : Given → String → String → Call
  sign_out : Given → String → String → Call

abbrev pub given : Call → Given
given (sign_in g email password ip_address) = g
given (renew g token ip_address) = g
given (sign_out g token ip_address) = g

unfoldable pub perform : Service → Call → Stores → Stores
perform v (sign_in g email password ip_address) s = (login v g email password ip_address s).1
perform v (renew g token ip_address) s = (refresh_access_token v g token ip_address s).1
perform v (sign_out g token ip_address) s = (logout v g token ip_address s).1

unfoldable pub perform_all : Service → List Call → Stores → Stores
perform_all v [] s = s
perform_all v (call ∷ calls) s = perform_all v calls (perform v call s)

-- the call presents the token
abbrev pub spends : String → Call → Bool
spends token (sign_in g email password ip_address) = false
spends token (renew g presented ip_address) = presented == token
spends token (sign_out g presented ip_address) = presented == token

module _ (v : Service) (jti : String) where
  issue_pair-IsGone :
      (g : Given) (user_id org_id email : String) (roles : List String) (s : Stores)
      → IsFresh jti g
      → IsGone (refresh_redis_key jti) s
      → IsGone (refresh_redis_key jti) (issue_pair v g user_id org_id email roles s).1
  unfolding issue_pair
  issue_pair-IsGone g user_id org_id email roles s n h =
      set_key-IsGone g.now (refresh_redis_key jti) (refresh_redis_key g.refresh_jti) user_id _
        s.refresh_keys (λ e. n (refresh_redis_key-inj g.refresh_jti jti e)) h

  issue-IsGone :
      (g : Given) (user_id org_id email : String) (s : Stores)
      → IsFresh jti g
      → IsGone (refresh_redis_key jti) s
      → IsGone (refresh_redis_key jti) (issue v g user_id org_id email s).1
  issue-IsGone g user_id org_id email s n h =
      issue_keeps (IsGone (refresh_redis_key jti)) v g user_id org_id email s h
        (issue_pair-IsGone g user_id org_id email (roles_for_user user_id s) s n h)

  audited_login-IsGone :
      (g : Given) (u : User) (ip : String) (roles : List String) (r : Outcome TokenPair × Stores)
      → IsGone (refresh_redis_key jti) r.1
      → IsGone (refresh_redis_key jti) (audited_login g u ip roles r).1
  unfolding audited_login
  audited_login-IsGone g u ip roles (raised e, s) h = h
  audited_login-IsGone g u ip roles (returned p, s) h = log_auth-IsGone g _ _ _ _ ip _ _ s h

  login_found-IsGone :
      (g : Given) (u : Option User) (email password ip : String) (s : Stores)
      → IsFresh jti g
      → IsGone (refresh_redis_key jti) s
      → IsGone (refresh_redis_key jti) (login_found v g u email password ip s).1
  unfolding login_found failed_login login_as
  login_found-IsGone g none email password ip s n h = log_auth-IsGone g _ _ _ _ ip _ _ s h
  login_found-IsGone g (some u) email password ip s n h =
      elim (Bool-cases (verify_password v.bcrypt u.password_hash password)) [
        | inl e ↦ rw e (elim (Bool-cases u.is_active) [
          | inl a ↦
              rw a (
                audited_login-IsGone g u ip _ _ (issue-IsGone g u.id u.organization_id email s n h))
          | inr a ↦ rw a (log_auth-IsGone g _ _ _ _ ip _ _ s h)
        ])
        | inr e ↦ rw e (log_auth-IsGone g _ _ _ _ ip _ _ s h)
      ]

  rotated-IsGone :
      (g : Given) (c : Claims) (ip : String) (deleted : Bool) (s : Stores)
      → IsFresh jti g
      → IsGone (refresh_redis_key jti) s
      → IsGone (refresh_redis_key jti) (rotated v g c ip deleted s).1
  unfolding rotated
  rotated-IsGone g c ip true s n h = issue-IsGone g c.user_id c.organization_id c.email s n h
  rotated-IsGone g c ip false s n h = log_auth-IsGone g _ _ _ _ ip _ _ s h

  refresh_with-IsGone :
      (g : Given) (o : Outcome Claims) (ip : String) (s : Stores)
      → IsFresh jti g
      → IsGone (refresh_redis_key jti) s
      → IsGone (refresh_redis_key jti) (refresh_with v g o ip s).1
  unfolding refresh_with
  refresh_with-IsGone g (raised e) ip s n h = h
  refresh_with-IsGone g (returned c) ip s n h =
      rotated-IsGone g c ip _ _ n
        (delete_key-IsGone g.now (refresh_redis_key jti) (refresh_redis_key c.jti) s.refresh_keys h)

  logout_with-IsGone :
      (g : Given) (o : Outcome Claims) (ip : String) (s : Stores)
      → IsGone (refresh_redis_key jti) s
      → IsGone (refresh_redis_key jti) (logout_with g o ip s).1
  unfolding logout_with
  logout_with-IsGone g (raised e) ip s h = h
  logout_with-IsGone g (returned c) ip s h =
      log_auth-IsGone g _ _ _ _ ip _ _ _
        (delete_key-IsGone g.now (refresh_redis_key jti) (refresh_redis_key c.jti) s.refresh_keys h)

  if-IsGone :
      {A : Type 0} (b : Bool) (r t : A × Stores)
      → IsGone (refresh_redis_key jti) r.1
      → IsGone (refresh_redis_key jti) t.1
      → IsGone (refresh_redis_key jti) (if b then r else t).1
  if-IsGone true r t h k = h
  if-IsGone false r t h k = k

  perform-IsGone :
      (call : Call) (s : Stores)
      → IsFresh jti (given call)
      → IsGone (refresh_redis_key jti) s
      → IsGone (refresh_redis_key jti) (perform v call s)
  unfolding perform login refresh_access_token logout
  perform-IsGone (sign_in g email password ip) s n h =
      if-IsGone g.users_fail _ _ h (login_found-IsGone g _ email password ip s n h)
  perform-IsGone (renew g token ip) s n h = refresh_with-IsGone g _ ip s n h
  perform-IsGone (sign_out g token ip) s n h = logout_with-IsGone g _ ip s h

  perform_all-IsGone :
      (calls : List Call) (s : Stores)
      → All (λ call. IsFresh jti (given call)) calls
      → IsGone (refresh_redis_key jti) s
      → IsGone (refresh_redis_key jti) (perform_all v calls s)
  unfolding perform_all
  perform_all-IsGone [] s n h = h
  perform_all-IsGone (call ∷ calls) s n h =
      perform_all-IsGone calls (perform v call s) n.1 (perform-IsGone call s n.0 h)

  without_key_spent :
      (g : Given) (c : Claims) (s : Stores)
      → c.jti ≡ jti
      → IsGone (refresh_redis_key jti) (without_key g c s).1
  without_key_spent g c s e =
      subst
        (λ j.
          any (has_key (refresh_redis_key jti))
            (delete_key g.now (refresh_redis_key j) s.refresh_keys).1
          ≡ false)
        (sym e) (delete_key-gone g.now (refresh_redis_key jti) s.refresh_keys)

  presented_as :
      (g : Given) (presented token : String) (c : Claims)
      → (presented == token) ≡ true
      → parse_and_validate v.jwt g.now token v.refresh_secret "refresh" ≡ returned c
      → parse_and_validate v.jwt g.now presented v.refresh_secret "refresh" ≡ returned c
  presented_as g presented token c h read =
      ap (λ t. parse_and_validate v.jwt g.now t v.refresh_secret "refresh")
        ((eq_iff presented token).0 h)
      ∙ read

  -- What spends a token leaves no key of it.
  perform_spent :
      (call : Call) (token : String) (c : Claims) (s : Stores)
      → spends token call ≡ true
      → parse_and_validate v.jwt (given call).now token v.refresh_secret "refresh" ≡ returned c
      → c.jti ≡ jti
      → IsFresh jti (given call)
      → IsGone (refresh_redis_key jti) (perform v call s)
  unfolding perform refresh_access_token logout refresh_with logout_with
  perform_spent (sign_in g email password ip) token c s h read e n = ground arith
  perform_spent (renew g presented ip) token c s h read e n =
      subst (λ o. IsGone (refresh_redis_key jti) (refresh_with v g o ip s).1)
        (sym (presented_as g presented token c h read))
        (rotated-IsGone g c ip _ _ n (without_key_spent g c s e))
  perform_spent (sign_out g presented ip) token c s h read e n =
      subst (λ o. IsGone (refresh_redis_key jti) (logout_with g o ip s).1)
        (sym (presented_as g presented token c h read))
        (log_auth-IsGone g _ _ _ _ ip _ _ _ (without_key_spent g c s e))

  -- A token without its key buys nothing.
  refresh_with-gone :
      (g : Given) (o : Outcome Claims) (ip : String) (s : Stores)
      → ((c : Claims) → o ≡ returned c → c.jti ≡ jti)
      → IsGone (refresh_redis_key jti) s
      → (refresh_with v g o ip s).0 ≡ raised token_revoked
  unfolding refresh_with rotated delete_key
  refresh_with-gone g (raised e) ip s same h = refl
  refresh_with-gone g (returned c) ip s same h =
      ap (λ b. (rotated v g c ip b (without_key g c s).1).0)
        (subst (λ j. any (is_live g.now (refresh_redis_key j)) s.refresh_keys ≡ false)
          (sym (same c refl)) (not_live g.now (refresh_redis_key jti) s.refresh_keys h))

-- PyJWT reads the same object out of a token whenever it reads one.
abbrev pub ReadsTheSame : Jwt → String → String → Type 0
ReadsTheSame j token secret =
    (now later : ℕ) (p q : Payload)
    → j.decode now token secret ≡ some p
    → j.decode later token secret ≡ some q
    → p ≡ q

read_from :
    (o : Option Payload) (expected : String) (c : Claims)
    → checked_type o expected ≡ returned c
    → (p : Payload) × (o ≡ some p) × (c ≡ claims_of p)
unfolding checked_type
read_from none expected c h = ground arith
read_from (some p) expected c h = (p, refl, ground arith)

-- A refresh token that reads as the same claims whenever it is not refused is of no use once a refresh or a
-- logout presented it, whatever calls follow that do not draw its id again.
pub refresh_access_token-perform_all :
    (v : Service) (call : Call) (calls : List Call) (g : Given) (token ip_address : String)
    (c : Claims) (s : Stores)
    → ReadsTheSame v.jwt token v.refresh_secret
    → spends token call ≡ true
    → parse_and_validate v.jwt (given call).now token v.refresh_secret "refresh" ≡ returned c
    → IsFresh c.jti (given call)
    → All (λ later. IsFresh c.jti (given later)) calls
    → (refresh_access_token v g token ip_address (perform_all v calls (perform v call s))).0
      ≡ raised token_revoked
unfolding refresh_access_token parse_and_validate
refresh_access_token-perform_all v call calls g token ip c s same spent read n fresh =
    refresh_with-gone v c.jti g _ ip _
      (λ d e.
        let (p, some_p, by_p) = read_from _ "refresh" d e in
        let (q, some_q, by_q) = read_from _ "refresh" c read in
        ap (λ k. k.jti) (by_p ∙ ap claims_of (same _ _ p q some_p some_q) ∙ sym by_q))
      (perform_all-IsGone v c.jti calls _ fresh
        (perform_spent v c.jti call token c s spent read refl n))
