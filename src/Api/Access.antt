-- ===== src/Api/Access.antt =====
-- From the login of shared/auth.py to the guard of a route in services/api/middleware.py.
use Prim.Native.String.{count, slice, ◌++◌ as text_append}
use text.Mathlib.TextLemmas.{length-append, length-pos_iff}
use text.Mathlib.TextPositions.{starts_with-append, slice-append_right, len-append}
use indu_sense.Base.{
  ℕ, ◌+◌, ◌*◌, ◌/◌, ◌≤◌, ◌<◌, ltb, String, Bool, true, false, not, ◌≡◌, ◌≢◌, refl, ap, ◌∙◌, arith,
  ◌==◌, eq_iff, if◌then◌else◌, any, mem, List,
}
use indu_sense.Auth.{Outcome, granted_to, has_permission, permissions_for_roles}
use indu_sense.Auth.Rbac.{mem-permissions_for_roles}
use indu_sense.Auth.Token.{
  Claims, Jwt, payload_of, issue_token, new_base_claims, parse_and_validate, ReadsBack,
}
use indu_sense.Auth.Token.RoundTrip.{parse_and_validate-issue_token, to_seconds}
use indu_sense.Auth.Service.{Service, Given, access_claims}
use indu_sense.Api.{
  bearer_token, claims_or_401, require_auth, with_permission, require_permission, success, refused,
  ◌>>=◌,
}

bearer_token-append : (t : String) → t ≢ "" → bearer_token (text_append "Bearer " t) ≡ t
unfolding bearer_token
bearer_token-append t h =
    let long : ltb 7 (count (text_append "Bearer " t)) ≡ true =
      ground (arith, length-append "Bearer " t, length-pos_iff.1 h) in
    rw (long, starts_with-append "Bearer " t)
      (ap (slice (text_append "Bearer " t) 7) (len-append "Bearer " t)
        ∙ slice-append_right "Bearer " t)

-- A header with a token gives what the token says.
require_auth-append :
    (jwt : Jwt) (now : ℕ) (secret token : String) (o : Outcome Claims)
    → token ≢ ""
    → parse_and_validate jwt now token secret "access" ≡ o
    → require_auth jwt now secret (text_append "Bearer " token) ≡ claims_or_401 o
unfolding require_auth
require_auth-append jwt now secret token o n e =
    let some_text : (token == "") ≡ false = ground (arith, eq_iff token "") in
    rw (bearer_token-append token n, some_text) (ap claims_or_401 e)

with_permission-roles :
    (required : String) (roles : List String) (c : Claims)
    → required ≢ ""
    → c.permissions ≡ permissions_for_roles roles
    → with_permission required c ≡ (
        if any (λ role. mem required (granted_to role)) roles
        then success c
        else refused 403 "FORBIDDEN")
unfolding with_permission has_permission
with_permission-roles required roles c n e =
    let some_text : (required == "") ≡ false = ground (arith, eq_iff required "") in
    let granted : has_permission c.permissions required
        ≡ any (λ role. mem required (granted_to role)) roles =
      ap (λ ps. mem required ps) e ∙ mem-permissions_for_roles required roles in
    rw (some_text, granted) (by_grant (any (λ role. mem required (granted_to role)) roles))
  where
    by_grant :
        (b : Bool)
        → (if not b then refused 403 "FORBIDDEN" else success c)
          ≡ (if b then success c else refused 403 "FORBIDDEN")
    by_grant true = refl
    by_grant false = refl

-- If PyJWT reads the access token back that login issues for a user's roles, then within its
-- lifetime a route that requires a permission, neither it nor the token being empty, lets that
-- bearer through exactly if one of the roles grants it, with the claims to the second, and answers
-- 403 otherwise.
pub require_permission-issue_token :
    (v : Service) (g : Given) (user_id org_id email required : String) (roles : List String)
    (now : ℕ)
    → let c = access_claims v g user_id org_id email roles in
      let token = issue_token v.jwt g.now c v.access_secret in
      ReadsBack v.jwt (payload_of g.now c) v.access_secret
      → token ≢ ""
      → required ≢ ""
      → g.now / 1000000 * 1000000 ≤ now
      → now < (g.now + v.access_ttl) / 1000000 * 1000000
      → require_permission v.jwt now v.access_secret required (text_append "Bearer " token) ≡ (
          if any (λ role. mem required (granted_to role)) roles
          then success (to_seconds c)
          else refused 403 "FORBIDDEN")
unfolding require_permission issue_token to_seconds access_claims new_base_claims claims_or_401
require_permission-issue_token v g user_id org_id email required roles now back n r early late =
    ap (λ a. a >>= with_permission required)
      (require_auth-append v.jwt now v.access_secret _ _ n (
        parse_and_validate-issue_token v.jwt g.now now g.now (g.now + v.access_ttl)
          (access_claims v g user_id org_id email roles) v.access_secret "access" refl refl back
          early late))
    ∙ with_permission-roles required roles _ r refl
