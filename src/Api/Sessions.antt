-- ===== src/Api/Sessions.antt =====
-- services/api/handlers_auth.py over the `Service` of shared/auth.py. The resolved address of the
-- client is given; an instant is answered as it is, before it is formatted.
pub mod Spent
use indu_sense.Base.{ℕ, String, ◌||◌, Option, List, ◌==◌, if◌then◌else◌}
use indu_sense.Auth.{
  Error, invalid_credentials, user_inactive, token_revoked, Outcome, returned, raised,
}
use indu_sense.Auth.Token.{Claims, Jwt}
use indu_sense.Auth.Service.{Service, Given, Stores, TokenPair, login, refresh_access_token, logout}
use indu_sense.Api.{Response, success, failure, refused, internal_error, ◌>>=◌, require_auth}

pub record TokenResponse : Type 0 where
  pub access_token : String
  pub refresh_token : String
  pub expires_at : ℕ
  pub token_type : String

abbrev pub token_response : TokenPair → TokenResponse
token_response p = record {
  access_token = p.access_token;
  refresh_token = p.refresh_token;
  expires_at = p.expires_at;
  token_type = "Bearer";
}

-- what `Depends(auth_limit)` lets through: `limited` is its answer
abbrev pub after_limit :
    {A : Type 0} → Response (Option ℕ) → Response A × Stores → Stores → Response A × Stores
after_limit (success remaining) done s = done
after_limit (failure e) done s = (failure e, s)

unfoldable pub login_reply : Outcome TokenPair → Response TokenResponse
unfolding internal_error
login_reply (returned p) = success (token_response p)
login_reply (raised invalid_credentials) = refused 401 "INVALID_CREDENTIALS"
login_reply (raised user_inactive) = refused 401 "INVALID_CREDENTIALS"
login_reply (raised _) = internal_error

unfoldable pub login_route :
    Response (Option ℕ)
    → Service
    → Given
    → String
    → String
    → String
    → Stores
    → Response TokenResponse × Stores
unfolding login_reply
login_route limited v g email password ip_address s =
    let r = login v g email password ip_address s in
    after_limit limited
      (if email == "" || password == ""
        then (refused 400 "VALIDATION_ERROR", s)
        else (login_reply r.0, r.1))
      s

unfoldable pub refresh_reply : Outcome TokenPair → Response TokenResponse
unfolding internal_error
refresh_reply (returned p) = success (token_response p)
refresh_reply (raised token_revoked) = refused 401 "TOKEN_REVOKED"
refresh_reply (raised _) = internal_error

unfoldable pub refresh_route :
    Response (Option ℕ)
    → Service
    → Given
    → String
    → String
    → Stores
    → Response TokenResponse × Stores
unfolding refresh_reply
refresh_route limited v g token ip_address s =
    let r = refresh_access_token v g token ip_address s in
    after_limit limited
      (if token == "" then (refused 400 "INVALID_BODY", s) else (refresh_reply r.0, r.1)) s

unfoldable pub logout_reply : Outcome (Unit {0}) → Response Unit
unfolding internal_error
logout_reply (returned _) = success tt
logout_reply (raised token_revoked) = success tt
logout_reply (raised _) = internal_error

unfoldable pub logout_route :
    Response (Option ℕ) → Service → Given → String → String → Stores → Response Unit × Stores
unfolding logout_reply
logout_route limited v g token ip_address s =
    let r = logout v g token ip_address s in
    after_limit limited
      (if token == "" then (refused 400 "INVALID_BODY", s) else (logout_reply r.0, r.1)) s

pub record Me : Type 0 where
  pub user_id : String
  pub organization_id : String
  pub email : String
  pub roles : List String
  pub permissions : List String

unfoldable pub me_route : Jwt → ℕ → String → String → Response Me
me_route jwt now access_secret header = do
  c ← require_auth jwt now access_secret header
  success (record {
    user_id = c.user_id;
    organization_id = c.organization_id;
    email = c.email;
    roles = c.roles;
    permissions = c.permissions;
  })
