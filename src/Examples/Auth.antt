-- ===== src/Examples/Auth.antt =====
-- Logins and sessions on small inputs: shared/auth.py and the routes over it.
use Prim.Native.String.{◌++◌ as text_append}
use indu_sense.Base.{
  ℕ, String, Bool, true, false, Option, none, some, List, [], ◌∷◌, ◌≡◌, ◌≢◌, refl, arith, concat,
  ◌==◌, eq_iff, any, mem, if◌then◌else◌,
}
use indu_sense.Auth.{
  Bcrypt, returned, raised, invalid_credentials, user_inactive, granted_to, permissions_for_roles,
  password_too_short, password_too_simple, validate_password_strength, require_same_organization,
  cross_tenant,
}
use indu_sense.Auth.Rbac.{NoDuplicates, permissions_for_roles-union}
use indu_sense.Auth.Token.{Jwt, Payload, payload_of, issue_token, claims_of}
use indu_sense.Auth.Token.RoundTrip.{to_seconds}
use indu_sense.Auth.Service.{User, Stores, Service, Given, login, access_claims, TokenPair}
use indu_sense.Auth.Service.Login.{IsAudited, KeepsKeysOnFailure, login-IsAudited}
use indu_sense.Auth.Service.Rotation.{sign_in, renew, perform, perform_all}
use indu_sense.Api.{require_permission, success, refused}
use indu_sense.Api.Access.{require_permission-issue_token}
use indu_sense.Api.Sessions.{refresh_route, logout_route}
use indu_sense.Api.Sessions.Spent.{routes-perform_all}

abbrev engineer : User
engineer = record {
  id = "u1";
  organization_id = "org";
  email = "a@org.com";
  password_hash = "salt:pass1234";
  is_active = true;
}

abbrev retired : User
retired = record {
  id = "u2";
  organization_id = "org";
  email = "b@org.com";
  password_hash = "salt:pass1234";
  is_active = false;
}

abbrev stores : Stores
stores = record {
  users = engineer ∷ retired ∷ [];
  grants =
      record { user_id = "u1"; role = "ENGINEER" }
      ∷ record { user_id = "u1"; role = "VIEWER" }
      ∷ [];
  refresh_keys = [];
  audit_logs = [];
}

abbrev pub plain_bcrypt : Bcrypt
plain_bcrypt = record {
  hashpw = λ plain salt. concat (salt ∷ ":" ∷ plain ∷ []);
  checkpw = λ plain hashed. some (hashed == concat ("salt" ∷ ":" ∷ plain ∷ []));
}

abbrev text_of : Option String → String
text_of none = ""
text_of (some s) = s

-- the payload of the tokens of one pair
abbrev payload : String → String → Payload
payload token_type jti = record {
  sub = some "u1";
  jti = some jti;
  iat = some 1000;
  exp = some (if token_type == "access" then 1900 else 5000);
  user_id = some "u1";
  organization_id = some "org";
  email = some "a@org.com";
  roles = some ("ENGINEER" ∷ "VIEWER" ∷ []);
  permissions = some (
      "devices:read" ∷ "devices:write" ∷ "telemetry:read" ∷ "alerts:read" ∷ "alerts:manage"
      ∷ "incidents:read" ∷ "incidents:manage" ∷ "factories:read" ∷ []);
  token_type = some token_type;
}

-- a token is the type and the id that it carries
abbrev pub plain_jwt : Jwt
plain_jwt = record {
  encode = λ p secret. concat (secret ∷ "/" ∷ text_of p.token_type ∷ "/" ∷ text_of p.jti ∷ []);
  decode = λ now token secret.
      if token == "s1/access/j1"
      then some (payload "access" "j1")
      else if token == "s2/refresh/j2"
      then some (payload "refresh" "j2")
      else none;
}

abbrev service : Service
service = record {
  jwt = plain_jwt;
  bcrypt = plain_bcrypt;
  access_secret = "s1";
  refresh_secret = "s2";
  access_ttl = 900000000;
  refresh_ttl = 4000000000;
}

abbrev given_at : ℕ → String → String → Given
given_at now a r = record {
  now = now;
  access_jti = a;
  refresh_jti = r;
  audit_fails = false;
  users_fail = false;
  roles_fail = false;
  set_fails = false;
  set_stored = true;
}

abbrev pair : TokenPair
pair = record {
  access_token = "s1/access/j1";
  refresh_token = "s2/refresh/j2";
  expires_at = 1900000000;
}

logged_in :
    (login service (given_at 1000000000 "j1" "j2") "a@org.com" "pass1234" "10.0.0.1" stores).0
    ≡ returned pair
unfolding login indu_sense.Auth.verify_password issue_token payload_of
    indu_sense.Auth.Token.new_base_claims
logged_in = refl

wrong_password :
    (login service (given_at 1000000000 "j1" "j2") "a@org.com" "pass" "10.0.0.1" stores).0
    ≡ raised invalid_credentials
unfolding login indu_sense.Auth.verify_password
wrong_password = refl

inactive :
    (login service (given_at 1000000000 "j1" "j2") "b@org.com" "pass1234" "10.0.0.1" stores).0
    ≡ raised user_inactive
unfolding login indu_sense.Auth.verify_password
inactive = refl

weak : validate_password_strength (λ c. true) (λ c. false) "passwords" ≡ raised password_too_simple
unfolding validate_password_strength
weak = refl

other_tenant : require_same_organization "org" "other" ≡ raised cross_tenant
unfolding require_same_organization
other_tenant = refl

permissions_for_roles-union_example :
    ((p : String)
      → mem p (permissions_for_roles ("VIEWER" ∷ "TECHNICIAN" ∷ []))
        ≡ any (λ role. mem p (granted_to role)) ("VIEWER" ∷ "TECHNICIAN" ∷ []))
    × NoDuplicates (permissions_for_roles ("VIEWER" ∷ "TECHNICIAN" ∷ []))
permissions_for_roles-union_example = permissions_for_roles-union ("VIEWER" ∷ "TECHNICIAN" ∷ [])

login-IsAudited_example :
    IsAudited stores
      (login service (given_at 1000000000 "j1" "j2") "b@org.com" "pass1234" "10.0.0.1" stores)
    × KeepsKeysOnFailure stores
        (login service (given_at 1000000000 "j1" "j2") "b@org.com" "pass1234" "10.0.0.1" stores)
login-IsAudited_example =
    login-IsAudited service (given_at 1000000000 "j1" "j2") "b@org.com" "pass1234" "10.0.0.1" stores
      refl refl refl refl

abbrev roles : List String
roles = "ENGINEER" ∷ "VIEWER" ∷ []

require_permission-issue_token_example :
    require_permission plain_jwt 1500000000 "s1" "devices:write" (
      text_append "Bearer " (
        issue_token plain_jwt 1000000000
          (access_claims service (given_at 1000000000 "j1" "j2") "u1" "org" "a@org.com" roles)
          "s1"))
    ≡ success (
        to_seconds
          (access_claims service (given_at 1000000000 "j1" "j2") "u1" "org" "a@org.com" roles))
unfolding granted_to issue_token payload_of access_claims indu_sense.Auth.Token.new_base_claims
    permissions_for_roles indu_sense.Auth.add_roles indu_sense.Auth.add_unseen
    indu_sense.Base.Dict.get_or
require_permission-issue_token_example =
    require_permission-issue_token service (given_at 1000000000 "j1" "j2") "u1" "org" "a@org.com"
      "devices:write" roles 1500000000 (λ now iat exp e f g h. refl) (λ e. cc e) (λ e. cc e)
      (omega arith) (omega arith)

routes-perform_all_example :
    let s =
      perform_all service (sign_in (given_at 1700000000 "j5" "j6") "a@org.com" "pass1234" "" ∷ []) (
        perform service
          (renew (given_at 1600000000 "j3" "j4") "s2/refresh/j2" "")
          (login service (given_at 1000000000 "j1" "j2") "a@org.com" "pass1234" "" stores).1) in
    ((refresh_route (success none) service (given_at 1800000000 "j7" "j8") "s2/refresh/j2" "" s).0
      ≡ refused 401 "TOKEN_REVOKED")
    × ((logout_route (success none) service (given_at 1800000000 "j7" "j8") "s2/refresh/j2" "" s).0
        ≡ success tt)
unfolding indu_sense.Auth.Token.parse_and_validate
routes-perform_all_example =
    routes-perform_all none service (renew (given_at 1600000000 "j3" "j4") "s2/refresh/j2" "")
      (sign_in (given_at 1700000000 "j5" "j6") "a@org.com" "pass1234" "" ∷ [])
      (given_at 1800000000 "j7" "j8") "s2/refresh/j2" "" (claims_of (payload "refresh" "j2"))
      (login service (given_at 1000000000 "j1" "j2") "a@org.com" "pass1234" "" stores).1
      (λ now later p q e f. ground arith) (λ e. cc e) refl refl (λ e. cc ((eq_iff "j4" "j2").1 e))
      (λ e. cc ((eq_iff "j6" "j2").1 e), tt)
