-- ===== src/Auth/Service.antt =====
-- `Service` of shared/auth.py over the tables of Postgres, the keys of Redis and the audit log. A
-- call reads the clock once; its two fresh identifiers are given, and whether the insert of an audit
-- row fails.
pub mod Login
pub mod Keys
pub mod Rotation
use indu_sense.Base.{
  ℕ, ◌+◌, ◌*◌, ◌/◌, String, Bool, true, false, not, Option, none, some, List, [], ◌∷◌, ◌++◌, map,
  ◌==◌, ltb, if◌then◌else◌, find, filter, any, concat,
}
use indu_sense.Audit.{Datum, text, texts, Entry, log}
use indu_sense.Auth.{
  Outcome, returned, raised, invalid_credentials, user_inactive, token_revoked, unavailable, Bcrypt,
  verify_password,
}
use indu_sense.Auth.Token.{Jwt, Claims, issue_token, parse_and_validate, new_base_claims}

pub record User : Type 0 where
  pub id : String
  pub organization_id : String
  pub email : String
  pub password_hash : String
  pub is_active : Bool

-- user_roles joined with roles
pub record Grant : Type 0 where
  pub user_id : String
  pub role : String

-- a key of Redis, its value, and the instant at which it expires
pub record RefreshKey : Type 0 where
  pub key : String
  pub user_id : String
  pub expires_at : ℕ

pub record Stores : Type 0 where
  pub users : List User
  pub grants : List Grant
  pub refresh_keys : List RefreshKey
  pub audit_logs : List Entry

pub record Service : Type 0 where
  pub jwt : Jwt
  pub bcrypt : Bcrypt
  pub access_secret : String
  pub refresh_secret : String
  pub access_ttl : ℕ
  pub refresh_ttl : ℕ

pub record Given : Type 0 where
  pub now : ℕ
  pub access_jti : String
  pub refresh_jti : String
  pub audit_fails : Bool
  -- whether the statements on users and on roles raise
  pub users_fail : Bool
  pub roles_fail : Bool
  -- whether the SET of a refresh token raises, and whether it is stored all the same
  pub set_fails : Bool
  pub set_stored : Bool

pub record TokenPair : Type 0 where
  pub access_token : String
  pub refresh_token : String
  pub expires_at : ℕ

abbrev pub refresh_redis_key : String → String
refresh_redis_key jti = concat ("refresh_token:" ∷ jti ∷ [])

-- the key is there, and has not expired
abbrev pub is_live : ℕ → String → RefreshKey → Bool
is_live now key r = if r.key == key then ltb now r.expires_at else false

-- SET key value EX seconds
unfoldable pub set_key : ℕ → String → String → ℕ → List RefreshKey → List RefreshKey
set_key now key user_id ex keys =
    filter (λ r. not (r.key == key)) keys
    ++ record { key = key; user_id = user_id; expires_at = now + ex * 1000000 } ∷ []

-- DEL key, and whether it deleted one
unfoldable pub delete_key : ℕ → String → List RefreshKey → Bool × List RefreshKey
delete_key now key keys = (any (is_live now key) keys, filter (λ r. not (r.key == key)) keys)

unfoldable pub log_auth :
    Given
    → Option String
    → Option String
    → String
    → String
    → String
    → List (String × Datum)
    → Stores
    → Stores
unfolding log
log_auth g org_id user_id action result ip_address metadata s =
    if g.audit_fails then s else record s {
      audit_logs =
          log
            (record {
              action = action;
              resource_type = "user";
              result = result;
              organization_id = org_id;
              user_id = user_id;
              resource_id = none;
              ip_address = if ip_address == "" then none else some ip_address;
              request_id = none;
              metadata = metadata;
            })
            s.audit_logs;
    }

unfoldable pub roles_for_user : String → Stores → List String
roles_for_user user_id s = map (λ r. r.role) (filter (λ r. r.user_id == user_id) s.grants)

-- the claims of the two tokens of a pair
unfoldable pub access_claims : Service → Given → String → String → String → List String → Claims
access_claims v g user_id org_id email roles =
    new_base_claims g.now user_id org_id email roles "access" v.access_ttl g.access_jti

unfoldable pub refresh_claims : Service → Given → String → String → String → List String → Claims
refresh_claims v g user_id org_id email roles =
    new_base_claims g.now user_id org_id email roles "refresh" v.refresh_ttl g.refresh_jti

unfoldable pub issue_pair :
    Service → Given → String → String → String → List String → Stores → TokenPair × Stores
unfolding access_claims refresh_claims set_key
issue_pair v g user_id org_id email roles s = (
  record {
    access_token =
        issue_token v.jwt g.now (access_claims v g user_id org_id email roles) v.access_secret;
    refresh_token =
        issue_token v.jwt g.now (refresh_claims v g user_id org_id email roles) v.refresh_secret;
    expires_at = g.now + v.access_ttl;
  },
  record s {
    refresh_keys =
        set_key g.now (refresh_redis_key g.refresh_jti) user_id (v.refresh_ttl / 1000000)
          s.refresh_keys;
  },
)

-- the roles of a user, and the pair issued for them
unfoldable pub issue :
    Service → Given → String → String → String → Stores → Outcome TokenPair × Stores
unfolding issue_pair
issue v g user_id org_id email s =
    let issued = issue_pair v g user_id org_id email (roles_for_user user_id s) s in
    if g.roles_fail
    then (raised unavailable, s)
    else if g.set_fails
    then (raised unavailable, if g.set_stored then issued.1 else s)
    else (returned issued.0, issued.1)

unfoldable pub failed_login :
    Given → Option String → Option String → String → List (String × Datum) → Stores → Stores
unfolding log_auth
failed_login g org_id user_id ip_address metadata s =
    log_auth g org_id user_id "user.login" "FAILURE" ip_address metadata s

-- an exception leaves before the audit entry
unfoldable pub audited_login :
    Given → User → String → List String → Outcome TokenPair × Stores → Outcome TokenPair × Stores
unfolding log_auth
audited_login g u ip_address roles (raised e, s) = (raised e, s)
audited_login g u ip_address roles (returned pair, s) = (
  returned pair,
  log_auth g (some u.organization_id) (some u.id) "user.login" "SUCCESS" ip_address
      (("roles", texts roles) ∷ []) s,
)

unfoldable pub login_as :
    Service → Given → User → String → String → Stores → Outcome TokenPair × Stores
unfolding issue audited_login
login_as v g u email ip_address s =
    audited_login g u ip_address (roles_for_user u.id s) (issue v g u.id u.organization_id email s)

unfoldable pub login_found :
    Service → Given → Option User → String → String → String → Stores → Outcome TokenPair × Stores
unfolding failed_login login_as
login_found v g none email password ip_address s = (
  raised invalid_credentials,
  failed_login g none none ip_address (("email", text email) ∷ ("reason", text "no such user") ∷ [])
      s,
)
login_found v g (some u) email password ip_address s =
    if not (verify_password v.bcrypt u.password_hash password)
    then (
      raised invalid_credentials,
      failed_login g (some u.organization_id) (some u.id) ip_address
          (("reason", text "bad password") ∷ []) s,
    )
    else if not u.is_active
    then (
      raised user_inactive,
      failed_login g (some u.organization_id) (some u.id) ip_address
          (("reason", text "inactive account") ∷ []) s,
    )
    else login_as v g u email ip_address s

unfoldable pub login :
    Service → Given → String → String → String → Stores → Outcome TokenPair × Stores
unfolding login_found
login v g email password ip_address s =
    if g.users_fail
    then (raised unavailable, s)
    else login_found v g (find (λ u. u.email == email) s.users) email password ip_address s

-- what is done once the key of the presented token has been deleted, or was not there
unfoldable pub rotated :
    Service → Given → Claims → String → Bool → Stores → Outcome TokenPair × Stores
unfolding issue log_auth
rotated v g c ip_address false s = (
  raised token_revoked,
  log_auth g (some c.organization_id) (some c.user_id) "user.refresh_token_reuse" "FAILURE"
      ip_address (("jti", text c.jti) ∷ []) s,
)
rotated v g c ip_address true s = issue v g c.user_id c.organization_id c.email s

abbrev pub without_key : Given → Claims → Stores → Bool × Stores
without_key g c s =
    let deleted = delete_key g.now (refresh_redis_key c.jti) s.refresh_keys in
    (deleted.0, record s { refresh_keys = deleted.1 })

unfoldable pub refresh_with :
    Service → Given → Outcome Claims → String → Stores → Outcome TokenPair × Stores
unfolding rotated delete_key
refresh_with v g (raised e) ip_address s = (raised token_revoked, s)
refresh_with v g (returned c) ip_address s =
    let d = without_key g c s in rotated v g c ip_address d.0 d.1

unfoldable pub refresh_access_token :
    Service → Given → String → String → Stores → Outcome TokenPair × Stores
unfolding refresh_with
refresh_access_token v g token ip_address s =
    refresh_with v g (parse_and_validate v.jwt g.now token v.refresh_secret "refresh") ip_address s

unfoldable pub logout_with : Given → Outcome Claims → String → Stores → Outcome (Unit {0}) × Stores
unfolding delete_key log_auth
logout_with g (raised e) ip_address s = (raised token_revoked, s)
logout_with g (returned c) ip_address s = (
  returned tt,
  log_auth g (some c.organization_id) (some c.user_id) "user.logout" "SUCCESS" ip_address []
      (without_key g c s).1,
)

unfoldable pub logout : Service → Given → String → String → Stores → Outcome (Unit {0}) × Stores
unfolding logout_with
logout v g token ip_address s =
    logout_with g (parse_and_validate v.jwt g.now token v.refresh_secret "refresh") ip_address s
