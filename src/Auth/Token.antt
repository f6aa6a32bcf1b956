-- ===== src/Auth/Token.antt =====
-- The tokens of shared/auth.py. Instants are microseconds since the epoch; what `jwt` of PyJWT does
-- is a parameter.
pub mod RoundTrip
use indu_sense.Base.{
  ℕ, ◌+◌, ◌*◌, ◌/◌, ◌≤◌, ◌<◌, String, Bool, false, Option, none, some, List, [], ◌==◌, ◌≡◌,
  if◌then◌else◌,
}
use indu_sense.Auth.{Outcome, returned, raised, token_invalid, token_type_mismatch}
use indu_sense.Auth.{permissions_for_roles}

pub record Claims : Type 0 where
  pub user_id : String
  pub organization_id : String
  pub email : String
  pub roles : List String
  pub permissions : List String
  pub token_type : String
  pub jti : String
  pub issued_at : Option ℕ
  pub expires_at : Option ℕ

-- The JSON object in a token; `none` is a key that is missing.
pub record Payload : Type 0 where
  pub sub : Option String
  pub jti : Option String
  pub iat : Option ℕ
  pub exp : Option ℕ
  pub user_id : Option String
  pub organization_id : Option String
  pub email : Option String
  pub roles : Option (List String)
  pub permissions : Option (List String)
  pub token_type : Option String

-- jwt.encode with a secret, and jwt.decode at an instant with a secret, which raises on a bad
-- signature and on a token out of its time.
pub record Jwt : Type 0 where
  pub encode : Payload → String → String
  pub decode : ℕ → String → String → Option Payload

-- `int(t.timestamp()) if t else int(time.time())`
unfoldable pub whole_seconds : ℕ → Option ℕ → ℕ
whole_seconds now none = now / 1000000
whole_seconds now (some t) = t / 1000000

unfoldable pub payload_of : ℕ → Claims → Payload
unfolding whole_seconds
payload_of now c = record {
  sub = some c.user_id;
  jti = some c.jti;
  iat = some (whole_seconds now c.issued_at);
  exp = some (whole_seconds now c.expires_at);
  user_id = some c.user_id;
  organization_id = some c.organization_id;
  email = some c.email;
  roles = some c.roles;
  permissions = some c.permissions;
  token_type = some c.token_type;
}

unfoldable pub issue_token : Jwt → ℕ → Claims → String → String
issue_token j now c secret = j.encode (payload_of now c) secret

-- `payload.get(key, "")`
abbrev pub text_or_empty : Option String → String
text_or_empty none = ""
text_or_empty (some s) = s

-- `payload.get(key) or []`
abbrev pub list_or_empty : Option (List String) → List String
list_or_empty none = []
list_or_empty (some xs) = xs

-- `datetime.fromtimestamp(payload[key]) if key in payload else None`
abbrev pub instant_of : Option ℕ → Option ℕ
instant_of none = none
instant_of (some s) = some (s * 1000000)

abbrev pub is_type : Option String → String → Bool
is_type none expected = false
is_type (some t) expected = t == expected

unfoldable pub claims_of : Payload → Claims
claims_of p = record {
  user_id = text_or_empty p.user_id;
  organization_id = text_or_empty p.organization_id;
  email = text_or_empty p.email;
  roles = list_or_empty p.roles;
  permissions = list_or_empty p.permissions;
  token_type = text_or_empty p.token_type;
  jti = text_or_empty p.jti;
  issued_at = instant_of p.iat;
  expires_at = instant_of p.exp;
}

unfoldable pub checked_type : Option Payload → String → Outcome Claims
unfolding claims_of
checked_type none expected = raised token_invalid
checked_type (some p) expected =
    if is_type p.token_type expected then returned (claims_of p) else raised token_type_mismatch

unfoldable pub parse_and_validate : Jwt → ℕ → String → String → String → Outcome Claims
unfolding checked_type
parse_and_validate j now token secret expected = checked_type (j.decode now token secret) expected

-- `ttl` is in microseconds.
unfoldable pub new_base_claims :
    ℕ → String → String → String → List String → String → ℕ → String → Claims
new_base_claims now user_id org_id email roles token_type ttl jti = record {
  user_id = user_id;
  organization_id = org_id;
  email = email;
  roles = roles;
  permissions = permissions_for_roles roles;
  token_type = token_type;
  jti = jti;
  issued_at = some now;
  expires_at = some (now + ttl);
}

-- What PyJWT promises for one payload and one secret: the token is read back from its `iat` on and
-- until its `exp`.
abbrev pub ReadsBack : Jwt → Payload → String → Type 0
ReadsBack j p secret =
    (now iat exp : ℕ)
    → p.iat ≡ some iat
    → p.exp ≡ some exp
    → iat * 1000000 ≤ now
    → now < exp * 1000000
    → j.decode now (j.encode p secret) secret ≡ some p
