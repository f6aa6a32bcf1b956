-- ===== src/Api.antt =====
-- services/api: the errors of response.py, the two dependencies of middleware.py that guard a route,
-- and pagination.py.
pub mod Access
pub mod Limits
pub mod Incidents
pub mod Sessions
pub mod Feed
pub mod Alerts
pub mod Devices
pub mod Telemetry
pub mod Factories
pub mod Service
use Prim.Native.String.{len, count, slice}
use text.Mathlib.Text.{starts_with}
use indu_sense.Base.{
  ℕ, String, Bool, true, false, ◌&&◌, not, Option, none, some, List, [], ◌∷◌, ◌==◌, ltb,
  if◌then◌else◌, length,
}
use indu_sense.Events.{ℤ, pos, negsuc}
use indu_sense.Auth.{Outcome, returned, raised, has_permission}
use indu_sense.Auth.Token.{Claims, Jwt, parse_and_validate}

-- `APIError`, without its message
pub record ApiError : Type 0 where
  pub status_code : ℕ
  pub code : String

pub data Response (A : Type 0) : Type 0 where
  success : A → Response A
  failure : ApiError → Response A

abbrev pub refused : {A : Type 0} → ℕ → String → Response A
refused status_code code = failure (record { status_code = status_code; code = code })

unfoldable pub internal_error : {A : Type 0} → Response A
internal_error = refused 500 "INTERNAL_ERROR"

-- what a guard hands on to the handler
infixl 5 ◌>>=◌
abbrev pub ◌>>=◌ : {A B : Type 0} → Response A → (A → Response B) → Response B
success a >>= f = f a
failure e >>= f = failure e

-- `header` is the value of Authorization. "Bearer " has seven characters, which are seven bytes.
unfoldable pub bearer_token : String → String
bearer_token header =
    if ltb 7 (count header) && starts_with header "Bearer " then slice header 7 (len header) else ""

unfoldable pub claims_or_401 : Outcome Claims → Response Claims
claims_or_401 (returned c) = success c
claims_or_401 (raised e) = refused 401 "UNAUTHENTICATED"

-- `now` is when the request comes.
unfoldable pub require_auth : Jwt → ℕ → String → String → Response Claims
unfolding bearer_token claims_or_401
require_auth jwt now access_secret header =
    if bearer_token header == ""
    then refused 401 "UNAUTHENTICATED"
    else claims_or_401 (parse_and_validate jwt now (bearer_token header) access_secret "access")

unfoldable pub with_permission : String → Claims → Response Claims
with_permission permission c =
    if not (permission == "") && not (has_permission c.permissions permission)
    then refused 403 "FORBIDDEN"
    else success c

unfoldable pub require_permission : Jwt → ℕ → String → String → String → Response Claims
unfolding with_permission
require_permission jwt now access_secret permission header = do
  c ← require_auth jwt now access_secret header
  with_permission permission c

-- `n` if it is positive
abbrev if_positive : ℤ → ℕ → ℕ
if_positive (pos n) default = if ltb 0 n then n else default
if_positive (negsuc n) default = default

abbrev if_natural : ℤ → ℕ → ℕ
if_natural (pos n) default = n
if_natural (negsuc n) default = default

-- a query parameter that is missing, or that `int` refuses, leaves the default
abbrev or_default : Option (Option ℤ) → (ℤ → ℕ → ℕ) → ℕ → ℕ
or_default none f default = default
or_default (some none) f default = default
or_default (some (some n)) f default = f n default

abbrev pub converted : (String → Option ℤ) → Option String → Option (Option ℤ)
converted int none = none
converted int (some v) = some (int v)

-- DEFAULT_LIMIT is 20, MAX_LIMIT 100; `int` is Python's, with `none` for a ValueError.
unfoldable pub parse_limit_offset : (String → Option ℤ) → Option String → Option String → ℕ × ℕ
parse_limit_offset int limit offset =
    let n = or_default (converted int limit) if_positive 20 in
    (if ltb 100 n then 100 else n, or_default (converted int offset) if_natural 0)

pub record Page (A : Type 0) : Type 0 where
  pub items : List A
  pub limit : ℕ
  pub offset : ℕ
  pub returned_count : ℕ

unfoldable pub paginated_response : {A : Type 0} → List A → ℕ → ℕ → Page A
paginated_response items limit offset = record {
  items = items;
  limit = limit;
  offset = offset;
  returned_count = length items;
}
