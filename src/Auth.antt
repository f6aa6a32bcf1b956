-- ===== src/Auth.antt =====
-- shared/auth.py: roles and their permissions, tenancy, and passwords.
pub mod Rbac
pub mod Token
pub mod Service
use Prim.Native.Char.{Char}
use Prim.Native.String.{len, count}
use indu_sense.Base.{
  String, Bool, true, false, ◌||◌, not, Option, none, some, List, [], ◌∷◌, ◌++◌, ◌==◌, ltb,
  if◌then◌else◌, mem,
}
use indu_sense.Base.Dict.{Dict, get_or}

-- The exceptions of the module.
pub data Error : Type 0 where
  cross_tenant password_too_short password_too_long password_too_simple unavailable : Error
  token_invalid token_type_mismatch invalid_credentials user_inactive token_revoked : Error

pub data Outcome {ℓ} (A : Type ℓ) : Type ℓ where
  returned : A → Outcome A
  raised : Error → Outcome A

abbrev pub viewer_permissions : List String
viewer_permissions =
    "devices:read" ∷ "telemetry:read" ∷ "alerts:read" ∷ "incidents:read" ∷ "factories:read" ∷ []

abbrev pub technician_permissions : List String
technician_permissions =
    "devices:read" ∷ "telemetry:read" ∷ "alerts:read" ∷ "incidents:read" ∷ "incidents:manage"
    ∷ "factories:read" ∷ []

abbrev pub engineer_permissions : List String
engineer_permissions =
    "devices:read" ∷ "devices:write" ∷ "telemetry:read" ∷ "alerts:read" ∷ "alerts:manage"
    ∷ "incidents:read" ∷ "incidents:manage" ∷ "factories:read" ∷ []

abbrev pub manager_permissions : List String
manager_permissions =
    "devices:read" ∷ "devices:write" ∷ "telemetry:read" ∷ "alerts:read" ∷ "alerts:manage"
    ∷ "incidents:read" ∷ "incidents:manage" ∷ "factories:read" ∷ "factories:manage" ∷ []

abbrev pub admin_permissions : List String
admin_permissions =
    "devices:read" ∷ "devices:write" ∷ "telemetry:read" ∷ "alerts:read" ∷ "alerts:manage"
    ∷ "incidents:read" ∷ "incidents:manage" ∷ "factories:read" ∷ "factories:manage" ∷ "users:manage"
    ∷ "system:admin" ∷ []

abbrev pub role_permissions : Dict (List String)
role_permissions =
    ("ADMIN", admin_permissions)
    ∷ ("FACTORY_MANAGER", manager_permissions)
    ∷ ("ENGINEER", engineer_permissions)
    ∷ ("TECHNICIAN", technician_permissions)
    ∷ ("VIEWER", viewer_permissions)
    ∷ []

-- The inner loop; `seen` holds what `out` holds.
unfoldable pub add_unseen : List String → List String → List String
add_unseen [] out = out
add_unseen (perm ∷ perms) out = add_unseen perms (if mem perm out then out else out ++ perm ∷ [])

-- ROLE_PERMISSIONS.get(role, [])
unfoldable pub granted_to : String → List String
granted_to role = get_or role [] role_permissions

unfoldable pub add_roles : List String → List String → List String
add_roles [] out = out
add_roles (role ∷ roles) out = add_roles roles (add_unseen (granted_to role) out)

unfoldable pub permissions_for_roles : List String → List String
permissions_for_roles roles = add_roles roles []

unfoldable pub has_permission : List String → String → Bool
has_permission permissions required = mem required permissions

unfoldable pub require_same_organization : String → String → Outcome (Unit {0})
require_same_organization token_org_id resource_org_id =
    if token_org_id == resource_org_id then returned tt else raised cross_tenant

-- MAX_PASSWORD_BYTES is 72, and `len` is the length in UTF-8.
unfoldable pub check_password_length : String → Outcome (Unit {0})
check_password_length password =
    if ltb 72 (len password) then raised password_too_long else returned tt

-- The two calls of bcrypt: `hashpw` with the salt that `gensalt` returned, and `checkpw`, whose
-- `none` is a ValueError.
pub record Bcrypt : Type 0 where
  pub hashpw : String → String → String
  pub checkpw : String → String → Option Bool

abbrev hashed_if_short : Outcome (Unit {0}) → String → Outcome String
hashed_if_short (returned _) h = returned h
hashed_if_short (raised e) h = raised e

unfoldable pub hash_password : Bcrypt → String → String → Outcome String
unfolding check_password_length
hash_password b salt plain = hashed_if_short (check_password_length plain) (b.hashpw plain salt)

abbrev or_false : Option Bool → Bool
or_false none = false
or_false (some b) = b

unfoldable pub verify_password : Bcrypt → String → String → Bool
verify_password b hashed plain = or_false (b.checkpw plain hashed)

abbrev pub any_char : (Char → Bool) → String → Bool
any_char p String.[] = false
any_char p (String.◌∷◌ c s) = let rest = any_char p s in p c || rest

abbrev if_short : Outcome (Unit {0}) → Bool → Outcome (Unit {0})
if_short (raised e) simple = raised e
if_short (returned _) simple = if simple then raised password_too_simple else returned tt

-- `is_alpha` and `is_digit` are those of Python's `str`.
unfoldable pub validate_password_strength :
    (Char → Bool) → (Char → Bool) → String → Outcome (Unit {0})
unfolding check_password_length
validate_password_strength is_alpha is_digit password =
    if ltb (count password) 8
    then raised password_too_short
    else if_short (check_password_length password)
        (not (any_char is_alpha password) || not (any_char is_digit password))
