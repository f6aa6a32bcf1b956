-- ===== src/Api/Devices.antt =====
-- services/api/handlers_devices.py over the tables of devices and of their credentials. The serial
-- number of a device is unique, and a device has one active credential: two unique indexes.
pub mod Rotation
use indu_sense.Base.{
  ℕ, String, Bool, true, false, ◌&&◌, ◌||◌, not, Option, none, some, List, [], ◌∷◌, ◌++◌, map, ◌==◌,
  if◌then◌else◌, any, filter, find, take, drop,
}
use indu_sense.Base.Order.{order_by}
use indu_sense.Events.{ℤ}
use indu_sense.Auth.{Bcrypt, Outcome, returned, raised, hash_password}
use indu_sense.Auth.Token.{Claims}
use indu_sense.Api.{
  Response, success, refused, internal_error, parse_limit_offset, Page, paginated_response,
}

pub record Device : Type 0 where
  pub id : String
  pub machine_id : String
  pub organization_id : String
  pub serial_number : String
  pub status : String
  pub firmware_version : String

pub record Credential : Type 0 where
  pub device_id : String
  pub credential_type : String
  pub credential_hash : String
  pub is_active : Bool

-- a machine, with the organization of its factory
pub record Machine : Type 0 where
  pub id : String
  pub organization_id : String

pub record Tables : Type 0 where
  pub devices : List Device
  pub credentials : List Credential
  pub machines : List Machine

abbrev pub is_in : String → String → Device → Bool
is_in org_id id d = d.id == id && d.organization_id == org_id

-- ORDER BY serial_number, with the collation of the database
unfoldable pub list_devices :
    (String → String → Bool)
    → (String → Option ℤ)
    → Option String
    → Option String
    → String
    → Claims
    → Tables
    → Page Device
list_devices before int limit offset status_filter claims t =
    let page = parse_limit_offset int limit offset in
    let listed : Device → Bool = λ d.
      d.organization_id == claims.organization_id
      && (if status_filter == "" then true else d.status == status_filter) in
    paginated_response
      (take page.0 (
        drop page.1
          (order_by (λ d e. before d.serial_number e.serial_number) (filter listed t.devices))))
      page.0 page.1

abbrev found : Option Device → Response Device
found none = refused 404 "NOT_FOUND"
found (some d) = success d

unfoldable pub get_device : String → Claims → Tables → Response Device
get_device id claims t = found (find (is_in claims.organization_id id) t.devices)

abbrev pub secret_of : String → String → Credential
secret_of device_id hash = record {
  device_id = device_id;
  credential_type = "shared_secret";
  credential_hash = hash;
  is_active = true;
}

abbrev pub is_active_of : String → Credential → Bool
is_active_of device_id c = c.device_id == device_id && c.is_active

abbrev pub deactivated_if : (Credential → Bool) → Credential → Credential
deactivated_if t c = if t c then record c { is_active = false } else c

-- what a provisioned device answers: the device, and its secret in the clear
pub record Provisioned : Type 0 where
  pub device : Device
  pub secret : String

pub record ProvisionRequest : Type 0 where
  pub machine_id : String
  pub serial_number : String
  pub firmware_version : String

-- The transaction: nothing is written if a serial number is there already.
unfoldable pub insert_device :
    Device → String → Outcome String → Tables → Response Provisioned × Tables
unfolding internal_error
insert_device d secret (raised e) t = (internal_error, t)
insert_device d secret (returned hash) t =
    if any (λ e. e.serial_number == d.serial_number) t.devices
    then (refused 409 "CONFLICT", t)
    else (
      success (record { device = d; secret = secret }),
      record t {
        devices = t.devices ++ d ∷ [];
        credentials = t.credentials ++ secret_of d.id hash ∷ [];
      },
    )

-- `new_id`, `secret` and `salt` are what the database and `secrets` generate.
unfoldable pub provision_device :
    Bcrypt
    → String
    → String
    → String
    → ProvisionRequest
    → Claims
    → Tables
    → Response Provisioned × Tables
unfolding insert_device
provision_device b new_id secret salt req claims t =
    if req.machine_id == "" || req.serial_number == ""
    then (refused 400 "VALIDATION_ERROR", t)
    else if not (
        any (λ m. m.id == req.machine_id && m.organization_id == claims.organization_id) t.machines)
    then (refused 400 "VALIDATION_ERROR", t)
    else insert_device
        (record {
          id = new_id;
          machine_id = req.machine_id;
          organization_id = claims.organization_id;
          serial_number = req.serial_number;
          status = "PROVISIONED";
          firmware_version = if req.firmware_version == "" then "unknown" else req.firmware_version;
        })
        secret (hash_password b salt secret) t

unfoldable pub replace_credential :
    String → String → Outcome String → Tables → Response String × Tables
unfolding internal_error
replace_credential id secret (raised e) t = (internal_error, t)
replace_credential id secret (returned hash) t = (
  success secret,
  record t {
    credentials = map (deactivated_if (is_active_of id)) t.credentials ++ secret_of id hash ∷ [];
  },
)

unfoldable pub rotate_credentials :
    Bcrypt → String → String → String → Claims → Tables → Response String × Tables
unfolding replace_credential
rotate_credentials b secret salt id claims t =
    if any (is_in claims.organization_id id) t.devices
    then replace_credential id secret (hash_password b salt secret) t
    else (refused 404 "NOT_FOUND", t)

unfoldable pub decommission_device : String → Claims → Tables → Response (Unit {0}) × Tables
decommission_device id claims t =
    if any (is_in claims.organization_id id) t.devices
    then (
      success tt,
      record t {
        devices =
            map
              (λ d.
                if is_in claims.organization_id id d
                then record d { status = "DECOMMISSIONED" }
                else d)
              t.devices;
      },
    )
    else (refused 404 "NOT_FOUND", t)
