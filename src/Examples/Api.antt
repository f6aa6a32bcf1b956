-- ===== src/Examples/Api.antt =====
-- Requests to services/api on small inputs.
use indu_sense.Base.{
  ℕ, ◌≤◌, String, Bool, true, false, Option, none, some, List, [], ◌∷◌, ◌≡◌, ◌≢◌, refl, sym, arith,
  concat, ◌==◌, eq_iff, In, All, filter,
}
use indu_sense.Alerts.Store.{Alert, AlertRow, due_for_escalation, row_of}
use indu_sense.Alerts.Store.OneOpen.{OneOpen}
use indu_sense.Auth.{verify_password}
use indu_sense.Auth.Token.{Claims}
use indu_sense.Api.{success, refused, parse_limit_offset, bearer_token}
use indu_sense.Api.Limits.{Addresses, Request, ClientIpResolver, trusted_networks, resolve}
use indu_sense.Api.Limits.Window.{Hit, admitted, admitted-le-limit}
use indu_sense.Api.Incidents.Ownership.{KeepsForeign}
use indu_sense.Api.Incidents.Tenancy.{transitions, handle, handle-KeepsForeign}
use indu_sense.Api.Alerts.{acknowledge_alert}
use indu_sense.Api.Alerts.Acknowledged.{None, acknowledge_alert-OneOpen}
use indu_sense.Api.Devices.{Tables, is_active_of, secret_of, rotate_credentials}
use indu_sense.Api.Devices.Rotation.{rotate_credentials-filter}
use indu_sense.Api.Feed.{connects, polls, message, fan_out, all_happen}
use indu_sense.Api.Feed.Isolation.{GotOnly, all_happen-GotOnly}
use indu_sense.Api.Feed.Delivery.{fan_out-delivers}
use indu_sense.Events.{pos}
use indu_sense.Api.Service.{start, refuses}
use indu_sense.Examples.Incidents.{db}
use indu_sense.Examples.Auth.{plain_bcrypt, plain_jwt}

-- addresses that are compared as texts
abbrev plain_addresses : Addresses
plain_addresses = record {
  Ip = String;
  Network = String;
  ip_address = λ s. some s;
  version = λ ip. 4;
  ip_network = λ s. some s;
  contains = λ network ip. network == concat (ip ∷ "/32" ∷ []);
  strip = λ s. s;
}

abbrev behind_proxy : ClientIpResolver plain_addresses
behind_proxy = record { trust_proxy_headers = true; trusted_proxies = "10.0.0.9/32" ∷ [] }

abbrev request : String → String → Request
request peer forwarded = record { client_host = some peer; x_forwarded_for = some forwarded }

networks : trusted_networks plain_addresses ("10.0.0.9" ∷ []) ≡ some ("10.0.0.9/32" ∷ [])
unfolding trusted_networks
networks = refl

forwarded : resolve behind_proxy (request "10.0.0.9" "1.2.3.4,10.0.0.7") ≡ "1.2.3.4"
unfolding resolve indu_sense.Api.Limits.is_trusted_proxy
forwarded = refl

bearer : bearer_token "Bearer abc" ≡ "abc"
unfolding bearer_token
bearer = refl

no_bearer : bearer_token "Basic abc" ≡ ""
unfolding bearer_token
no_bearer = refl

limited : parse_limit_offset (λ s. some (pos 500)) (some "500") none ≡ (100, 0)
unfolding parse_limit_offset
limited = refl

refused_start : start "change-me-dev-only-access-secret" "other" "production" ≡ refuses
unfolding start
refused_start = refl

abbrev hits : List Hit
hits =
    record { now = 1000000; request = request "6.6.6.6" "1.1.1.1"; redis_fails = false }
    ∷ record { now = 2000000; request = request "6.6.6.6" "2.2.2.2"; redis_fails = true }
    ∷ []

admitted-le-limit_example : admitted behind_proxy (λ n. "0") "auth" 1 hits [] ≤ 2
unfolding indu_sense.Api.Limits.is_trusted_proxy
admitted-le-limit_example =
    admitted-le-limit behind_proxy (λ n. "0") "auth" "6.6.6.6" 1 0 hits [] refl
      ((refl, refl), ((refl, refl), tt)) refl

abbrev claims : String → Claims
claims org = record {
  user_id = "u1";
  organization_id = org;
  email = "a@org.com";
  roles = "ENGINEER" ∷ [];
  permissions = "incidents:manage" ∷ [];
  token_type = "access";
  jti = "j1";
  issued_at = none;
  expires_at = none;
}

handle-KeepsForeign_example :
    KeepsForeign "other" db
      (handle 9 "i1" (transitions "INVESTIGATING" "mine") (claims "other") db).1
handle-KeepsForeign_example =
    handle-KeepsForeign 9 "i1" (transitions "INVESTIGATING" "mine") (claims "other") db
      (refl, (refl, tt))

abbrev raised_alert : Alert
raised_alert = record {
  organization_id = "org";
  severity = "HIGH";
  factory_id = "f1";
  machine_id = "m1";
  device_id = "d1";
  sensor_id = "s1";
  title = "too hot";
  description = "";
  id = "";
  status = "";
  triggered_at = none;
  escalation_level = 0;
}

abbrev rows : List AlertRow
rows = row_of "r1" "d1:temperature" "a0" 100 raised_alert ∷ []

rows-OneOpen : OneOpen rows
rows-OneOpen k d = ground (arith, eq_iff k "r1", eq_iff d "d1:temperature")

acknowledge_alert-OneOpen_example :
    OneOpen (acknowledge_alert "a0" (claims "org") rows).1
    × None "a0" (due_for_escalation 9000000000 5 (acknowledge_alert "a0" (claims "org") rows).1)
acknowledge_alert-OneOpen_example =
    acknowledge_alert-OneOpen "a0" (claims "org") rows 9000000000 5 rows-OneOpen (λ e. refl, tt)

abbrev tables : Tables
tables = record {
  devices =
      record {
        id = "d1";
        machine_id = "m1";
        organization_id = "org";
        serial_number = "SN1";
        status = "ACTIVE";
        firmware_version = "1";
      }
      ∷ [];
  credentials = secret_of "d1" "salt:old" ∷ secret_of "d2" "salt:other" ∷ [];
  machines = [];
}

rotate_credentials-filter_example :
    let r = rotate_credentials plain_bcrypt "new" "salt" "d1" (claims "org") tables in
    (r.0 ≡ success "new")
    × (verify_password plain_bcrypt "salt:new" "new" ≡ true)
    × (filter (is_active_of "d1") r.1.credentials ≡ secret_of "d1" "salt:new" ∷ [])
    × ((other : String)
        → other ≢ "d1"
        → filter (is_active_of other) r.1.credentials
          ≡ filter (is_active_of other) tables.credentials)
rotate_credentials-filter_example =
    rotate_credentials-filter plain_bcrypt "new" "salt" "d1" (claims "org") tables (omega arith)
      refl refl

-- a payload is the name of its organization
abbrev read_org : String → Option String
read_org payload = some payload

all_happen-GotOnly_example :
    GotOnly read_org "ws1" "org"
      (all_happen plain_jwt "s1" read_org
        (connects 1500000000 "s1/access/j1" "ws1"
          ∷ polls (λ ws. false) (message "other")
          ∷ polls (λ ws. false) (message "org")
          ∷ [])
        (record { bound = true; clients = []; sent = []; closed = [] })).sent
unfolding indu_sense.Auth.Token.parse_and_validate
all_happen-GotOnly_example =
    all_happen-GotOnly plain_jwt "s1" read_org "ws1" "org"
      (connects 1500000000 "s1/access/j1" "ws1"
        ∷ polls (λ ws. false) (message "other")
        ∷ polls (λ ws. false) (message "org")
        ∷ [])
      true (λ e c read. ground arith, (tt, (tt, tt)))

fan_out-delivers_example :
    In
      ("ws1", "org")
      (fan_out read_org
        (λ ws. false)
        (message "org")
        (record {
          bound = true;
          clients = ("ws2", "other") ∷ ("ws1", "org") ∷ [];
          sent = [];
          closed = [];
        })).sent
unfolding indu_sense.Base.Dict.lookup
fan_out-delivers_example =
    fan_out-delivers read_org (λ ws. false) "ws1" "org" "org"
      (record {
        bound = true;
        clients = ("ws2", "other") ∷ ("ws1", "org") ∷ [];
        sent = [];
        closed = [];
      })
      refl refl refl refl
