-- ===== src/Api/Telemetry/Disclosure.antt =====
-- services/api/handlers_telemetry.py tells nothing of a device of another organization.
use indu_sense.Base.{
  String, Bool, true, false, ◌||◌, not, List, ◌≡◌, refl, ◌==◌, mem, any, if◌then◌else◌,
}
use indu_sense.Events.{valid_metrics}
use indu_sense.Auth.Token.{Claims}
use indu_sense.Api.{Response, failure, ApiError}
use indu_sense.Api.Devices.{Device, is_in}
use indu_sense.Api.Telemetry.{
  Params, Target, QueryApi, require_device_and_metric, telemetry_latest, telemetry_range,
}

abbrev Fails : Response Target → Type 0
Fails r = (e : ApiError) × (r ≡ failure e)

if-Fails :
    (b : Bool) (e : ApiError) (r : Response Target) → Fails r → Fails (if b then failure e else r)
if-Fails true e r h = (e, refl)
if-Fails false e r h = h

-- A device that is not the organization's is refused before anything is asked.
refuses_foreign :
    (is_uuid : String → Bool) (p : Params) (claims : Claims) (devices : List Device)
    → any (is_in claims.organization_id p.device_id) devices ≡ false
    → Fails (require_device_and_metric is_uuid p claims devices)
unfolding require_device_and_metric
refuses_foreign is_uuid p claims devices h = if-Fails (p.device_id == "" || p.metric == "") _ _ (
    if-Fails (not (is_uuid p.device_id)) _ _
      (if-Fails (not (mem p.metric valid_metrics)) _ _ (rw h (_, refl))))

-- The answers to a request for telemetry of a device that is not in the caller's organization do not
-- depend on what InfluxDB holds.
pub telemetry-foreign :
    {F : Type 0} (query other : QueryApi F) (bucket : String) (is_uuid is_rfc3339 : String → Bool)
    (p : Params) (claims : Claims) (devices : List Device)
    → any (is_in claims.organization_id p.device_id) devices ≡ false
    → (telemetry_latest query bucket is_uuid p claims devices
        ≡ telemetry_latest other bucket is_uuid p claims devices)
      × (telemetry_range query bucket is_uuid is_rfc3339 p claims devices
          ≡ telemetry_range other bucket is_uuid is_rfc3339 p claims devices)
unfolding telemetry_latest telemetry_range
telemetry-foreign query other bucket is_uuid is_rfc3339 p claims devices h =
    let (e, fails) = refuses_foreign is_uuid p claims devices h in (rw fails, rw fails)
