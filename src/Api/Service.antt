-- ===== src/Api/Service.antt =====
-- services/api/main.py: the test of the secrets at the start, the gauge of devices, the bodies that
-- errors are answered with, and the readiness of handlers_health.py.
use indu_sense.Base.{
  ℕ, ◌+◌, String, Bool, ◌&&◌, ◌||◌, Option, none, some, List, [], ◌∷◌, ◌==◌, if◌then◌else◌, leb,
}
use indu_sense.Base.Dict.{Dict, insert, lookup}
use indu_sense.Api.{ApiError}
use indu_sense.Api.Devices.{Device}

-- `jwt_secrets_are_default` of config.py
unfoldable pub jwt_secrets_are_default : String → String → Bool
jwt_secrets_are_default access_secret refresh_secret =
    access_secret == "change-me-dev-only-access-secret"
    || refresh_secret == "change-me-dev-only-refresh-secret"

-- what the start of the service comes to
pub data Start : Type 0 where
  refuses starts_with_a_warning starts : Start

unfoldable pub start : String → String → String → Start
unfolding jwt_secrets_are_default
start access_secret refresh_secret environment =
    if jwt_secrets_are_default access_secret refresh_secret
    then (if environment == "production" then refuses else starts_with_a_warning)
    else starts

-- the error envelope
pub record ErrorBody : Type 0 where
  pub status_code : ℕ
  pub code : String
  pub request_id : String

-- What reaches the exception handlers: an APIError, an HTTPException of Starlette with its status, a
-- request that does not validate, or any other exception.
pub data Raised : Type 0 where
  api_error : ApiError → Raised
  http_exception : ℕ → Raised
  validation_error : Raised
  other_exception : Raised

unfoldable pub answer_error : String → Raised → ErrorBody
answer_error request_id (api_error e) = record {
  status_code = e.status_code;
  code = e.code;
  request_id = request_id;
}
answer_error request_id (http_exception status) = record {
  status_code = status;
  code = if leb status 404 && leb 404 status then "NOT_FOUND" else "HTTP_ERROR";
  request_id = request_id;
}
answer_error request_id validation_error = record {
  status_code = 400;
  code = "INVALID_BODY";
  request_id = request_id;
}
answer_error request_id other_exception = record {
  status_code = 500;
  code = "INTERNAL_ERROR";
  request_id = request_id;
}

-- `RequestIDMiddleware`: the caller's id, or a fresh one
unfoldable pub request_id : Option String → String → String
request_id none fresh = fresh
request_id (some id) fresh = if id == "" then fresh else id

-- `DepStatus`: what each dependency answers, "ok" if all is well
pub record DepStatus : Type 0 where
  pub postgres : String
  pub redis : String
  pub kafka : String
  pub mqtt : String
  pub influxdb : String

-- the status code of /ready
unfoldable pub ready : DepStatus → ℕ
ready s =
    if s.postgres == "ok" && (s.redis == "ok" && (s.kafka == "ok" && s.influxdb == "ok"))
    then 200
    else 503

abbrev device_statuses : List String
device_statuses = "PROVISIONED" ∷ "ACTIVE" ∷ "OFFLINE" ∷ "MAINTENANCE" ∷ "DECOMMISSIONED" ∷ []

abbrev count_of : Option ℕ → ℕ
count_of none = 0
count_of (some n) = n

-- SELECT status, count(*) FROM devices GROUP BY status
unfoldable pub by_status : List Device → Dict ℕ
by_status [] = []
by_status (d ∷ devices) =
    let counts = by_status devices in insert d.status (count_of (lookup d.status counts) + 1) counts

abbrev set_all : Dict ℕ → Dict ℕ → Dict ℕ
set_all [] gauge = gauge
set_all ((status, n) ∷ rows) gauge = set_all rows (insert status n gauge)

abbrev zero_unseen : List String → Dict ℕ → Dict ℕ → Dict ℕ
zero_unseen [] rows gauge = gauge
zero_unseen (s ∷ statuses) rows gauge =
    zero_unseen statuses rows (elim (lookup s rows) [ none ↦ insert s 0 gauge | some n ↦ gauge ])

-- one round of `_run_device_gauge_refresher`; without an answer of the database the gauge stays
unfoldable pub refresh_gauge : Option (Dict ℕ) → Dict ℕ → Dict ℕ
refresh_gauge none gauge = gauge
refresh_gauge (some rows) gauge = zero_unseen device_statuses rows (set_all rows gauge)
