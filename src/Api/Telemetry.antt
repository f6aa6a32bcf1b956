-- ===== src/Api/Telemetry.antt =====
-- services/api/handlers_telemetry.py over the table of devices and InfluxDB. A query goes by what is
-- put into its text; its answer, the tables of records, is InfluxDB's.
pub mod Disclosure
use indu_sense.Base.{
  ℕ, String, Bool, true, false, ◌&&◌, ◌||◌, not, Option, none, some, List, [], ◌∷◌, ◌++◌, ◌==◌, mem,
  concat, if◌then◌else◌, any, length,
}
use indu_sense.Events.{valid_metrics}
use indu_sense.Auth.Token.{Claims}
use indu_sense.Api.{Response, success, refused, internal_error, ◌>>=◌, Page, paginated_response}
use indu_sense.Api.Devices.{Device, is_in}

-- the query parameters, which are "" where they are missing
pub record Params : Type 0 where
  pub device_id : String
  pub metric : String
  pub start : String
  pub stop : String
  pub range : String

pub record Target : Type 0 where
  pub device_id : String
  pub metric : String

-- Flux: the bucket, the range and the filter, and whether the last record is asked for
pub record FluxQuery : Type 0 where
  pub bucket : String
  pub range : String
  pub target : Target
  pub only_last : Bool

pub record Sample (F : Type 0) : Type 0 where
  pub time : ℕ
  pub value : F

-- `query_api.query`: the tables of records, or `none` where it raises
abbrev pub QueryApi : Type 0 → Type 0
QueryApi F = FluxQuery → Option (List (List (Sample F)))

-- `is_uuid` if `uuid.UUID` takes the text
unfoldable pub require_device_and_metric :
    (String → Bool) → Params → Claims → List Device → Response Target
require_device_and_metric is_uuid p claims devices =
    if p.device_id == "" || p.metric == ""
    then refused 400 "VALIDATION_ERROR"
    else if not (is_uuid p.device_id)
    then refused 400 "VALIDATION_ERROR"
    else if not (mem p.metric valid_metrics)
    then refused 400 "VALIDATION_ERROR"
    else if not (any (is_in claims.organization_id p.device_id) devices)
    then refused 404 "NOT_FOUND"
    else success (record { device_id = p.device_id; metric = p.metric })

-- `is_rfc3339` is the test by `datetime.fromisoformat`; `none` is a ValueError.
unfoldable pub build_range_clause : (String → Bool) → Params → Option String
build_range_clause is_rfc3339 p =
    if p.start == ""
    then (if p.range == "5m" || p.range == ""
        then some "start: -5m"
        else if p.range == "1h"
        then some "start: -1h"
        else if p.range == "24h"
        then some "start: -24h"
        else none)
    else if not (is_rfc3339 p.start)
    then none
    else if p.stop == ""
    then some (concat ("start: " ∷ p.start ∷ []))
    else if not (is_rfc3339 p.stop)
    then none
    else some (concat ("start: " ∷ p.start ∷ ", stop: " ∷ p.stop ∷ []))

module _ {F : Type 0} where
  -- the first record of the first table that has one
  abbrev pub first_record : List (List (Sample F)) → Response (Sample F)
  first_record [] = refused 404 "NOT_FOUND"
  first_record ([] ∷ tables) = first_record tables
  first_record ((r ∷ records) ∷ tables) = success r

  abbrev latest_of : Option (List (List (Sample F))) → Response (Sample F)
  latest_of none = internal_error
  latest_of (some tables) = first_record tables

  unfoldable pub telemetry_latest :
      QueryApi F → String → (String → Bool) → Params → Claims → List Device → Response (Sample F)
  unfolding require_device_and_metric
  telemetry_latest query bucket is_uuid p claims devices = do
    target ← require_device_and_metric is_uuid p claims devices
    latest_of (
        query
          (record { bucket = bucket; range = "start: -24h"; target = target; only_last = true }))

  abbrev pub all_records : List (List (Sample F)) → List (Sample F)
  all_records [] = []
  all_records (records ∷ tables) = records ++ all_records tables

  abbrev page_of : Option (List (List (Sample F))) → Response (Page (Sample F))
  page_of none = internal_error
  page_of (some tables) =
      let out = all_records tables in success (paginated_response out (length out) 0)

  abbrev in_range : QueryApi F → String → Target → Option String → Response (Page (Sample F))
  in_range query bucket target none = refused 400 "VALIDATION_ERROR"
  in_range query bucket target (some range) =
      page_of
        (query (record { bucket = bucket; range = range; target = target; only_last = false }))

  unfoldable pub telemetry_range :
      QueryApi F
      → String
      → (String → Bool)
      → (String → Bool)
      → Params
      → Claims
      → List Device
      → Response (Page (Sample F))
  unfolding require_device_and_metric build_range_clause
  telemetry_range query bucket is_uuid is_rfc3339 p claims devices = do
    target ← require_device_and_metric is_uuid p claims devices
    in_range query bucket target (build_range_clause is_rfc3339 p)
