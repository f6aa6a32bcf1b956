-- ===== src/Detector/Catalog.antt =====
-- services/anomaly-detector/catalog.py.
use indu_sense.Base.{String, List, [], ◌∷◌, ◌++◌, Option, none, some, mem, if◌then◌else◌}
use indu_sense.Base.Dict.{Dict, lookup, insert}
use indu_sense.Detector.{MetricRange}
use indu_sense.Detector.Features.{or_empty}

pub record DeviceInfo (F : Type 0) : Type 0 where
  pub machine_type : String
  pub ranges : Dict (MetricRange F)

pub record Catalog (F : Type 0) : Type 0 where
  pub devices : Dict (DeviceInfo F)
  pub feature_order : Dict (List String)

-- A row of `_CATALOG_QUERY`.
pub record CatalogRow (F : Type 0) : Type 0 where
  pub device_id : String
  pub machine_type : String
  pub metric : String
  pub lo : F
  pub hi : F

sort_all : (List String → List String) → Dict (List String) → Dict (List String)
sort_all sorted [] = []
sort_all sorted ((t, metrics) ∷ rest) = (t, sorted metrics) ∷ sort_all sorted rest

module _ {F : Type 0} where
  info_or_new : String → Option (DeviceInfo F) → DeviceInfo F
  info_or_new machine_type none = record { machine_type = machine_type; ranges = [] }
  info_or_new machine_type (some info) = info

  -- the loop of `refresh` over the devices
  refresh_devices : List (CatalogRow F) → Dict (DeviceInfo F) → Dict (DeviceInfo F)
  unfolding info_or_new
  refresh_devices [] devices = devices
  refresh_devices (row ∷ rows) devices =
      let info = info_or_new row.machine_type (lookup row.device_id devices) in
      refresh_devices rows (
        insert row.device_id
          (record info {
            ranges = insert row.metric (record { min = row.lo; max = row.hi }) info.ranges;
          })
          devices)

  -- the sets of metrics by machine type, as lists without repetition
  refresh_metrics : List (CatalogRow F) → Dict (List String) → Dict (List String)
  refresh_metrics [] metrics = metrics
  refresh_metrics (row ∷ rows) metrics =
      let known = or_empty (lookup row.machine_type metrics) in
      refresh_metrics rows (
        insert row.machine_type (if mem row.metric known then known else known ++ row.metric ∷ [])
          metrics)

  -- `sorted` is Python's
  unfoldable pub refresh : (List String → List String) → List (CatalogRow F) → Catalog F
  unfolding refresh_devices refresh_metrics sort_all
  refresh sorted rows = record {
    devices = refresh_devices rows [];
    feature_order = sort_all sorted (refresh_metrics rows []);
  }
