-- ===== src/Api/Factories.antt =====
-- services/api/handlers_factories.py over the hierarchy of factories, lines, machines and devices,
-- and `list_device_sensors` of handlers_devices.py. ORDER BY on a text is the database's.
use indu_sense.Base.{
  String, Bool, ◌&&◌, Option, none, some, List, map, ◌==◌, if◌then◌else◌, any, filter, find, take,
  drop, length,
}
use indu_sense.Base.Order.{order_by}
use indu_sense.Events.{ℤ}
use indu_sense.Auth.Token.{Claims}
use indu_sense.Api.{Response, success, refused, parse_limit_offset, Page, paginated_response}
use indu_sense.Api.Devices.{Device, is_in}

pub record Factory : Type 0 where
  pub id : String
  pub name : String
  pub city : String
  pub country : String
  pub organization_id : String

pub record ProductionLine : Type 0 where
  pub id : String
  pub name : String
  pub factory_id : String

pub record MachineRow : Type 0 where
  pub id : String
  pub name : String
  pub machine_type : String
  pub status : String
  pub production_line_id : String

pub record SensorRow (F : Type 0) : Type 0 where
  pub id : String
  pub device_id : String
  pub metric : String
  pub unit : String
  pub min_operating_value : Option F
  pub max_operating_value : Option F

pub record SensorRead (F : Type 0) : Type 0 where
  pub id : String
  pub metric : String
  pub unit : String
  pub min_operating_value : F
  pub max_operating_value : F

pub record Hierarchy (F : Type 0) : Type 0 where
  pub factories : List Factory
  pub lines : List ProductionLine
  pub machines : List MachineRow
  pub devices : List Device
  pub sensors : List (SensorRow F)

abbrev pub or_404 : {A : Type 0} → Option A → Response A
or_404 none = refused 404 "NOT_FOUND"
or_404 (some a) = success a

-- all rows on one page
abbrev pub one_page : {A : Type 0} → List A → Page A
one_page rows = paginated_response rows (length rows) 0

abbrev pub factory_in : String → String → Factory → Bool
factory_in org_id id f = f.id == id && f.organization_id == org_id

module _ {F : Type 0} where
  -- `JOIN factories f ON f.id = pl.factory_id WHERE f.organization_id = %s`
  abbrev pub line_in : String → Hierarchy F → ProductionLine → Bool
  line_in org_id h l = any (factory_in org_id l.factory_id) h.factories

  -- and the machine's line
  abbrev pub machine_in : String → Hierarchy F → MachineRow → Bool
  machine_in org_id h m = any (λ l. l.id == m.production_line_id && line_in org_id h l) h.lines

  unfoldable pub get_factory : String → Claims → Hierarchy F → Response Factory
  get_factory id claims h = or_404 (find (factory_in claims.organization_id id) h.factories)

  unfoldable pub get_machine : String → Claims → Hierarchy F → Response MachineRow
  get_machine id claims h =
      or_404 (find (λ m. m.id == id && machine_in claims.organization_id h m) h.machines)

module _ {F : Type 0} (before : String → String → Bool) where
  unfoldable pub list_factories :
      (String → Option ℤ) → Option String → Option String → Claims → Hierarchy F → Page Factory
  list_factories int limit offset claims h =
      let page = parse_limit_offset int limit offset in
      paginated_response
        (take page.0 (
          drop page.1 (
            order_by (λ f g. before f.name g.name)
              (filter (λ f. f.organization_id == claims.organization_id) h.factories))))
        page.0 page.1

  unfoldable pub list_production_lines :
      String → Claims → Hierarchy F → Response (Page ProductionLine)
  list_production_lines id claims h =
      if any (factory_in claims.organization_id id) h.factories
      then success (
          one_page
            (order_by (λ l k. before l.name k.name) (filter (λ l. l.factory_id == id) h.lines)))
      else refused 404 "NOT_FOUND"

  unfoldable pub list_line_machines : String → Claims → Hierarchy F → Response (Page MachineRow)
  list_line_machines id claims h =
      if any (λ l. l.id == id && line_in claims.organization_id h l) h.lines
      then success (
          one_page (
            order_by (λ m n. before m.name n.name)
              (filter (λ m. m.production_line_id == id) h.machines)))
      else refused 404 "NOT_FOUND"

  -- the devices of the machine with the id, if that machine is in the organization
  unfoldable pub list_machine_devices : String → Claims → Hierarchy F → Page Device
  list_machine_devices id claims h = one_page (
      order_by (λ d e. before d.serial_number e.serial_number)
        (filter
          (λ d.
            d.machine_id == id
            && any (λ m. m.id == id && machine_in claims.organization_id h m) h.machines)
          h.devices))

-- COALESCE(value, 0)
abbrev or_zero : {F : Type 0} → F → Option F → F
or_zero zero none = zero
or_zero zero (some v) = v

module _ {F : Type 0} (zero : F) (before : String → String → Bool) where
  abbrev sensor_read : SensorRow F → SensorRead F
  sensor_read r = record {
    id = r.id;
    metric = r.metric;
    unit = r.unit;
    min_operating_value = or_zero zero r.min_operating_value;
    max_operating_value = or_zero zero r.max_operating_value;
  }

  unfoldable pub list_device_sensors :
      String → Claims → Hierarchy F → Response (Page (SensorRead F))
  list_device_sensors id claims h =
      if any (is_in claims.organization_id id) h.devices
      then success (
          one_page (
            map (λ r. sensor_read r)
              (order_by (λ r q. before r.metric q.metric)
                (filter (λ r. r.device_id == id) h.sensors))))
      else refused 404 "NOT_FOUND"
