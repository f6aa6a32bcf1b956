-- ===== src/Simulator/Catalog.antt =====
-- `load_sensor_catalog` of simulator/loader.py, over the tables that its statement joins, and `publish`
-- of simulator/publisher.py. A table of which only a reference is read maps ids to ids.
use indu_sense.Base.{ℕ, String, Bool, false, Option, none, some, List, [], ◌∷◌, take}
use indu_sense.Base.Order.{order_by}
use indu_sense.Base.Dict.{Dict, lookup}
use indu_sense.Float.{Float, number}
use indu_sense.Simulator.Sensor.{SensorCatalogEntry}

pub record SensorRow (F : Type 0) : Type 0 where
  pub id : String
  pub device_id : String
  pub metric : String
  pub unit : String
  pub min_operating_value : Option F
  pub max_operating_value : Option F

pub record Tables (F : Type 0) : Type 0 where
  pub sensors : List (SensorRow F)
  pub machine_of_device : Dict String
  pub line_of_machine : Dict String
  pub factory_of_line : Dict String
  pub organization_of_factory : Dict String

-- an inner join goes on with the row that a reference leads to
infixl 5 ◌>>=◌
abbrev ◌>>=◌ : {A B : Type 0} → Option A → (A → Option B) → Option B
none >>= f = none
some a >>= f = f a

module _ {F : Type 0} (f : Float F) where
  abbrev or_number : ℕ → Option F → F
  or_number n none = number f n
  or_number n (some x) = x

  -- the row of the join for one sensor; a reference that leads nowhere gives no row
  unfoldable pub joined : Tables F → SensorRow F → Option (SensorCatalogEntry F)
  joined t s = do
    machine_id ← lookup s.device_id t.machine_of_device
    production_line_id ← lookup machine_id t.line_of_machine
    factory_id ← lookup production_line_id t.factory_of_line
    organization_id ← lookup factory_id t.organization_of_factory
    some (record {
      organization_id = organization_id;
      factory_id = factory_id;
      production_line_id = production_line_id;
      machine_id = machine_id;
      device_id = s.device_id;
      sensor_id = s.id;
      metric = s.metric;
      unit = s.unit;
      min_value = or_number 0 s.min_operating_value;
      max_value = or_number 100 s.max_operating_value;
    })

  unfoldable pub all_joined : Tables F → List (SensorRow F) → List (SensorCatalogEntry F)
  unfolding joined
  all_joined t [] = []
  all_joined t (s ∷ sensors) =
      let rest = all_joined t sensors in elim (joined t s) [ none ↦ rest | some e ↦ e ∷ rest ]

  -- `before` is the order of ids
  unfoldable pub load_sensor_catalog :
      (String → String → Bool) → ℕ → Tables F → List (SensorCatalogEntry F)
  unfolding all_joined
  load_sensor_catalog before limit t =
      take limit (all_joined t (order_by (λ a b. before a.id b.id) t.sensors))

-- what waiting for a publication comes to: an exception, or whether it is published by then
pub data Waited : Type 0 where
  raises : Waited
  returns : Bool → Waited

-- `MQTTPublisher.publish`: whether it returns
unfoldable pub publish : Waited → Bool
publish raises = false
publish (returns is_published) = is_published
