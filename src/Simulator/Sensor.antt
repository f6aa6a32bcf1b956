-- ===== src/Simulator/Sensor.antt =====
-- The loop of one sensor, `_run_sensor` of simulator/main.py: what one turn reads and reports.
pub mod Numbering
use indu_sense.Base.{
  ℕ, ◌+◌, String, Bool, true, false, ◌&&◌, ◌||◌, not, Option, none, some, List, [], ◌∷◌, concat,
  if◌then◌else◌,
}
use indu_sense.Float.{Float}
use indu_sense.Events.{pos, TelemetryEvent, MachineEvent}
use indu_sense.Simulator.{
  Rng, FaultDecision, Rates, SensorGenerator, decide_faults, sensor_should_fail, next,
}

pub record SensorCatalogEntry (F : Type 0) : Type 0 where
  pub organization_id : String
  pub factory_id : String
  pub production_line_id : String
  pub machine_id : String
  pub device_id : String
  pub sensor_id : String
  pub metric : String
  pub unit : String
  pub min_value : F
  pub max_value : F

-- the local variables of the loop
pub record Sensor (F : Type 0) : Type 0 where
  pub entry : SensorCatalogEntry F
  pub seq : ℕ
  pub failed : Bool
  pub gen : SensorGenerator F
  pub rng : Rng F

-- the clock and the new event's id of one turn
pub record Tick : Type 0 where
  pub now : ℕ
  pub event_id : String

pub record Reading (F : Type 0) : Type 0 where
  pub event : TelemetryEvent F
  pub is_anomaly : Bool
  pub faults : FaultDecision F

-- what a turn gives: the type of an event that reports a failure or a recovery, and a reading
pub record Turn (F : Type 0) : Type 0 where
  pub sensor : Sensor F
  pub changed : Option String
  pub reading : Option (Reading F)

-- the change of `failed` that is reported, from what it was to what it is
unfoldable pub failure_change : Bool → Bool → Option String
failure_change false true = some "SENSOR_FAILURE"
failure_change true false = some "SENSOR_RECOVERED"
failure_change false false = none
failure_change true true = none

module _ {F : Type 0} where
  abbrev pub telemetry_topic : SensorCatalogEntry F → String
  telemetry_topic e = concat (
      "factory/" ∷ e.factory_id ∷ "/machine/" ∷ e.machine_id ∷ "/sensor/" ∷ e.sensor_id
      ∷ "/telemetry" ∷ [])

  abbrev pub events_topic : SensorCatalogEntry F → String
  events_topic e = concat ("factory/" ∷ e.factory_id ∷ "/machine/" ∷ e.machine_id ∷ "/events" ∷ [])

  abbrev pub sensor_event : SensorCatalogEntry F → String → ℕ → MachineEvent
  sensor_event e event_type now = record {
    organization_id = e.organization_id;
    factory_id = e.factory_id;
    machine_id = e.machine_id;
    device_id = e.device_id;
    sensor_id = e.sensor_id;
    status = "";
    event_type = event_type;
    timestamp = some now;
  }

  abbrev pub reading_event : SensorCatalogEntry F → Tick → ℕ → F → TelemetryEvent F
  reading_event e t seq value = record {
    event_id = t.event_id;
    organization_id = e.organization_id;
    factory_id = e.factory_id;
    production_line_id = e.production_line_id;
    machine_id = e.machine_id;
    device_id = e.device_id;
    sensor_id = e.sensor_id;
    timestamp = some t.now;
    sequence_number = pos seq;
    metric = e.metric;
    value = value;
    unit = e.unit;
  }

module _ {F : Type 0} (f : Float F) (round : F → F) (rates : Rates F) where
  -- the reading of a sensor that works, with the generator `rng`
  unfoldable pub read_value : Tick → Sensor F → Rng F → Sensor F × Reading F
  read_value t s rng =
      let n = next f round s.gen rng in
      let d = decide_faults f rates n.2 in
      (
        record s { seq = s.seq + 1; failed = false; gen = n.1; rng = d.1 },
        record {
          event = reading_event s.entry t (s.seq + 1) n.0.0;
          is_anomaly = n.0.1;
          faults = d.0;
        },
      )

  unfoldable pub after_failure_test : Tick → Sensor F → Bool × Rng F → Turn F
  unfolding read_value failure_change
  after_failure_test t s (true, rng) = record {
    sensor = record s { failed = true; rng = rng };
    changed = failure_change s.failed true;
    reading = none;
  }
  after_failure_test t s (false, rng) =
      let r = read_value t s rng in
      record { sensor = r.0; changed = failure_change s.failed false; reading = some r.1 }

  -- one turn, with whether the machine runs
  unfoldable pub run_sensor : Bool → Tick → Sensor F → Turn F
  unfolding after_failure_test
  run_sensor false t s = record { sensor = s; changed = none; reading = none }
  run_sensor true t s =
      after_failure_test t s (sensor_should_fail f s.failed rates.sensor_failure_rate s.rng)
