-- ===== src/Simulator/Run.antt =====
-- The simulator's tasks and threads over one bounded queue: simulator/main.py. The tasks of the event
-- loop and the worker threads take turns in any order; what is put on the queue is the event itself,
-- before it is written as JSON.
pub mod Accounts
pub mod Drain
use indu_sense.Base.{
  ℕ, zero, suc, ◌+◌, String, Bool, true, false, ◌||◌, not, Option, none, some, List, [], ◌∷◌, ◌++◌,
  length, ltb, leb, concat, get_elem?, set, remove, if◌then◌else◌,
}
use indu_sense.Base.Dict.{Dict, get_or, insert}
use indu_sense.Float.{Float}
use indu_sense.Events.{TelemetryEvent, MachineEvent}
use indu_sense.Simulator.{Rng, FaultDecision, Rates, should_toggle}
use indu_sense.Simulator.Sensor.{
  SensorCatalogEntry, Sensor, Tick, Reading, Turn, telemetry_topic, events_topic, sensor_event,
  run_sensor,
}

-- `MachineStatusEvent` of shared/events.py
pub record MachineStatusEvent : Type 0 where
  pub organization_id : String
  pub factory_id : String
  pub machine_id : String
  pub status : String
  pub timestamp : Option ℕ

pub data Payload (F : Type 0) : Type 0 where
  telemetry : TelemetryEvent F → Payload F
  machine_event : MachineEvent → Payload F
  machine_status : MachineStatusEvent → Payload F

pub record PublishJob (F : Type 0) : Type 0 where
  pub topic : String
  pub payload : Payload F

pub record Stats : Type 0 where
  pub published : ℕ
  pub duplicates : ℕ
  pub delayed : ℕ
  pub out_of_order : ℕ
  pub anomalies : ℕ
  pub dropped : ℕ
  pub sensor_failed : ℕ
  pub publish_errs : ℕ

-- a `delayed_send` that sleeps
pub record Delayed (F : Type 0) : Type 0 where
  pub topic : String
  pub event : TelemetryEvent F
  pub duplicate : Bool

-- the task of one device, `_run_machine_controller`
pub record Controller (F : Type 0) : Type 0 where
  pub organization_id : String
  pub device_id : String
  pub factory_id : String
  pub machine_id : String
  pub rng : Rng F

-- what a publication counts as: `publishes` if the broker confirms in time
abbrev pub counted : Bool → Stats → Stats
counted publishes stats =
    if publishes
    then record stats { published = stats.published + 1 }
    else record stats { publish_errs = stats.publish_errs + 1 }

-- What the tasks share. `enqueued` counts the calls of `enqueue`, for the theorems.
pub record Simulation (F : Type 0) : Type 0 where
  pub capacity : ℕ
  pub jobs : List (PublishJob F)
  pub stats : Stats
  pub machines : Dict Bool
  pub sensors : List (Sensor F)
  pub controllers : List (Controller F)
  pub sleeping : List (Delayed F)
  -- what workers have taken off the queue, and not yet counted
  pub in_flight : List (PublishJob F)
  pub enqueued : ℕ

module _ {F : Type 0} where
  -- `put_nowait` on a queue of that capacity, where 0 stands for no bound
  unfoldable pub enqueue : String → Payload F → Simulation F → Simulation F
  enqueue topic payload s =
      if leb s.capacity 0 || ltb (length s.jobs) s.capacity
      then record s {
        jobs = s.jobs ++ record { topic = topic; payload = payload } ∷ [];
        enqueued = s.enqueued + 1;
      }
      else record s {
        stats = record s.stats { dropped = s.stats.dropped + 1 };
        enqueued = s.enqueued + 1;
      }

  -- `get_machine(device_id).is_running()`; a new controller runs
  abbrev pub is_running : String → Simulation F → Bool
  is_running device_id s = get_or device_id true s.machines

  -- the `send`s of one event, at once or after the delay
  unfoldable pub send_event : String → TelemetryEvent F → Bool → Simulation F → Simulation F
  send_event topic event duplicate s =
      let once = enqueue topic (telemetry event) s in
      if duplicate
      then enqueue topic (telemetry event)
          (record once { stats = record once.stats { duplicates = once.stats.duplicates + 1 } })
      else once

  unfoldable pub publish_event :
      String → TelemetryEvent F → FaultDecision F → Simulation F → Simulation F
  unfolding send_event
  publish_event topic event fd s =
      if fd.delayed
      then record s {
        stats = record s.stats {
          delayed = s.stats.delayed + 1;
          out_of_order = if fd.out_of_order then s.stats.out_of_order + 1 else s.stats.out_of_order;
        };
        sleeping =
            s.sleeping ++ record { topic = topic; event = event; duplicate = fd.duplicate } ∷ [];
      }
      else send_event topic event fd.duplicate s

  unfoldable pub report_change :
      SensorCatalogEntry F → ℕ → Bool → Option String → Simulation F → Simulation F
  report_change entry now failed none s = s
  report_change entry now failed (some event_type) s =
      enqueue (events_topic entry) (machine_event (sensor_event entry event_type now)) (
        if failed
        then record s { stats = record s.stats { sensor_failed = s.stats.sensor_failed + 1 } }
        else s)

  unfoldable pub report_reading :
      SensorCatalogEntry F → Option (Reading F) → Simulation F → Simulation F
  unfolding publish_event
  report_reading entry none s = s
  report_reading entry (some r) s = publish_event (telemetry_topic entry) r.event r.faults (
      if r.is_anomaly
      then record s { stats = record s.stats { anomalies = s.stats.anomalies + 1 } }
      else s)

  unfoldable pub report_turn : ℕ → Turn F → Simulation F → Simulation F
  unfolding report_change report_reading
  report_turn now t s =
      report_reading t.sensor.entry t.reading
        (report_change t.sensor.entry now t.sensor.failed t.changed s)

  -- a machine that is toggled: `running` is what it was
  unfoldable pub toggled : Controller F → Bool → ℕ → Simulation F → Simulation F
  unfolding enqueue
  toggled c running now s =
      let new_status = if running then "STOPPED" else "RUNNING" in
      let flipped = record s { machines = insert c.device_id (not running) s.machines } in
      enqueue (concat ("factory/" ∷ c.factory_id ∷ "/machine/" ∷ c.machine_id ∷ "/events" ∷ []))
        (machine_event (record {
          organization_id = c.organization_id;
          factory_id = c.factory_id;
          machine_id = c.machine_id;
          device_id = c.device_id;
          sensor_id = "";
          status = "";
          event_type = concat ("MACHINE_" ∷ new_status ∷ []);
          timestamp = some now;
        }))
        (enqueue (concat ("factory/" ∷ c.factory_id ∷ "/machine/" ∷ c.machine_id ∷ "/status" ∷ []))
          (machine_status (record {
            organization_id = c.organization_id;
            factory_id = c.factory_id;
            machine_id = c.machine_id;
            status = new_status;
            timestamp = some now;
          }))
          flipped)

  abbrev pub toggled_if : Bool → Controller F → Bool → ℕ → Simulation F → Simulation F
  toggled_if true c running now s = toggled c running now s
  toggled_if false c running now s = s

  -- A worker gets a job off the queue.
  unfoldable pub take_job : List (PublishJob F) → Simulation F → Simulation F
  take_job [] s = s
  take_job (job ∷ jobs) s = record s { jobs = jobs; in_flight = s.in_flight ++ job ∷ [] }

  -- The worker that has the i-th job in flight ends its publication, and counts it.
  unfoldable pub finish_job : Bool → ℕ → Option (PublishJob F) → Simulation F → Simulation F
  finish_job publishes i none s = s
  finish_job publishes i (some job) s = record s {
    in_flight = remove s.in_flight i;
    stats = counted publishes s.stats;
  }

  -- the sleeper that wakes sends its event
  unfoldable pub woken : ℕ → Option (Delayed F) → Simulation F → Simulation F
  woken i none s = s
  woken i (some d) s =
      send_event d.topic d.event d.duplicate (record s { sleeping = remove s.sleeping i })

module _ {F : Type 0} (f : Float F) where
  unfoldable pub controller_turn : ℕ → ℕ → Option (Controller F) → Simulation F → Simulation F
  controller_turn i now none s = s
  controller_turn i now (some c) s =
      let running = is_running c.device_id s in
      let t = should_toggle f running c.rng in
      toggled_if t.0 c running now
        (record s { controllers = set s.controllers i (record c { rng = t.1 }) })

-- A task or a thread takes its turn: the i-th sensor, the i-th controller, the i-th sleeper, a worker
-- that gets a job, and the worker with the i-th job in flight.
pub data Move : Type 0 where
  senses : ℕ → Tick → Move
  controls : ℕ → ℕ → Move
  wakes : ℕ → Move
  takes : Move
  finishes : Bool → ℕ → Move

module _ {F : Type 0} (f : Float F) (round : F → F) (rates : Rates F) where
  unfoldable pub sensor_turn : ℕ → Tick → Option (Sensor F) → Simulation F → Simulation F
  unfolding report_turn
  sensor_turn i t none s = s
  sensor_turn i t (some sensor) s =
      let turn = run_sensor f round rates (is_running sensor.entry.device_id s) t sensor in
      report_turn t.now turn (record s { sensors = set s.sensors i turn.sensor })

  unfoldable pub step : Move → Simulation F → Simulation F
  unfolding sensor_turn controller_turn take_job finish_job woken
  step (senses i t) s = sensor_turn i t (get_elem? s.sensors i) s
  step (controls i now) s = controller_turn f i now (get_elem? s.controllers i) s
  step (wakes i) s = woken i (get_elem? s.sleeping i) s
  step takes s = take_job s.jobs s
  step (finishes publishes i) s = finish_job publishes i (get_elem? s.in_flight i) s

  unfoldable pub run : List Move → Simulation F → Simulation F
  run [] s = s
  run (m ∷ moves) s = run moves (step m s)
