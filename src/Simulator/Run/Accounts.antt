-- ===== src/Simulator/Run/Accounts.antt =====
-- The queue and the counters of simulator/main.py, whatever order the tasks and the workers run in.
use indu_sense.Base.{
  ℕ, ◌+◌, ◌≤◌, String, ◌≡◌, refl, ◌⊎◌, Bool, true, false, Option, none, some, List, [], ◌∷◌, arith,
  length, if◌then◌else◌, length-append, length-remove, get_elem?,
}
use indu_sense.Float.{Float}
use indu_sense.Events.{TelemetryEvent}
use indu_sense.Simulator.{FaultDecision, Rates}
use indu_sense.Simulator.Sensor.{SensorCatalogEntry, Sensor, Tick, Reading, run_sensor}
use indu_sense.Simulator.Run.{
  Payload, PublishJob, Delayed, Controller, Simulation, enqueue, is_running, send_event,
  publish_event, report_change, report_reading, report_turn, toggled, toggled_if, take_job,
  finish_job, woken, Move, senses, controls, wakes, takes, finishes, sensor_turn, controller_turn,
  step, run,
}

-- The queue keeps to its capacity, and every call of `enqueue` is accounted for: published, failed,
-- dropped, or still on the queue.
pub record IsValid {F : Type 0} (s : Simulation F) : Type 0 where
  pub bounded : (s.capacity ≡ 0) ⊎ (length s.jobs ≤ s.capacity)
  pub accounted :
      s.stats.published
        + s.stats.publish_errs
        + s.stats.dropped
        + length s.jobs
        + length s.in_flight
      ≡ s.enqueued
  pub disordered : s.stats.out_of_order ≤ s.stats.delayed

module _ {F : Type 0} where
  enqueue-IsValid :
      (topic : String) (payload : Payload F) (s : Simulation F)
      → IsValid s
      → IsValid (enqueue topic payload s)
  unfolding enqueue
  enqueue-IsValid topic payload s v =
      ground (arith, length-append s.jobs (record { topic = topic; payload = payload } ∷ []))

  -- a state that differs in nothing that is accounted for
  same-IsValid :
      (s t : Simulation F)
      → t.capacity ≡ s.capacity
      → t.jobs ≡ s.jobs
      → t.in_flight ≡ s.in_flight
      → t.enqueued ≡ s.enqueued
      → t.stats.published ≡ s.stats.published
      → t.stats.publish_errs ≡ s.stats.publish_errs
      → t.stats.dropped ≡ s.stats.dropped
      → t.stats.out_of_order + s.stats.delayed ≤ s.stats.out_of_order + t.stats.delayed
      → IsValid s
      → IsValid t
  same-IsValid s t c j l e p q d o v = record {
    bounded = rw (c, j) v.bounded;
    accounted = rw (p, q, d, j, l, e) v.accounted;
    disordered = omega arith;
  }

  if-IsValid :
      (b : Bool) (s t : Simulation F) → IsValid s → IsValid t → IsValid (if b then s else t)
  if-IsValid true s t v w = v
  if-IsValid false s t v w = w

  send_event-IsValid :
      (topic : String) (event : TelemetryEvent F) (duplicate : Bool) (s : Simulation F)
      → IsValid s
      → IsValid (send_event topic event duplicate s)
  unfolding send_event
  send_event-IsValid topic event duplicate s v =
      let once = enqueue-IsValid topic _ s v in
      if-IsValid duplicate _ _
        (enqueue-IsValid topic _ _
          (same-IsValid _ _ refl refl refl refl refl refl refl (omega arith) once))
        once

  publish_event-IsValid :
      (topic : String) (event : TelemetryEvent F) (fd : FaultDecision F) (s : Simulation F)
      → IsValid s
      → IsValid (publish_event topic event fd s)
  unfolding publish_event
  publish_event-IsValid topic event fd s v =
      if-IsValid fd.delayed _ _
        (same-IsValid s _ refl refl refl refl refl refl refl (ground arith) v)
        (send_event-IsValid topic event fd.duplicate s v)

  report_change-IsValid :
      (entry : SensorCatalogEntry F) (now : ℕ) (failed : Bool) (change : Option String)
      (s : Simulation F)
      → IsValid s
      → IsValid (report_change entry now failed change s)
  unfolding report_change
  report_change-IsValid entry now failed none s v = v
  report_change-IsValid entry now failed (some event_type) s v = enqueue-IsValid _ _ _ (
      if-IsValid failed _ s (same-IsValid s _ refl refl refl refl refl refl refl (omega arith) v) v)

  report_reading-IsValid :
      (entry : SensorCatalogEntry F) (reading : Option (Reading F)) (s : Simulation F)
      → IsValid s
      → IsValid (report_reading entry reading s)
  unfolding report_reading
  report_reading-IsValid entry none s v = v
  report_reading-IsValid entry (some r) s v = publish_event-IsValid _ r.event r.faults _ (
      if-IsValid r.is_anomaly _ s
        (same-IsValid s _ refl refl refl refl refl refl refl (omega arith) v) v)

  toggled-IsValid :
      (c : Controller F) (running : Bool) (now : ℕ) (s : Simulation F)
      → IsValid s
      → IsValid (toggled c running now s)
  unfolding toggled
  toggled-IsValid c running now s v =
      enqueue-IsValid _ _ _ (
        enqueue-IsValid _ _ _ (same-IsValid s _ refl refl refl refl refl refl refl (omega arith) v))

  toggled_if-IsValid :
      (b : Bool) (c : Controller F) (running : Bool) (now : ℕ) (s : Simulation F)
      → IsValid s
      → IsValid (toggled_if b c running now s)
  toggled_if-IsValid true c running now s v = toggled-IsValid c running now s v
  toggled_if-IsValid false c running now s v = v

  take_job-IsValid :
      (jobs : List (PublishJob F)) (s : Simulation F)
      → s.jobs ≡ jobs
      → IsValid s
      → IsValid (take_job jobs s)
  unfolding take_job
  take_job-IsValid [] s e v = v
  take_job-IsValid (job ∷ jobs) s e v = ground (arith, length-append s.in_flight (job ∷ []))

  finish_job-IsValid :
      (publishes : Bool) (i : ℕ) (o : Option (PublishJob F)) (s : Simulation F)
      → get_elem? s.in_flight i ≡ o
      → IsValid s
      → IsValid (finish_job publishes i o s)
  unfolding finish_job
  finish_job-IsValid publishes i none s e v = v
  finish_job-IsValid publishes i (some job) s e v =
      ground (arith, length-remove s.in_flight i job e)

  woken-IsValid :
      (i : ℕ) (d : Option (Delayed F)) (s : Simulation F) → IsValid s → IsValid (woken i d s)
  unfolding woken
  woken-IsValid i none s v = v
  woken-IsValid i (some d) s v =
      send_event-IsValid d.topic d.event d.duplicate _
        (same-IsValid s _ refl refl refl refl refl refl refl (omega arith) v)

module _ {F : Type 0} (f : Float F) where
  controller_turn-IsValid :
      (i now : ℕ) (c : Option (Controller F)) (s : Simulation F)
      → IsValid s
      → IsValid (controller_turn f i now c s)
  unfolding controller_turn
  controller_turn-IsValid i now none s v = v
  controller_turn-IsValid i now (some c) s v =
      toggled_if-IsValid _ c _ now _
        (same-IsValid s _ refl refl refl refl refl refl refl (omega arith) v)

module _ {F : Type 0} (f : Float F) (round : F → F) (rates : Rates F) where
  sensor_turn-IsValid :
      (i : ℕ) (t : Tick) (sensor : Option (Sensor F)) (s : Simulation F)
      → IsValid s
      → IsValid (sensor_turn f round rates i t sensor s)
  unfolding sensor_turn report_turn
  sensor_turn-IsValid i t none s v = v
  sensor_turn-IsValid i t (some sensor) s v =
      let turn = run_sensor f round rates (is_running sensor.entry.device_id s) t sensor in
      report_reading-IsValid turn.sensor.entry turn.reading _ (
        report_change-IsValid turn.sensor.entry t.now turn.sensor.failed turn.changed _
          (same-IsValid s _ refl refl refl refl refl refl refl (omega arith) v))

  step-IsValid : (m : Move) (s : Simulation F) → IsValid s → IsValid (step f round rates m s)
  unfolding step
  step-IsValid (senses i t) s v = sensor_turn-IsValid i t _ s v
  step-IsValid (controls i now) s v = controller_turn-IsValid f i now _ s v
  step-IsValid (wakes i) s v = woken-IsValid i _ s v
  step-IsValid takes s v = take_job-IsValid s.jobs s refl v
  step-IsValid (finishes publishes i) s v = finish_job-IsValid publishes i _ s refl v

  -- Whatever order the tasks and the workers of the simulator run in, its queue keeps to its
  -- capacity, every message that was to be enqueued is published, failed, dropped, on the queue or
  -- in the hands of a worker, and no more readings are out of order than are delayed.
  pub run-IsValid :
      (moves : List Move) (s : Simulation F) → IsValid s → IsValid (run f round rates moves s)
  unfolding run
  run-IsValid [] s v = v
  run-IsValid (m ∷ moves) s v = run-IsValid moves _ (step-IsValid m s v)
