-- ===== src/Examples/Simulator.antt =====
-- A small simulation.
use indu_sense.Base.{
  ℕ, ◌+◌, ◌≡◌, refl, Bool, true, false, none, some, List, [], ◌∷◌, arith, inr, length,
}
use indu_sense.Simulator.{Rng, Rates, SensorGenerator, new_generator}
use indu_sense.Simulator.Sensor.{SensorCatalogEntry, Sensor, Tick}
use indu_sense.Simulator.Sensor.Numbering.{
  Chance, NumberedFrom, InRange, run_turns, run_turns-NumberedFrom,
}
use indu_sense.Simulator.Run.{
  Simulation, telemetry, Move, senses, controls, wakes, takes, finishes, step, run,
}
use indu_sense.Simulator.Run.Accounts.{IsValid, run-IsValid}
use indu_sense.Simulator.Run.Drain.{publisher_worker, publisher_worker-drained}
use indu_sense.Examples.Numbers.{whole, whole-Comparison, reading}

abbrev rng : Rng ℕ
rng = record { uniform = λ n. 3; normal = λ n. 1; drawn = 0 }

-- a draw of 3 is below the rate of delays only
abbrev rates : Rates ℕ
rates = record {
  duplicate_rate = 0;
  out_of_order_rate = 0;
  network_delay_rate = 4;
  sensor_failure_rate = 0;
}

abbrev sensor : Sensor ℕ
sensor = record {
  entry = record {
    organization_id = "org";
    factory_id = "f1";
    production_line_id = "l1";
    machine_id = "m1";
    device_id = "d1";
    sensor_id = "s1";
    metric = "temperature";
    unit = "C";
    min_value = 10;
    max_value = 30;
  };
  seq = 0;
  failed = false;
  gen = record { min = 10; max = 30; mid = 20; baseline = 20; drift_step = 0; anomaly_rate = 0 };
  rng = rng;
}

abbrev simulation : Simulation ℕ
simulation = record {
  capacity = 2;
  jobs = [];
  stats = record {
    published = 0;
    duplicates = 0;
    delayed = 0;
    out_of_order = 0;
    anomalies = 0;
    dropped = 0;
    sensor_failed = 0;
    publish_errs = 0;
  };
  machines = [];
  sensors = sensor ∷ [];
  controllers = [];
  sleeping = [];
  in_flight = [];
  enqueued = 0;
}

simulation-IsValid : IsValid simulation
simulation-IsValid = record {
  bounded = inr (omega arith);
  accounted = omega arith;
  disordered = omega arith;
}

abbrev tick : Tick
tick = record { now = 60; event_id = "e1" }

abbrev moves : List Move
moves = senses 0 tick ∷ wakes 0 ∷ takes ∷ senses 0 tick ∷ wakes 0 ∷ finishes true 0 ∷ []

-- the second reading is on the queue, the first has been published
one_published : (run whole (λ v. v) rates moves simulation).stats.published ≡ 1
unfolding run step indu_sense.Simulator.Sensor.run_sensor indu_sense.Base.Dict.get_or
    indu_sense.Simulator.sensor_should_fail indu_sense.Simulator.decide_faults
    indu_sense.Simulator.next indu_sense.Simulator.Run.enqueue
one_published = refl

run-IsValid_example : IsValid (run whole (λ v. v) rates moves simulation)
run-IsValid_example = run-IsValid whole (λ v. v) rates moves simulation simulation-IsValid

abbrev loaded : Simulation ℕ
loaded = record simulation {
  jobs = record { topic = "t"; payload = telemetry reading } ∷ [];
  enqueued = 1;
}

publisher_worker-drained_example :
    (after : Simulation ℕ) × (publisher_worker 2 (λ n. false) true loaded.jobs loaded ≡ some after)
    × (after.jobs ≡ [])
    × (after.stats.published + after.stats.publish_errs
        ≡ loaded.stats.published + loaded.stats.publish_errs + length loaded.jobs)
publisher_worker-drained_example = publisher_worker-drained 2 (λ n. false) loaded (omega arith)

abbrev chances : List Chance
chances =
    record { running = true; tick = tick }
    ∷ record { running = false; tick = tick }
    ∷ record { running = true; tick = tick }
    ∷ []

run_turns-NumberedFrom_example :
    NumberedFrom 0 (run_turns whole (λ v. v) rates chances sensor).0
    × InRange whole (run_turns whole (λ v. v) rates chances sensor).1.gen
run_turns-NumberedFrom_example =
    run_turns-NumberedFrom whole (λ v. v) rates chances sensor whole-Comparison refl (refl, refl)
