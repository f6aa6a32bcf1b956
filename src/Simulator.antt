-- ===== src/Simulator.antt =====
-- simulator: the random choices of faults.py and machine.py, and the readings of sensorgen.py.
pub mod Sensor
pub mod Catalog
pub mod Run
use indu_sense.Base.{ℕ, ◌+◌, Bool, true, false, not, if◌then◌else◌}
use indu_sense.Float.{Float, number}

-- `random.Random`: what its calls return, in order, and how many there have been.
pub record Rng (F : Type 0) : Type 0 where
  pub uniform : ℕ → F
  pub normal : ℕ → F
  pub drawn : ℕ

pub record FaultDecision (F : Type 0) : Type 0 where
  pub duplicate : Bool
  pub out_of_order : Bool
  pub delayed : Bool
  pub delay_for : F

-- the rates of `Config`
pub record Rates (F : Type 0) : Type 0 where
  pub duplicate_rate : F
  pub out_of_order_rate : F
  pub network_delay_rate : F
  pub sensor_failure_rate : F

pub record SensorGenerator (F : Type 0) : Type 0 where
  pub min : F
  pub max : F
  pub mid : F
  pub baseline : F
  pub drift_step : F
  pub anomaly_rate : F

module _ {F : Type 0} where
  abbrev pub random : Rng F → F × Rng F
  random r = (r.uniform r.drawn, record r { drawn = r.drawn + 1 })

  abbrev pub gauss : Rng F → F × Rng F
  gauss r = (r.normal r.drawn, record r { drawn = r.drawn + 1 })

module _ {F : Type 0} (f : Float F) where
  -- the second test of `decide_faults`: the delay of a congested link
  abbrev delay : Bool → Rng F → (Bool × F) × Rng F
  delay true r = let d = random r in ((true, f.add (f.ratio 1 10) (f.mul d.0 (f.ratio 49 10))), d.1)
  delay false r = ((false, number f 0), r)

  -- the third: a reading out of order is delayed in any case
  abbrev disorder : Bool → Bool → Bool × F → FaultDecision F
  disorder out_of_order duplicate d = record {
    duplicate = duplicate;
    out_of_order = out_of_order;
    delayed = if out_of_order then true else d.0;
    delay_for = if out_of_order then (if d.0 then d.1 else f.ratio 1 2) else d.1;
  }

  unfoldable pub decide_faults : Rates F → Rng F → FaultDecision F × Rng F
  decide_faults rates r =
      let first = random r in
      let second = random first.1 in
      let d = delay (f.lt second.0 rates.network_delay_rate) second.1 in
      let third = random d.1 in
      (
        disorder (f.lt third.0 rates.out_of_order_rate) (f.lt first.0 rates.duplicate_rate) d.0,
        third.1,
      )

  unfoldable pub sensor_should_fail : Bool → F → Rng F → Bool × Rng F
  sensor_should_fail true failure_rate r = let d = random r in (f.le (f.ratio 10 100) d.0, d.1)
  sensor_should_fail false failure_rate r = let d = random r in (f.lt d.0 failure_rate, d.1)

  unfoldable pub should_toggle : Bool → Rng F → Bool × Rng F
  should_toggle true r = let d = random r in (f.lt d.0 (f.ratio 5 10000), d.1)
  should_toggle false r = let d = random r in (f.lt d.0 (f.ratio 5 100), d.1)

  unfoldable pub clamp : F → F → F → F
  clamp v lo hi = if f.lt v lo then lo else if f.lt hi v then hi else v

  unfoldable pub new_generator : F → F → F → SensorGenerator F
  new_generator lo hi anomaly_rate = record {
    min = lo;
    max = hi;
    mid = f.div (f.add lo hi) (number f 2);
    baseline = f.div (f.add lo hi) (number f 2);
    drift_step = number f 0;
    anomaly_rate = anomaly_rate;
  }

  -- the drift of the baseline; DRIFT_MAX_STEP is 0.01, REVERSION_PULL 0.05
  unfoldable pub drifted : F → SensorGenerator F → SensorGenerator F
  drifted x g =
      let range_span = f.sub g.max g.min in
      let drift_step =
        f.add g.drift_step
          (f.mul (f.mul (f.sub (f.mul x (number f 2)) (number f 1)) (f.ratio 1 100)) range_span) in
      let pull = f.mul (f.sub g.mid g.baseline) (f.ratio 5 100) in
      record g {
        baseline =
            clamp (f.add g.baseline (f.add (f.mul drift_step (f.ratio 1 10)) pull)) g.min g.max;
        drift_step = drift_step;
      }

  -- a spike; SPIKE_MIN_FRAC is 0.3, SPIKE_MAX_FRAC 0.9
  spiked : Bool → F → F → Rng F → F × Rng F
  spiked false range_span value r = (value, r)
  spiked true range_span value r =
      let u = random r in
      let v = random u.1 in
      let magnitude =
        f.mul (f.add (f.ratio 3 10) (f.mul u.0 (f.sub (f.ratio 9 10) (f.ratio 3 10)))) range_span in
      let sign = if f.le (f.ratio 5 10) v.0 then number f 1 else f.neg (number f 1) in
      (f.add value (f.mul sign magnitude), v.1)

  -- `round` is Python's. The reading, whether it is a spike, and what has advanced.
  unfoldable pub next : (F → F) → SensorGenerator F → Rng F → (F × Bool) × SensorGenerator F × Rng F
  unfolding drifted spiked
  next round g r =
      let step = random r in
      let g' = drifted step.0 g in
      let range_span = f.sub g.max g.min in
      let noise = gauss step.1 in
      let value = f.add g'.baseline (f.mul (f.mul noise.0 (f.ratio 1 100)) range_span) in
      let chance = random noise.1 in
      let is_anomaly = f.lt chance.0 g.anomaly_rate in
      let s = spiked is_anomaly range_span value chance.1 in
      ((f.div (round (f.mul s.0 (number f 100))) (number f 100), is_anomaly), g', s.1)
