-- ===== src/Simulator/Sensor/Numbering.antt =====
-- The turns of one sensor of simulator/main.py: its readings are numbered without a gap, and its
-- baseline stays in the operating range.
use indu_sense.Base.{
  ℕ, ◌+◌, ◌≡◌, refl, ap, ◌∙◌, Bool, true, false, Option, none, some, List, [], ◌∷◌, arith,
}
use indu_sense.Float.{Float, Comparison}
use indu_sense.Events.{pos}
use indu_sense.Simulator.{Rng, Rates, SensorGenerator, clamp, drifted, next}
use indu_sense.Simulator.Sensor.{
  Sensor, Tick, Reading, Turn, read_value, after_failure_test, run_sensor,
}

-- a turn, with whether the machine runs
pub record Chance : Type 0 where
  pub running : Bool
  pub tick : Tick

module _ {F : Type 0} where
  abbrev pub with_reading : Option (Reading F) → List (Reading F) → List (Reading F)
  with_reading none readings = readings
  with_reading (some r) readings = r ∷ readings

  -- the readings carry the numbers after `n`, one by one
  abbrev pub NumberedFrom : ℕ → List (Reading F) → Type 0
  NumberedFrom n [] = Unit
  NumberedFrom n (r ∷ readings) =
      (r.event.sequence_number ≡ pos (n + 1)) × NumberedFrom (n + 1) readings

module _ {F : Type 0} (f : Float F) where
  -- neither below the minimum nor above the maximum
  abbrev pub InRange : SensorGenerator F → Type 0
  InRange g = (f.lt g.baseline g.min ≡ false) × (f.lt g.max g.baseline ≡ false)

  clamp_in_range :
      (v lo hi : F)
      → Comparison f
      → f.lt hi lo ≡ false
      → (f.lt (clamp f v lo hi) lo ≡ false) × (f.lt hi (clamp f v lo hi) ≡ false)
  unfolding clamp
  clamp_in_range v lo hi laws h = ground (arith, laws.lt_irrefl lo, laws.lt_irrefl hi)

module _ {F : Type 0} (f : Float F) (round : F → F) (rates : Rates F) where
  -- the readings of a sequence of turns, and the sensor after it
  unfoldable pub run_turns : List Chance → Sensor F → List (Reading F) × Sensor F
  unfolding run_sensor
  run_turns [] s = ([], s)
  run_turns (c ∷ chances) s =
      let turn = run_sensor f round rates c.running c.tick s in
      let rest = run_turns chances turn.sensor in (with_reading turn.reading rest.0, rest.1)

  -- What one turn does to the number, the range and the reading.
  abbrev Advances : Sensor F → Turn F → Type 0
  Advances s t =
      ((rest : List (Reading F))
        → NumberedFrom t.sensor.seq rest
        → NumberedFrom s.seq (with_reading t.reading rest))
      × (t.sensor.gen.min ≡ s.gen.min)
      × (t.sensor.gen.max ≡ s.gen.max)
      × (InRange f s.gen → InRange f t.sensor.gen)

  after_failure_test-Advances :
      (t : Tick) (s : Sensor F) (d : Bool × Rng F)
      → Comparison f
      → f.lt s.gen.max s.gen.min ≡ false
      → Advances s (after_failure_test f round rates t s d)
  unfolding after_failure_test read_value next drifted
  after_failure_test-Advances t s (true, rng) laws h = (λ rest n. n, refl, refl, λ i. i)
  after_failure_test-Advances t s (false, rng) laws h =
      (λ rest n. (refl, n), refl, refl, λ i. clamp_in_range f _ s.gen.min s.gen.max laws h)

  run_sensor-Advances :
      (running : Bool) (t : Tick) (s : Sensor F)
      → Comparison f
      → f.lt s.gen.max s.gen.min ≡ false
      → Advances s (run_sensor f round rates running t s)
  unfolding run_sensor
  run_sensor-Advances false t s laws h = (λ rest n. n, refl, refl, λ i. i)
  run_sensor-Advances true t s laws h = after_failure_test-Advances t s _ laws h

  -- If a comparison is irreflexive and transitive, a sensor's minimum is not above its maximum,
  -- and its baseline lies within the two, then the readings of any turns, with pauses and failures
  -- in between, are numbered one after the other without a gap, and the baseline stays within.
  pub run_turns-NumberedFrom :
      (chances : List Chance) (s : Sensor F)
      → Comparison f
      → f.lt s.gen.max s.gen.min ≡ false
      → InRange f s.gen
      → NumberedFrom s.seq (run_turns chances s).0 × InRange f (run_turns chances s).1.gen
  unfolding run_turns
  run_turns-NumberedFrom [] s laws h i = (tt, i)
  run_turns-NumberedFrom (c ∷ chances) s laws h i =
      let turn = run_sensor f round rates c.running c.tick s in
      let (number, same_min, same_max, range) = run_sensor-Advances c.running c.tick s laws h in
      let rest =
        run_turns-NumberedFrom chances turn.sensor laws
          (ap (λ m. f.lt m turn.sensor.gen.min) same_max ∙ ap (f.lt s.gen.max) same_min ∙ h)
          (range i) in
      (number _ rest.0, rest.1)
