-- ===== src/Examples/Consumer.antt =====
-- The loop of services/stream-processor/main.py while neither InfluxDB nor Kafka takes anything: the
-- first message is held, and its second delivery, a duplicate, is committed.
use indu_sense.Base.{
  ℕ, ◌+◌, ◌<◌, ◌≤◌, String, Bool, true, false, ◌≡◌, refl, Option, none, some, List, [], ◌∷◌, ◌++◌,
  In, arith, All, inl,
}
use indu_sense.Kafka.Consumer.{
  Verdict, commits, holds, Consumer, Turn, Step, turns, restarts, arrives, next_message,
  consume_turn, run,
}
use indu_sense.Kafka.Consumer.Skipped.{HandlesAll, run-HandlesAll, run-skips_held}
use indu_sense.Stream.Process.{Processor, Given}
use indu_sense.Stream.Loop.{handling}
use indu_sense.Examples.Numbers.{normalized_reading}
use indu_sense.Examples.Stream.{given, cut_off}

abbrev start : Consumer (Processor ℕ)
start = record {
  messages = "first" ∷ "second" ∷ [];
  position = 0;
  committed = 0;
  running = true;
  handled = [];
  state = cut_off;
}

abbrev turn : ℕ → Turn Given
turn seconds = record { fetch = next_message; given = given seconds; recorded = true }

abbrev steps : List (Step Given (Processor ℕ))
steps = restarts (λ s. s) ∷ arrives "third" ∷ turns (turn 9) ∷ []

start-HandlesAll : HandlesAll start
start-HandlesAll = record {
  behind = omega arith;
  seen = λ i h. absurd (omega arith);
  granted = inl refl;
}

run-HandlesAll_example : HandlesAll (run (handling (λ p. some normalized_reading)) steps start)
run-HandlesAll_example =
    run-HandlesAll (handling (λ p. some normalized_reading)) steps start start-HandlesAll

run-skips_held_example :
    let process = handling (λ p. some normalized_reading) in
    let after =
      run process steps (consume_turn process (turn 7) (consume_turn process (turn 5) start)) in
    (later : List (ℕ × Verdict)) × (after.handled ≡ (0, holds) ∷ ((1, commits) ∷ later))
    × All (λ h. 2 ≤ h.0) later
unfolding handling indu_sense.Stream.Process.process_message indu_sense.Stream.Process.claim
    indu_sense.Base.Dict.lookup indu_sense.Kafka.write indu_sense.Reliability.protected_write
    indu_sense.Reliability.allow indu_sense.Reliability.retry_with_backoff
    indu_sense.Stream.Process.dead_letter indu_sense.Kafka.send indu_sense.Base.Dict.insert
run-skips_held_example =
    run-skips_held (handling (λ p. some normalized_reading)) (turn 5) (turn 7) "first" "second"
      steps start refl refl refl refl refl refl refl refl
