-- ===== src/Stream/Loop.antt =====
-- `_consume_loop` of services/stream-processor/main.py.
use indu_sense.Base.{String, Option, List}
use indu_sense.Kafka.Consumer.{Verdict, commits, holds, crashes, Consumer, Step, run}
use indu_sense.Events.{NormalizedTelemetryEvent}
use indu_sense.Stream.Process.{Ended, Processor, Given, process_message}

-- what the loop does with the outcome
abbrev pub verdict : Ended → Verdict
verdict Ended.commits = commits
verdict Ended.holds = holds
verdict Ended.crashes = crashes

module _ {F : Type 0} where
  unfoldable pub handling :
      (String → Option (NormalizedTelemetryEvent F))
      → Given
      → String
      → Processor F
      → Verdict × Processor F
  handling parse g payload s = let r = process_message parse g payload s in (verdict r.0, r.1)

  unfoldable pub consume_loop :
      (String → Option (NormalizedTelemetryEvent F))
      → List (Step Given (Processor F))
      → Consumer (Processor F)
      → Consumer (Processor F)
  consume_loop parse steps c = run (handling parse) steps c
