-- ===== src/Detector/Loop.antt =====
-- `_consume_loop` of services/anomaly-detector/main.py.
use indu_sense.Base.{String, Option, List}
use indu_sense.Float.{Float}
use indu_sense.Kafka.Consumer.{Verdict, commits, holds, crashes, Consumer, Step, run}
use indu_sense.Events.{NormalizedTelemetryEvent}
use indu_sense.Detector.Process.{Ended, Detector, Given, process_message}

-- what the loop does with the outcome
abbrev pub verdict : Ended → Verdict
verdict Ended.commits = commits
verdict Ended.holds = holds
verdict Ended.crashes = crashes

module _ {F : Type 0} (f : Float F) where
  unfoldable pub handling :
      (String → Option (NormalizedTelemetryEvent F))
      → Given F
      → String
      → Detector F
      → Verdict × Detector F
  handling parse g payload s = let r = process_message f parse g payload s in (verdict r.0, r.1)

  unfoldable pub consume_loop :
      (String → Option (NormalizedTelemetryEvent F))
      → List (Step (Given F) (Detector F))
      → Consumer (Detector F)
      → Consumer (Detector F)
  consume_loop parse steps c = run (handling parse) steps c
