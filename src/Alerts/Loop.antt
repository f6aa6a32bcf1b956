-- ===== src/Alerts/Loop.antt =====
-- `_consume_anomalies` and `_consume_device_events` of services/alert-service/main.py.
use indu_sense.Base.{String, Bool, true, false, Option, List}
use indu_sense.Float.{Float}
use indu_sense.Kafka.Consumer.{Verdict, commits, holds, Consumer, Step, run}
use indu_sense.Events.{NormalizedMachineEvent}
use indu_sense.Alerts.Engine.{Anomaly, Engine, Given}
use indu_sense.Alerts.Engine.Handlers.{process_anomaly, process_device_event}

-- what the loops do with `should_commit`
abbrev pub verdict : Bool → Verdict
verdict true = commits
verdict false = holds

module _ {F : Type 0} (f : Float F) where
  unfoldable pub anomaly_handling :
      (String → Option (Anomaly F)) → Given → String → Engine F → Verdict × Engine F
  anomaly_handling parse g payload s =
      let r = process_anomaly f parse g payload s in (verdict r.0, r.1)

  unfoldable pub consume_anomalies :
      (String → Option (Anomaly F))
      → List (Step Given (Engine F))
      → Consumer (Engine F)
      → Consumer (Engine F)
  consume_anomalies parse steps c = run (anomaly_handling parse) steps c

module _ {F : Type 0} where
  unfoldable pub event_handling :
      (String → Option NormalizedMachineEvent) → Given → String → Engine F → Verdict × Engine F
  event_handling parse g payload s =
      let r = process_device_event parse g payload s in (verdict r.0, r.1)

  unfoldable pub consume_device_events :
      (String → Option NormalizedMachineEvent)
      → List (Step Given (Engine F))
      → Consumer (Engine F)
      → Consumer (Engine F)
  consume_device_events parse steps c = run (event_handling parse) steps c
