-- ===== src/Alerts/Engine/Handlers.antt =====
-- services/alert-service/main.py: the handling of an anomaly and of a device event, and one round of
-- the escalation.
use indu_sense.Base.{
  ℕ, ◌+◌, String, Bool, true, ◌||◌, Option, none, some, List, [], ◌∷◌, ◌==◌, if◌then◌else◌, concat,
}
use indu_sense.Float.{Float}
use indu_sense.Events.{NormalizedMachineEvent}
use indu_sense.Alerts.{AlertRule, scope_matches, rules_for, condition_matches, record_anomaly}
use indu_sense.Alerts.Store.{Alert, next_severity, due_for_escalation, escalate}
use indu_sense.Alerts.Engine.{
  Anomaly, escalated_event, Engine, Given, Step, goes_on, fails, blank, dlq_or_hold, alert_of,
  anomaly_key, raise_alert, publish_and_notify,
}

module _ {F : Type 0} (f : Float F) where
  -- the count of an ANOMALY_COUNT rule
  unfoldable pub counted : AlertRule F → Anomaly F → Engine F → ℕ × Engine F
  counted rule a s =
      if rule.condition == "ANOMALY_COUNT"
      then (let r =
            record_anomaly (concat (rule.id ∷ "|" ∷ a.device_id ∷ [])) a.detected_at
              rule.window_seconds s.seen in
          (r.0, record s { seen = r.1 }))
      else (0, s)

  unfoldable pub on_match : Given → AlertRule F → Anomaly F → ℕ × Engine F → Step F
  unfolding raise_alert
  on_match g rule a (count, s) =
      if condition_matches f rule a.value count
      then raise_alert g rule (alert_of a rule) (anomaly_key a) s
      else goes_on s

  -- the body of the loop in `_process_anomaly`
  unfoldable pub on_rule : Given → AlertRule F → Anomaly F → Engine F → Step F
  unfolding counted on_match
  on_rule g rule a s =
      if scope_matches rule a.machine_id a.device_id a.sensor_id
      then on_match g rule a (counted rule a s)
      else goes_on s

  unfoldable pub for_rules :
      Given → String → Anomaly F → List (AlertRule F) → Engine F → Bool × Engine F
  unfolding on_rule
  for_rules g payload a [] s = (true, s)
  for_rules g payload a (rule ∷ rules) s = elim (on_rule g rule a s) [
    | goes_on s' ↦ for_rules g payload a rules s'
    | fails s' ↦ dlq_or_hold g payload "create_alert" a.event_id "anomalies.detected" s'
  ]

  unfoldable pub parsed_anomaly : Given → String → Option (Anomaly F) → Engine F → Bool × Engine F
  unfolding for_rules dlq_or_hold
  parsed_anomaly g payload none s = dlq_or_hold g payload "unmarshal" "" "anomalies.detected" s
  parsed_anomaly g payload (some a) s =
      for_rules g payload a (rules_for a.organization_id a.metric s.rules) s

  -- `parse` is `model_validate_json`; the result is whether the offset is committed
  unfoldable pub process_anomaly :
      (String → Option (Anomaly F)) → Given → String → Engine F → Bool × Engine F
  unfolding parsed_anomaly
  process_anomaly parse g payload s = parsed_anomaly g payload (parse payload) s

module _ {F : Type 0} where
  abbrev pub shutdown_alert : NormalizedMachineEvent → AlertRule F → Alert
  shutdown_alert e rule = record blank {
    organization_id = e.event.organization_id;
    severity = rule.severity;
    factory_id = e.event.factory_id;
    machine_id = e.event.machine_id;
    device_id = e.event.device_id;
    title = "Unexpected machine shutdown";
    description = concat ("machine " ∷ e.event.machine_id ∷ " stopped unexpectedly" ∷ []);
  }

  unfoldable pub after_step : Given → String → String → Step F → Bool × Engine F
  after_step g payload correlation_id (goes_on s) = (true, s)
  after_step g payload correlation_id (fails s) =
      dlq_or_hold g payload "create_alert" correlation_id "device.events" s

  -- the first rule for shutdowns, if there is one
  unfoldable pub first_rule :
      Given → String → NormalizedMachineEvent → List (AlertRule F) → Engine F → Bool × Engine F
  unfolding raise_alert after_step
  first_rule g payload e [] s = (true, s)
  first_rule g payload e (rule ∷ rules) s = after_step g payload e.correlation_id (
      raise_alert g rule (shutdown_alert e rule) (concat ("shutdown:" ∷ e.event.machine_id ∷ [])) s)

  unfoldable pub parsed_event :
      Given → String → Option NormalizedMachineEvent → Engine F → Bool × Engine F
  unfolding first_rule dlq_or_hold
  parsed_event g payload none s = dlq_or_hold g payload "unmarshal" "" "device.events" s
  parsed_event g payload (some e) s =
      if e.event.event_type == "MACHINE_STOPPED"
      then first_rule g payload e (rules_for e.event.organization_id "machine_status" s.rules) s
      else (true, s)

  unfoldable pub process_device_event :
      (String → Option NormalizedMachineEvent) → Given → String → Engine F → Bool × Engine F
  unfolding parsed_event
  process_device_event parse g payload s = parsed_event g payload (parse payload) s

  -- one candidate of a sweep
  unfoldable pub escalate_one : Given → Alert → Engine F → Engine F
  unfolding publish_and_notify
  escalate_one g a s =
      let new_severity = next_severity a.severity in
      if new_severity == a.severity || g.store_fails a.id
      then s
      else publish_and_notify g
          (record a { severity = new_severity; escalation_level = a.escalation_level + 1 }) ""
          escalated_event true (record s { alerts = escalate g.now a.id new_severity s.alerts })

  unfoldable pub escalate_each : Given → List Alert → Engine F → Engine F
  unfolding escalate_one
  escalate_each g [] s = s
  escalate_each g (a ∷ candidates) s = escalate_each g candidates (escalate_one g a s)

  -- one round of `_run_escalation_sweeper`
  unfoldable pub sweep : Given → ℕ → Engine F → Engine F
  unfolding escalate_each
  sweep g after_seconds s = escalate_each g (due_for_escalation g.now after_seconds s.alerts) s
