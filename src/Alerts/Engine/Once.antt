-- ===== src/Alerts/Engine/Once.antt =====
-- The tables of alerts and of incidents under the handlers of services/alert-service/main.py.
use indu_sense.Base.{
  String, ◌≡◌, Bool, true, false, Option, none, some, List, [], ◌∷◌, Bool-cases, inl, inr,
  if◌then◌else◌, ◌==◌,
}
use indu_sense.Float.{Float}
use indu_sense.Events.{NormalizedMachineEvent}
use indu_sense.Incidents.Tables.{one_active}
use indu_sense.Incidents.Store.OneActive.{KeepsOneActive, open_or_attach-one_active}
use indu_sense.Alerts.{AlertRule, rules_for, scope_matches, condition_matches}
use indu_sense.Alerts.Store.{Alert, AlertRow, Created, suppressed, created, create_if_due}
use indu_sense.Alerts.Store.OneOpen.{OneOpen, create_if_due-OneOpen}
use indu_sense.Alerts.Engine.{
  Anomaly, Engine, Given, Step, goes_on, fails, dlq_or_hold, open_or_attach_incident,
  publish_and_notify, after_create, raise_alert,
}
use indu_sense.Alerts.Engine.Handlers.{
  counted, on_match, on_rule, for_rules, parsed_anomaly, process_anomaly, after_step, first_rule,
  parsed_event, process_device_event,
}

-- What other connections commit keeps both rules.
pub record OthersKeep (g : Given) : Type 0 where
  pub other_alerts :
      (rule_id : String) (rows : List AlertRow)
      → OneOpen rows
      → OneOpen (g.other_alerts rule_id rows)
  pub other_incidents : (rule_id : String) → KeepsOneActive (g.other_incidents rule_id)

module _ {F : Type 0} where
  pub record IsValid (s : Engine F) : Type 0 where
    pub one_open : OneOpen s.alerts
    pub one_active_incident : one_active s.incidents.incidents ≡ true

  abbrev IsValidStep : Step F → Type 0
  IsValidStep (goes_on s) = IsValid s
  IsValidStep (fails s) = IsValid s

  dlq_or_hold-IsValid :
      (g : Given) (payload stage id topic : String) (s : Engine F)
      → IsValid s
      → IsValid (dlq_or_hold g payload stage id topic s).1
  unfolding dlq_or_hold
  dlq_or_hold-IsValid g payload stage id topic s v = record {
    one_open = v.one_open;
    one_active_incident = v.one_active_incident;
  }

  after_create-IsValid :
      (g : Given) (k : OthersKeep g) (rule_id : String) (c : Created × List AlertRow) (s : Engine F)
      → OneOpen c.1
      → IsValid s
      → IsValid (after_create g rule_id c s)
  unfolding after_create open_or_attach_incident publish_and_notify
  after_create-IsValid g k rule_id (suppressed r, rows) s o v = record {
    one_open = o;
    one_active_incident = v.one_active_incident;
  }
  after_create-IsValid g k rule_id (created a, rows) s o v = record {
    one_open = o;
    one_active_incident =
        open_or_attach-one_active (g.other_incidents rule_id) none (g.incident_id rule_id) g.now _
          s.incidents (k.other_incidents rule_id) v.one_active_incident;
  }

  raise_alert-IsValid :
      (g : Given) (k : OthersKeep g) (rule : AlertRule F) (alert : Alert) (key : String)
      (s : Engine F)
      → IsValid s
      → IsValidStep (raise_alert g rule alert key s)
  unfolding raise_alert
  raise_alert-IsValid g k rule alert key s v = by_failure (g.store_fails rule.id)
    where
      by_failure :
          (b : Bool)
          → IsValidStep (
              if b
              then fails s
              else goes_on (
                  after_create g rule.id
                    (create_if_due
                      (g.other_alerts rule.id)
                      (g.alert_id rule.id)
                      g.now
                      rule.id
                      rule.cooldown_seconds
                      alert
                      key
                      s.alerts)
                    s))
      by_failure true = v
      by_failure false =
          after_create-IsValid g k rule.id _ s
            (create_if_due-OneOpen (g.other_alerts rule.id) (g.alert_id rule.id) g.now rule.id
              rule.cooldown_seconds alert key s.alerts (k.other_alerts rule.id) v.one_open)
            v

  if-IsValidStep :
      (b : Bool) (p q : Step F) → IsValidStep p → IsValidStep q → IsValidStep (if b then p else q)
  if-IsValidStep true p q h k = h
  if-IsValidStep false p q h k = k

module _ {F : Type 0} (f : Float F) where
  counted-IsValid :
      (rule : AlertRule F) (a : Anomaly F) (s : Engine F)
      → IsValid s
      → IsValid (counted f rule a s).1
  unfolding counted
  counted-IsValid rule a s v = elim (Bool-cases (rule.condition == "ANOMALY_COUNT")) [
    | inl e ↦ rw e (record { one_open = v.one_open; one_active_incident = v.one_active_incident })
    | inr e ↦ rw e v
  ]

  on_rule-IsValid :
      (g : Given) (k : OthersKeep g) (rule : AlertRule F) (a : Anomaly F) (s : Engine F)
      → IsValid s
      → IsValidStep (on_rule f g rule a s)
  unfolding on_rule on_match
  on_rule-IsValid g k rule a s v =
      let c = counted f rule a s in
      let v' = counted-IsValid rule a s v in
      if-IsValidStep (scope_matches rule a.machine_id a.device_id a.sensor_id) _ _
        (if-IsValidStep (condition_matches f rule a.value c.0) _ _
          (raise_alert-IsValid g k rule _ _ c.1 v') v')
        v

  for_rules-IsValid :
      (g : Given) (k : OthersKeep g) (payload : String) (a : Anomaly F) (rules : List (AlertRule F))
      (s : Engine F)
      → IsValid s
      → IsValid (for_rules f g payload a rules s).1
  unfolding for_rules
  for_rules-IsValid g k payload a [] s v = v
  for_rules-IsValid g k payload a (rule ∷ rules) s v =
      by_step (on_rule f g rule a s) (on_rule-IsValid g k rule a s v)
        (for_rules-IsValid g k payload a rules)
    where
      by_step :
          (p : Step F)
          → IsValidStep p
          → ((s' : Engine F) → IsValid s' → IsValid (for_rules f g payload a rules s').1)
          → IsValid
              (elim p as (λ _. Bool × Engine F) [
                | goes_on s' ↦ for_rules f g payload a rules s'
                | fails s' ↦ dlq_or_hold g payload "create_alert" a.event_id "anomalies.detected" s'
              ]).1
      by_step (goes_on s') w rest = rest s' w
      by_step (fails s') w rest =
          dlq_or_hold-IsValid g payload "create_alert" a.event_id "anomalies.detected" s' w

  -- If what other connections commit between the statements keeps at most one open alert for each
  -- rule and dedupe key, and at most one active incident on each machine, then so does handling an
  -- anomaly, also where an alert cannot be stored or open_or_attach raises after it has written.
  pub process_anomaly-IsValid :
      (parse : String → Option (Anomaly F)) (g : Given) (k : OthersKeep g) (payload : String)
      (s : Engine F)
      → IsValid s
      → IsValid (process_anomaly f parse g payload s).1
  unfolding process_anomaly parsed_anomaly
  process_anomaly-IsValid parse g k payload s v = by_parsed (parse payload)
    where
      by_parsed : (o : Option (Anomaly F)) → IsValid (parsed_anomaly f g payload o s).1
      by_parsed none = dlq_or_hold-IsValid g payload "unmarshal" "" "anomalies.detected" s v
      by_parsed (some a) =
          for_rules-IsValid g k payload a (rules_for a.organization_id a.metric s.rules) s v

module _ {F : Type 0} where
  after_step-IsValid :
      (g : Given) (payload id : String) (p : Step F)
      → IsValidStep p
      → IsValid (after_step g payload id p).1
  unfolding after_step
  after_step-IsValid g payload id (goes_on s) v = v
  after_step-IsValid g payload id (fails s) v =
      dlq_or_hold-IsValid g payload "create_alert" id "device.events" s v

  first_rule-IsValid :
      (g : Given) (k : OthersKeep g) (payload : String) (e : NormalizedMachineEvent)
      (rules : List (AlertRule F)) (s : Engine F)
      → IsValid s
      → IsValid (first_rule g payload e rules s).1
  unfolding first_rule
  first_rule-IsValid g k payload e [] s v = v
  first_rule-IsValid g k payload e (rule ∷ rules) s v =
      after_step-IsValid g payload e.correlation_id _ (raise_alert-IsValid g k rule _ _ s v)

  if-IsValid :
      (b : Bool) (p : Bool × Engine F) (s : Engine F)
      → IsValid p.1
      → IsValid s
      → IsValid (if b then p else (true, s)).1
  if-IsValid true p s h k = h
  if-IsValid false p s h k = k

  -- Handling a device event keeps at most one open alert for each rule and dedupe key, and at most
  -- one active incident on each machine, also where a statement fails.
  pub process_device_event-IsValid :
      (parse : String → Option NormalizedMachineEvent) (g : Given) (k : OthersKeep g)
      (payload : String) (s : Engine F)
      → IsValid s
      → IsValid (process_device_event parse g payload s).1
  unfolding process_device_event parsed_event
  process_device_event-IsValid parse g k payload s v = by_parsed (parse payload)
    where
      by_parsed : (o : Option NormalizedMachineEvent) → IsValid (parsed_event g payload o s).1
      by_parsed none = dlq_or_hold-IsValid g payload "unmarshal" "" "device.events" s v
      by_parsed (some e) =
          if-IsValid (e.event.event_type == "MACHINE_STOPPED") _ s
            (first_rule-IsValid g k payload e
              (rules_for e.event.organization_id "machine_status" s.rules) s v)
            v
