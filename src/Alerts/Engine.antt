-- ===== src/Alerts/Engine.antt =====
-- services/alert-service/main.py: what becomes of an anomaly, of a device event, and of an alert that
-- nobody acknowledges. What other connections commit while an alert is stored and attached is given
-- with the message; none writes between the statements of a sweep.
pub mod Handlers
pub mod Once
use indu_sense.Base.{
  ℕ, ◌+◌, String, Bool, true, false, ◌||◌, Option, none, some, List, [], ◌∷◌, ◌==◌, if◌then◌else◌,
  concat,
}
use indu_sense.Base.Dict.{Dict}
use indu_sense.Float.{Float}
use indu_sense.Events.{NormalizedMachineEvent, DeadLetterRecord, transient_error}
use indu_sense.Kafka.{Client, send}
use indu_sense.Incidents.{AlertRef}
use indu_sense.Incidents.Tables.{Db}
use indu_sense.Incidents.Store.{Others, open_or_attach}
use indu_sense.Alerts.{AlertRule, scope_matches, rules_for, condition_matches, record_anomaly}
use indu_sense.Alerts.Store.{
  Alert, AlertRow, Reason, Created, suppressed, created, create_if_due, next_severity,
  due_for_escalation, escalate,
}
use indu_sense.Alerts.Notify.{Notification, Providers, notify_all}

-- the fields of `AnomalyDetected` that the service reads
pub record Anomaly (F : Type 0) : Type 0 where
  pub event_id : String
  pub organization_id : String
  pub factory_id : String
  pub machine_id : String
  pub device_id : String
  pub sensor_id : String
  pub metric : String
  pub value : F
  pub reason : String
  pub detected_at : ℕ

pub data EventType : Type 0 where
  created_event escalated_event : EventType

pub record AlertEvent : Type 0 where
  pub event_type : EventType
  pub alert_rule_id : String
  pub alert : Alert
  pub timestamp : ℕ

pub data Output : Type 0 where
  alerts : String → AlertEvent → Output
  dead_letters : DeadLetterRecord → Output

pub record Engine (F : Type 0) : Type 0 where
  pub rules : Dict (List (AlertRule F))
  pub alerts : List AlertRow
  pub incidents : Db
  pub seen : Dict (List ℕ)
  pub kafka : Client Output
  pub providers : Providers

-- What the surroundings give to the handling of one message: the ids that the database generates for
-- the alert and for the incident of a rule, and whether the statement for a rule or
-- an alert fails.
pub record Given : Type 0 where
  pub now : ℕ
  pub clock : ℕ × ℕ
  pub alert_id : String → String
  pub incident_id : String → String
  pub store_fails : String → Bool
  -- what other connections commit between the statements of a rule
  pub other_alerts : String → List AlertRow → List AlertRow
  pub other_incidents : String → Others
  -- `payload.decode("utf-8", errors="replace")`
  pub decoded : String → String

-- One rule leads on to the next, or the alert cannot be stored.
pub data Step (F : Type 0) : Type 0 where
  goes_on : Engine F → Step F
  fails : Engine F → Step F

abbrev ref_of : Alert → AlertRef
ref_of a = record {
  id = a.id;
  organization_id = a.organization_id;
  severity = a.severity;
  factory_id = a.factory_id;
  machine_id = a.machine_id;
  device_id = a.device_id;
  sensor_id = a.sensor_id;
  title = a.title;
  description = a.description;
}

abbrev pub notification_of : Alert → Bool → Notification
notification_of a is_escalation = record {
  alert_id = a.id;
  title = a.title;
  description = a.description;
  severity = a.severity;
  machine_id = a.machine_id;
  device_id = a.device_id;
  triggered_at = a.triggered_at;
  is_escalation = is_escalation;
}

abbrev pub blank : Alert
blank = record {
  organization_id = "";
  severity = "";
  factory_id = "";
  machine_id = "";
  device_id = "";
  sensor_id = "";
  title = "";
  description = "";
  id = "";
  status = "";
  triggered_at = none;
  escalation_level = 0;
}

module _ {F : Type 0} where
  -- `_dlq_or_hold`: whether the offset is committed
  unfoldable pub dlq_or_hold :
      Given → String → String → String → String → Engine F → Bool × Engine F
  dlq_or_hold g payload stage correlation_id source_topic s =
      let letter : DeadLetterRecord = record {
        original_payload = g.decoded payload;
        error_type = transient_error;
        service = "alert-service";
        processing_stage = stage;
        retry_count = 0;
        timestamp = g.now;
        correlation_id = correlation_id;
        source_topic = source_topic;
      } in
      let r = send (dead_letters letter) s.kafka in (r.0, record s { kafka = r.1 })

  -- `_open_or_attach_incident`: an exception is logged
  unfoldable pub open_or_attach_incident : Given → String → Alert → Engine F → Engine F
  open_or_attach_incident g rule_id a s = record s {
    incidents =
        (open_or_attach (g.other_incidents rule_id) none (g.incident_id rule_id) g.now (ref_of a)
          s.incidents).1;
  }

  -- `_publish_and_notify`: a failure to publish is logged
  unfoldable pub publish_and_notify :
      Given → Alert → String → EventType → Bool → Engine F → Engine F
  publish_and_notify g a rule_id event_type is_escalation s =
      let event : AlertEvent = record {
        event_type = event_type;
        alert_rule_id = rule_id;
        alert = record a { status = "OPEN" };
        timestamp = g.now;
      } in
      record s {
        kafka = (send (alerts a.device_id event) s.kafka).1;
        providers = notify_all g.clock (notification_of a is_escalation) s.providers;
      }

  -- what follows `create_if_due`
  after_create : Given → String → Created × List AlertRow → Engine F → Engine F
  unfolding open_or_attach_incident publish_and_notify
  after_create g rule_id (suppressed r, rows) s = record s { alerts = rows }
  after_create g rule_id (created a, rows) s =
      publish_and_notify g a rule_id created_event false
        (open_or_attach_incident g rule_id a (record s { alerts = rows }))

  unfoldable pub raise_alert : Given → AlertRule F → Alert → String → Engine F → Step F
  unfolding after_create
  raise_alert g rule alert dedupe_key s =
      if g.store_fails rule.id
      then fails s
      else goes_on (
          after_create g rule.id
            (create_if_due (g.other_alerts rule.id) (g.alert_id rule.id) g.now rule.id
              rule.cooldown_seconds alert dedupe_key s.alerts)
            s)

  abbrev pub alert_of : Anomaly F → AlertRule F → Alert
  alert_of a rule = record blank {
    organization_id = a.organization_id;
    severity = rule.severity;
    factory_id = a.factory_id;
    machine_id = a.machine_id;
    device_id = a.device_id;
    sensor_id = a.sensor_id;
    title = rule.name;
    description = a.reason;
  }

  abbrev pub anomaly_key : Anomaly F → String
  anomaly_key a = concat (a.device_id ∷ ":" ∷ a.metric ∷ [])
