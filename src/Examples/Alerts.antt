-- ===== src/Examples/Alerts.antt =====
-- Runs of services/alert-service.
use indu_sense.Base.{
  ℕ, ◌≡◌, refl, true, false, none, some, List, [], ◌∷◌, ◌++◌, arith, eq_iff, filter,
}
use indu_sense.Kafka.{acknowledged}
use indu_sense.Alerts.{AlertRule}
use indu_sense.Alerts.Store.{Alert, AlertRow, created, is_of, row_of, stored, create_if_due}
use indu_sense.Alerts.Store.OneOpen.{OneOpen}
use indu_sense.Alerts.Store.Due.{HasRoom, alone, create_if_due-created}
use indu_sense.Alerts.Engine.{Anomaly, Engine, Given}
use indu_sense.Alerts.Engine.Handlers.{process_anomaly}
use indu_sense.Alerts.Engine.Once.{IsValid, OthersKeep, process_anomaly-IsValid}
use indu_sense.Incidents.Store.Storm.{undisturbed}
use indu_sense.Examples.Numbers.{whole, client}

abbrev alert : Alert
alert = record {
  organization_id = "org";
  severity = "HIGH";
  factory_id = "f1";
  machine_id = "m1";
  device_id = "d1";
  sensor_id = "s1";
  title = "too hot";
  description = "";
  id = "";
  status = "";
  triggered_at = none;
  escalation_level = 0;
}

abbrev resolved_row : AlertRow
resolved_row = record (row_of "r1" "d1:temperature" "a0" 100 alert) {
  alert = record alert { status = "RESOLVED" };
}

abbrev rows : List AlertRow
rows = resolved_row ∷ []

rows-OneOpen : OneOpen rows
rows-OneOpen k d = ground (arith, eq_iff k "r1", eq_iff d "d1:temperature")

create_if_due-created_example :
    HasRoom 5000100 5 (filter (is_of "r1" "d1:temperature") rows)
    × ((stored "a1" 5000100 alert ≡ stored "a1" 5000100 alert)
        × ((create_if_due alone "a1" 5000100 "r1" 5 alert "d1:temperature" rows).1
            ≡ rows ++ row_of "r1" "d1:temperature" "a1" 5000100 alert ∷ []))
unfolding create_if_due indu_sense.Alerts.Store.latest
create_if_due-created_example =
    create_if_due-created "a1" 5000100 "r1" 5 alert "d1:temperature" rows
      (stored "a1" 5000100 alert) refl

abbrev hot : AlertRule ℕ
hot = record {
  id = "r1";
  organization_id = "org";
  name = "too hot";
  metric = "temperature";
  condition = "GREATER_THAN";
  threshold_value = some 60;
  threshold_min = none;
  threshold_max = none;
  severity = "HIGH";
  cooldown_seconds = 5;
  window_seconds = 0;
  machine_id = none;
  device_id = some "d1";
  sensor_id = none;
}

abbrev stops : AlertRule ℕ
stops = record hot { id = "r2"; metric = "machine_status" }

abbrev anomaly : Anomaly ℕ
anomaly = record {
  event_id = "e1";
  organization_id = "org";
  factory_id = "f1";
  machine_id = "m1";
  device_id = "d1";
  sensor_id = "s1";
  metric = "temperature";
  value = 70;
  reason = "";
  detected_at = 5000090;
}

abbrev engine : Engine ℕ
engine = record {
  rules = ("org|temperature", hot ∷ []) ∷ ("org|machine_status", stops ∷ []) ∷ [];
  alerts = rows;
  incidents = record { incidents = []; events = []; published = []; refuses = λ e. false };
  seen = [];
  kafka = client acknowledged;
  providers = record { console = true; logged = []; webhook = none };
}

abbrev given : Given
given = record {
  now = 5000100;
  clock = (1, 2);
  alert_id = λ r. "a1";
  incident_id = λ r. "i1";
  store_fails = λ r. false;
  other_alerts = λ r rows. rows;
  other_incidents = λ r. undisturbed;
  decoded = λ p. p;
}

engine-IsValid : IsValid engine
engine-IsValid = record { one_open = rows-OneOpen; one_active_incident = refl }

given-OthersKeep : OthersKeep given
given-OthersKeep = record { other_alerts = λ r rows v. v; other_incidents = λ r gap d h. h }

process_anomaly-IsValid_example :
    IsValid (process_anomaly whole (λ p. some anomaly) given "payload" engine).1
process_anomaly-IsValid_example =
    process_anomaly-IsValid whole (λ p. some anomaly) given given-OthersKeep "payload" engine
      engine-IsValid
