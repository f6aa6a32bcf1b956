-- ===== src/Examples/Ingestion.antt =====
-- Runs of services/ingestion.
use indu_sense.Base.{ℕ, ◌≡◌, refl, ◌⊎◌, ◌↔◌, true, false, none, some, [], ◌∷◌, ◌==◌, not}
use indu_sense.Kafka.{acknowledged, lost}
use indu_sense.Ingestion.{Externals, validate_telemetry, validate_machine_event}
use indu_sense.Ingestion.Sink.{KafkaSink, Given}
use indu_sense.Ingestion.Handlers.{InboundMessage, handle_telemetry}
use indu_sense.Ingestion.Handlers.Durable.{Published, DeadLettered, handle_telemetry-acknowledged}
use indu_sense.Ingestion.Checks.{AcceptedTelemetry, validate_telemetry-none_iff}
use indu_sense.Ingestion.Mqtt.{Inbound, Session, works, run, parse_broker_url}
use indu_sense.Examples.Numbers.{broker, closed_breaker, reading, stopped}

abbrev world : Externals ℕ
world = record {
  is_uuid = λ s. not (s == "bad");
  is_finite = λ v. true;
  parse_telemetry = λ p. some reading;
  parse_machine = λ p. some stopped;
}

abbrev sink : KafkaSink ℕ
sink = record {
  broker = broker acknowledged;
  breaker = closed_breaker;
  max_retries = 2;
  retry_base_delay = 100;
}

abbrev given : Given
given = record { clock = (1, 2); now = 90; uuid = "u1"; decoded = λ p. p }

abbrev job : InboundMessage
job = record { topic = "factory/f1/machine/m1/sensor/s1/telemetry"; payload = "payload" }

handle_telemetry-acknowledged_example :
    Published world sink given job (handle_telemetry world sink given job).1
    ⊎ DeadLettered "payload" (handle_telemetry world sink given job).1
unfolding handle_telemetry validate_telemetry indu_sense.Ingestion.Sink.publish
    indu_sense.Reliability.protected_write indu_sense.Reliability.allow
    indu_sense.Reliability.retry_with_backoff indu_sense.Kafka.produce_and_wait
handle_telemetry-acknowledged_example = handle_telemetry-acknowledged world sink given job refl

validate_telemetry-none_iff_example :
    (validate_telemetry world reading ≡ none) ↔ AcceptedTelemetry world reading
validate_telemetry-none_iff_example = validate_telemetry-none_iff world reading

abbrev inbound : Inbound
inbound = record { mid = 7; message = job }

abbrev session : Session ℕ
session = record {
  unacked = inbound ∷ [];
  jobs = [];
  capacity = 10;
  shutdown = false;
  sink = sink;
  acked = [];
}

-- A job that is still queued from an earlier delivery acknowledges the message that has its id now.
abbrev reused : Inbound
reused = record { mid = 7; message = record job { payload = "later" } }

stale_ack :
    (run world
      (works given ∷ [])
      (record session { unacked = reused ∷ []; jobs = inbound ∷ [] })).unacked
    ≡ []
unfolding run indu_sense.Ingestion.Handlers.process_message handle_telemetry validate_telemetry
    indu_sense.Ingestion.Sink.publish indu_sense.Reliability.protected_write
    indu_sense.Reliability.allow indu_sense.Reliability.retry_with_backoff
    indu_sense.Kafka.produce_and_wait
stale_ack = refl

broker_url : parse_broker_url (λ s. some 1884) "tcp://mosquitto:1884" ≡ some ("mosquitto", 1884)
unfolding parse_broker_url
broker_url = refl

plain_url : parse_broker_url (λ s. none) "mosquitto" ≡ some ("mosquitto", 1883)
unfolding parse_broker_url
plain_url = refl
