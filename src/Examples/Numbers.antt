-- ===== src/Examples/Numbers.antt =====
-- The natural numbers in the place of floating-point numbers, and clients whose brokers answer alike.
use indu_sense.Base.{ℕ, ◌+◌, ◌-◌, ◌*◌, ◌/◌, some, [], arith, ltb, leb}
use indu_sense.Float.{Float, Comparison}
use indu_sense.Reliability.{CircuitBreaker, closed}
use indu_sense.Kafka.{Answer, Broker, Client}
use indu_sense.Events.{
  pos, TelemetryEvent, NormalizedTelemetryEvent, MachineEvent, NormalizedMachineEvent,
}

abbrev pub whole : Float ℕ
whole = record {
  lt = ltb;
  le = leb;
  add = λ a b. a + b;
  sub = λ a b. a - b;
  mul = λ a b. a * b;
  div = λ a b. a / b;
  sqrt = λ a. a;
  abs = λ a. a;
  neg = λ a. a;
  log = λ a. a;
  pow = λ a b. a;
  ratio = λ a b. a / b;
}

pub whole-Comparison : Comparison whole
whole-Comparison = record { lt_irrefl = λ a. ground arith; lt_trans = λ a b c h k. ground arith }

abbrev pub broker : {M : Type 0} → Answer → Broker M
broker a = record { answers = λ n. a; asked = 0; log = [] }

abbrev pub closed_breaker : CircuitBreaker
closed_breaker = record {
  state = closed;
  consecutive_fails = 0;
  threshold = 5;
  cooldown = 30;
  opened_at = 0;
}

abbrev pub client : {M : Type 0} → Answer → Client M
client a = record {
  broker = broker a;
  breaker = closed_breaker;
  max_retries = 2;
  retry_delay = 100;
}

abbrev pub reading : TelemetryEvent ℕ
reading = record {
  event_id = "e1";
  organization_id = "org";
  factory_id = "f1";
  production_line_id = "l1";
  machine_id = "m1";
  device_id = "d1";
  sensor_id = "s1";
  timestamp = some 60;
  sequence_number = pos 1;
  metric = "temperature";
  value = 70;
  unit = "C";
}

abbrev pub normalized_reading : NormalizedTelemetryEvent ℕ
normalized_reading = record { event = reading; correlation_id = "e1"; ingested_at = 61; schema = 1 }

abbrev pub stopped : MachineEvent
stopped = record {
  organization_id = "org";
  factory_id = "f1";
  machine_id = "m1";
  device_id = "d1";
  sensor_id = "";
  status = "";
  event_type = "MACHINE_STOPPED";
  timestamp = some 60;
}

abbrev pub normalized_stopped : NormalizedMachineEvent
normalized_stopped = record { event = stopped; correlation_id = "c1"; ingested_at = 61; schema = 1 }
