-- ===== src/Stream/Process.antt =====
-- services/stream-processor: dedup.py, influx.py, the writes of kafka_io.py, and the handling of one
-- message and of one flush in main.py. Redis is a dictionary of expiry times; the point that the
-- client library builds is its tags and fields.
pub mod Durable
pub mod Redelivery
use indu_sense.Base.{
  ℕ, ◌+◌, String, Bool, true, false, Option, none, some, List, [], ◌∷◌, ◌++◌, ltb, if◌then◌else◌,
  concat,
}
use indu_sense.Base.Dict.{Dict, lookup, insert}
use indu_sense.Float.{Float}
use indu_sense.Reliability.{Written, written, breaker_open, write_failed}
use indu_sense.Events.{NormalizedTelemetryEvent, DeadLetterRecord, transient_error}
use indu_sense.Kafka.{Client, write, send}
use indu_sense.Stream.Window.{SeriesBuffer, WindowStats, stats_for}
use indu_sense.Stream.Registry.{SeriesKey, SeriesRegistry, record_sample, snapshot}

-- A point of sensor_telemetry or of sensor_telemetry_agg; the window stands for its label.
pub data Point (F : Type 0) : Type 0 where
  raw_point : SeriesKey → Option ℕ → F → Point F
  aggregate_point : Option SeriesKey → ℕ → ℕ → WindowStats F → Point F

-- A message on telemetry.processed, with its key, or on the dead-letter topic.
pub data Output (F : Type 0) : Type 0 where
  processed : String → NormalizedTelemetryEvent F → Output F
  dead_letters : DeadLetterRecord → Output F

pub record Processor (F : Type 0) : Type 0 where
  pub kafka : Client (Output F)
  pub influx : Client (List (Point F))
  -- when the claim of a key expires
  pub claims : Dict ℕ
  pub dedup_ttl : ℕ
  pub registry : SeriesRegistry F

-- What the surroundings give to the handling of one message.
pub record Given : Type 0 where
  pub redis_up : Bool
  -- Redis' clock
  pub seconds : ℕ
  pub influx_clock : ℕ × ℕ
  pub kafka_clock : ℕ × ℕ
  pub now : ℕ
  -- `payload.decode("utf-8", errors="replace")`
  pub decoded : String → String

-- How `_process_message` ends: it returns True or False, or an exception escapes it.
pub data Ended : Type 0 where
  commits holds crashes : Ended

abbrev pub dedup_key : String → String
dedup_key event_id = concat ("dedup:telemetry:" ∷ event_id ∷ [])

-- whether the key is there and has not expired
abbrev pub is_live : ℕ → Option ℕ → Bool
is_live now none = false
is_live now (some expiry) = ltb now expiry

-- SET key 1 EX ttl NX
unfoldable pub claim : ℕ → ℕ → String → Dict ℕ → Bool × Dict ℕ
claim now ttl event_id claims =
    if is_live now (lookup (dedup_key event_id) claims)
    then (false, claims)
    else (true, insert (dedup_key event_id) (now + ttl) claims)

abbrev pub dead_letter_record : String → String → String → ℕ → DeadLetterRecord
dead_letter_record payload stage correlation_id now = record {
  original_payload = payload;
  error_type = transient_error;
  service = "stream-processor";
  processing_stage = stage;
  retry_count = 0;
  timestamp = now;
  correlation_id = correlation_id;
  source_topic = "telemetry.raw";
}

module _ {F : Type 0} where
  abbrev pub key_of : NormalizedTelemetryEvent F → SeriesKey
  key_of evt = record {
    factory_id = evt.event.factory_id;
    production_line_id = evt.event.production_line_id;
    machine_id = evt.event.machine_id;
    device_id = evt.event.device_id;
    sensor_id = evt.event.sensor_id;
    metric = evt.event.metric;
  }

  sent : Bool × Client (Output F) → Processor F → Ended × Processor F
  sent (true, kafka) s = (commits, record s { kafka = kafka })
  sent (false, kafka) s = (holds, record s { kafka = kafka })

  -- `kio.dead_letter` and the `return` after it
  unfoldable pub dead_letter : Given → String → String → String → Processor F → Ended × Processor F
  unfolding sent
  dead_letter g payload stage correlation_id s =
      sent
        (send (dead_letters (dead_letter_record (g.decoded payload) stage correlation_id g.now))
          s.kafka)
        s

  -- `publish_processed` and what follows, given how the write ends
  published :
      Given
      → String
      → NormalizedTelemetryEvent F
      → Written × Client (Output F)
      → Processor F
      → Ended × Processor F
  published g payload evt (written, kafka) s = (commits, record s { kafka = kafka })
  published g payload evt (breaker_open, kafka) s =
      dead_letter g payload "republish_processed" evt.event.event_id (record s { kafka = kafka })
  published g payload evt (write_failed o, kafka) s =
      dead_letter g payload "republish_processed" evt.event.event_id (record s { kafka = kafka })

  publish_processed :
      Given → String → NormalizedTelemetryEvent F → Processor F → Ended × Processor F
  unfolding published
  publish_processed g payload evt s =
      published g payload evt (write g.kafka_clock (processed evt.event.device_id evt) s.kafka) s

  -- `registry.record`, which raises on a message without a timestamp, and what follows
  recorded :
      Given → String → NormalizedTelemetryEvent F → Option ℕ → Processor F → Ended × Processor F
  unfolding publish_processed
  recorded g payload evt none s = (crashes, s)
  recorded g payload evt (some at) s =
      publish_processed g payload evt
        (record s { registry = record_sample (key_of evt) at evt.event.value s.registry })

  -- `write_raw_point` and what follows, given how the write ends
  stored :
      Given
      → String
      → NormalizedTelemetryEvent F
      → Written × Client (List (Point F))
      → Processor F
      → Ended × Processor F
  unfolding recorded
  stored g payload evt (written, influx) s =
      recorded g payload evt evt.event.timestamp (record s { influx = influx })
  stored g payload evt (breaker_open, influx) s =
      dead_letter g payload "influxdb_write" evt.event.event_id (record s { influx = influx })
  stored g payload evt (write_failed o, influx) s =
      dead_letter g payload "influxdb_write" evt.event.event_id (record s { influx = influx })

  abbrev pub raw_points : NormalizedTelemetryEvent F → List (Point F)
  raw_points evt = raw_point (key_of evt) evt.event.timestamp evt.event.value ∷ []

  -- what follows the claim
  claimed :
      Given
      → String
      → NormalizedTelemetryEvent F
      → Bool × Dict ℕ
      → Processor F
      → Ended × Processor F
  unfolding stored
  claimed g payload evt (false, claims) s = (commits, s)
  claimed g payload evt (true, claims) s =
      stored g payload evt (write g.influx_clock (raw_points evt) s.influx)
        (record s { claims = claims })

  -- without Redis the message is left for another delivery
  abbrev if_reached : Bool → Ended × Processor F → Processor F → Ended × Processor F
  if_reached true r s = r
  if_reached false r s = (holds, s)

  parsed : Given → String → Option (NormalizedTelemetryEvent F) → Processor F → Ended × Processor F
  unfolding claimed
  parsed g payload none s = dead_letter g payload "unmarshal" "" s
  parsed g payload (some evt) s =
      if_reached g.redis_up
        (claimed g payload evt (claim g.seconds s.dedup_ttl evt.event.event_id s.claims) s) s

  -- `parse` is `model_validate_json`.
  unfoldable pub process_message :
      (String → Option (NormalizedTelemetryEvent F))
      → Given
      → String
      → Processor F
      → Ended × Processor F
  unfolding parsed
  process_message parse g payload s = parsed g payload (parse payload) s

module _ {F : Type 0} (f : Float F) where
  window_points : ℕ → Option SeriesKey → SeriesBuffer F → List ℕ → List (Point F)
  window_points now key buf [] = []
  window_points now key buf (w ∷ windows) = elim (stats_for f now w buf) [
    | none ↦ window_points now key buf windows
    | some st ↦ aggregate_point key w now st ∷ window_points now key buf windows
  ]

  points_of : ℕ → List ℕ → List (Option SeriesKey × SeriesBuffer F) → List (Point F)
  unfolding window_points
  points_of now windows [] = []
  points_of now windows ((key, buf) ∷ series) =
      window_points now key buf windows ++ points_of now windows series

  -- `write_aggregate_batch`: a failure is logged, and the points are dropped
  write_batch : ℕ × ℕ → List (Point F) → Processor F → Processor F
  write_batch clock [] s = s
  write_batch clock (p ∷ points) s = record s { influx = (write clock (p ∷ points) s.influx).1 }

  unfoldable pub flush_once : ℕ → ℕ × ℕ → List ℕ → Processor F → Processor F
  unfolding points_of write_batch
  flush_once now clock windows s = write_batch clock (points_of now windows (snapshot s.registry)) s
