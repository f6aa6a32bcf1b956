-- ===== src/Examples/Stream.antt =====
-- Runs of services/stream-processor.
use indu_sense.Base.{
  ℕ, ◌+◌, String, ◌≡◌, refl, ◌≢◌, Bool, true, false, Option, none, some, List, [], ◌∷◌, arith, ◌==◌,
  if◌then◌else◌, All, not, ◌&&◌, ◌≤◌,
}
use indu_sense.Kafka.{acknowledged, lost}
use indu_sense.Stream.Window.{
  Sample, insert_sample, is_before, SeriesBuffer, WindowStats, add, in_window, stats_for,
}
use indu_sense.Stream.Window.Order.{IsOrdered, latest}
use indu_sense.Stream.Window.Contents.{count, count-add}
use indu_sense.Stream.Window.Stats.{Summarizes, stats_for-Summarizes}
use indu_sense.Stream.Registry.{SeriesRegistry, SeriesKey}
use indu_sense.Stream.Process.{Processor, Given, commits, holds, process_message}
use indu_sense.Stream.Process.Durable.{Settled, process_message-committed}
use indu_sense.Stream.Process.Redelivery.{process_message-skips_redelivery}
use indu_sense.Examples.Numbers.{whole, whole-Comparison, client, normalized_reading}

abbrev at : ℕ → ℕ → Sample ℕ
at t v = record { at = t; value = v }

abbrev buffer : SeriesBuffer ℕ
buffer = record { samples = at 10 5 ∷ at 30 7 ∷ []; max_window = 40 }

buffer_ordered : IsOrdered buffer.samples
buffer_ordered = ((omega arith, tt), (tt, tt))

count-add_example :
    ((p : Sample ℕ → Bool)
      → count p (add 60 9 buffer).samples
        ≡ count
            (λ s. not (is_before (latest 60 9 buffer buffer_ordered) 40 s) && p s)
            (at 60 9 ∷ at 10 5 ∷ at 30 7 ∷ []))
    × All (λ s. s.at ≤ latest 60 9 buffer buffer_ordered) (insert_sample (at 60 9) buffer.samples)
count-add_example = count-add 60 9 buffer buffer_ordered

abbrev stats : WindowStats ℕ
stats = record {
  count = 2;
  moving_avg = 6;
  moving_stddev = 0;
  min = 5;
  max = 7;
  rate_of_change = 0;
}

stats_for-Summarizes_example :
    Summarizes whole whole-Comparison stats (in_window 40 40 buffer.samples)
unfolding stats_for
stats_for-Summarizes_example = stats_for-Summarizes whole whole-Comparison 40 40 buffer stats refl

abbrev key : SeriesKey
key = record {
  factory_id = "f1";
  production_line_id = "l1";
  machine_id = "m1";
  device_id = "d1";
  sensor_id = "s1";
  metric = "rpm";
}

abbrev registry : SeriesRegistry ℕ
registry = record { buffers = ("d2|rpm", buffer) ∷ []; keys = []; max_window = 40 }

abbrev pub given : ℕ → Given
given seconds = record {
  redis_up = true;
  seconds = seconds;
  influx_clock = (1, 2);
  kafka_clock = (1, 2);
  decoded = λ p. p;
  now = 90;
}

abbrev healthy : Processor ℕ
healthy = record {
  kafka = client acknowledged;
  influx = client acknowledged;
  claims = [];
  dedup_ttl = 3600;
  registry = registry;
}

-- neither InfluxDB nor Kafka takes anything
abbrev pub cut_off : Processor ℕ
cut_off = record healthy { kafka = client lost; influx = client lost }

process_message-committed_example :
    Settled
      (λ p. some normalized_reading)
      (given 5)
      "payload"
      healthy
      (process_message (λ p. some normalized_reading) (given 5) "payload" healthy).1
unfolding process_message indu_sense.Stream.Process.claim indu_sense.Base.Dict.lookup
    indu_sense.Kafka.write indu_sense.Reliability.protected_write indu_sense.Reliability.allow
    indu_sense.Reliability.retry_with_backoff
process_message-committed_example =
    process_message-committed (λ p. some normalized_reading) (given 5) "payload" healthy refl

process_message-skips_redelivery_example :
    let s = (process_message (λ p. some normalized_reading) (given 5) "payload" cut_off).1 in
    process_message (λ p. some normalized_reading) (given 65) "payload" s ≡ (commits, s)
unfolding indu_sense.Base.Dict.lookup
process_message-skips_redelivery_example =
    process_message-skips_redelivery (λ p. some normalized_reading) (given 5) (given 65) "payload"
      normalized_reading cut_off refl refl refl refl (omega arith)

-- that run: the first delivery is left uncommitted
cut_off_holds :
    (process_message (λ p. some normalized_reading) (given 5) "payload" cut_off).0 ≡ holds
unfolding process_message indu_sense.Stream.Process.claim indu_sense.Base.Dict.lookup
    indu_sense.Kafka.write indu_sense.Reliability.protected_write indu_sense.Reliability.allow
    indu_sense.Reliability.retry_with_backoff indu_sense.Stream.Process.dead_letter
    indu_sense.Kafka.send
cut_off_holds = refl
