-- ===== src/Ingestion/Mqtt.antt =====
-- services/ingestion: the subscription of mqtt_client.py, and the queue and the workers of main.py. An
-- acknowledgement names a message by its id, which the broker may use again for a later message.
pub mod Kept
use Prim.Native.Char.{Char, code}
use indu_sense.Base.{
  ℕ, zero, suc, ◌+◌, String, Bool, true, false, ◌&&◌, ◌||◌, not, Option, none, some, List, [], ◌∷◌,
  ◌++◌, length, ltb, leb, ◌==◌, filter, get_elem?, if◌then◌else◌,
}
use indu_sense.Reliability.{CircuitBreaker}
use indu_sense.Ingestion.{Externals}
use indu_sense.Ingestion.Sink.{KafkaSink, Given}
use indu_sense.Ingestion.Handlers.{InboundMessage, process_message}

-- a message with its id
pub record Inbound : Type 0 where
  pub mid : ℕ
  pub message : InboundMessage

-- an acknowledgement, with what the message was handled with
pub record Acked (F : Type 0) : Type 0 where
  pub inbound : Inbound
  pub given : Given
  pub sink : KafkaSink F

-- The service with the persistent session that the broker keeps for it: what is not acknowledged is
-- delivered again.
pub record Session (F : Type 0) : Type 0 where
  pub unacked : List Inbound
  pub jobs : List Inbound
  pub capacity : ℕ
  pub shutdown : Bool
  pub sink : KafkaSink F
  pub acked : List (Acked F)

abbrev pub same_mid : ℕ → ℕ → Bool
same_mid m n = leb m n && leb n m

module _ {F : Type 0} where
  -- `handler` of `_subscribe`: neither enqueued nor acknowledged during a shutdown, or if the queue
  -- is full
  unfoldable pub handler : Inbound → Session F → Session F
  handler m s =
      if s.shutdown
      then s
      else if leb s.capacity 0 || ltb (length s.jobs) s.capacity
      then record s { jobs = s.jobs ++ m ∷ [] }
      else s

  abbrev handler_of : Option Inbound → Session F → Session F
  handler_of none s = s
  handler_of (some m) s = handler m s

  -- `job.ack()`
  unfoldable pub ack : Inbound → Given → Session F → Session F
  ack m g s = record s {
    unacked = filter (λ n. not (same_mid n.mid m.mid)) s.unacked;
    acked = s.acked ++ record { inbound = m; given = g; sink = s.sink } ∷ [];
  }

module _ {F : Type 0} (x : Externals F) where
  abbrev pub ack_if : Bool → Inbound → Given → Session F → Session F
  ack_if true m g s = ack m g s
  ack_if false m g s = s

  -- a worker that has taken a job off the queue: `_process_message`, with the acknowledgement
  unfoldable pub process_job : Inbound → Given → Session F → Session F
  unfolding ack
  process_job m g s =
      let r = process_message x s.sink g m.message in
      let acknowledged = ack_if r.0 m g s in record acknowledged { sink = r.1 }

  -- one turn of the loop of `_worker`
  unfoldable pub work : Given → List Inbound → Session F → Session F
  unfolding process_job
  work g [] s = s
  work g (m ∷ jobs) s = process_job m g (record s { jobs = jobs })

  -- the loop that a worker ends with: it empties the queue; `given n` is for the n-th job
  unfoldable pub drain : (ℕ → Given) → List Inbound → Session F → Session F
  unfolding work
  drain given [] s = s
  drain given (m ∷ jobs) s = drain (λ n. given (suc n)) jobs (work (given 0) (m ∷ jobs) s)

-- A message arrives at the broker, the i-th unacknowledged one is delivered, a worker takes a turn, the
-- shutdown is signalled, and the process ends and starts again with an empty queue.
pub data Step : Type 0 where
  arrives : Inbound → Step
  delivers : ℕ → Step
  works : Given → Step
  shuts_down : Step
  restarts : CircuitBreaker → Step

module _ {F : Type 0} (x : Externals F) where
  unfoldable pub step : Step → Session F → Session F
  unfolding handler work
  step (arrives m) s = record s { unacked = s.unacked ++ m ∷ [] }
  step (delivers i) s = handler_of (get_elem? s.unacked i) s
  step (works g) s = work x g s.jobs s
  step shuts_down s = record s { shutdown = true }
  step (restarts breaker) s = record s {
    jobs = [];
    shutdown = false;
    sink = record s.sink { breaker = breaker };
  }

  unfoldable pub run : List Step → Session F → Session F
  unfolding step
  run [] s = s
  run (t ∷ steps) s = run steps (step t s)

-- `s.split("://", 1)[-1]`
abbrev pub after_scheme : String → String → String
after_scheme whole String.[] = whole
after_scheme whole (String.◌∷◌ a String.[]) = whole
after_scheme whole (String.◌∷◌ a (String.◌∷◌ b String.[])) = whole
after_scheme whole (String.◌∷◌ a (String.◌∷◌ b (String.◌∷◌ c s))) =
    let rest = after_scheme whole (String.◌∷◌ b (String.◌∷◌ c s)) in
    if leb (code a) b':'
      && leb b':' (code a)
      && (leb (code b) b'/' && leb b'/' (code b) && (leb (code c) b'/' && leb b'/' (code c)))
    then s
    else rest

-- `s.partition(":")`, without the separator
abbrev pub partition : String → String × String
partition String.[] = ("", "")
partition (String.◌∷◌ c s) =
    let rest = partition s in
    if leb (code c) b':' && leb b':' (code c) then ("", s) else (String.◌∷◌ c rest.0, rest.1)

abbrev with_port : String → Option ℕ → Option (String × ℕ)
with_port host none = none
with_port host (some p) = some (host, p)

-- `_parse_broker_url`; `int` gives `none` for a ValueError
unfoldable pub parse_broker_url : (String → Option ℕ) → String → Option (String × ℕ)
parse_broker_url int url =
    let parts = partition (after_scheme url url) in
    if parts.1 == "" then some (parts.0, 1883) else with_port parts.0 (int parts.1)
