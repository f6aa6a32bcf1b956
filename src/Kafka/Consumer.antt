-- ===== src/Kafka/Consumer.antt =====
-- The loop that the services' main.py share, of polling, handling and committing, over one partition
-- of a topic: services/stream-processor/main.py, services/anomaly-detector/main.py,
-- services/alert-service/main.py. A consumer polls the messages one after the other, whatever has been
-- committed; a commit of a message sets the group's offset to the one after it; a consumer that
-- starts polls from the committed offset on.
pub mod Skipped
use indu_sense.Base.{
  ℕ, ◌+◌, ◌<◌, ◌≤◌, String, Bool, true, false, ◌≡◌, refl, Option, none, some, List, [], ◌∷◌, ◌++◌,
  In, arith, length, get_elem?, if◌then◌else◌,
}

-- how the handling of a message ends: with True, with False, or with an exception that is not caught
pub data Verdict : Type 0 where
  commits holds crashes : Verdict

-- what `poll` does: raise, return no message or an error event, or return the next message if any
pub data Fetch : Type 0 where
  fetch_error no_message next_message : Fetch

-- One turn of the loop; `recorded` tells whether a commit takes effect, be it reported or not.
pub record Turn (G : Type 0) : Type 0 where
  pub fetch : Fetch
  pub given : G
  pub recorded : Bool

-- A partition, with the service that consumes it.
pub record Consumer (S : Type 0) : Type 0 where
  pub messages : List String
  -- the offset of the message that is polled next
  pub position : ℕ
  pub committed : ℕ
  pub running : Bool
  -- the offsets of the messages that have been handled, in order, with how the handling ended
  pub handled : List (ℕ × Verdict)
  pub state : S

-- A producer writes a message, the loop takes a turn, and the service starts again with what is left
-- of its state.
pub data Step (G S : Type 0) : Type 0 where
  arrives : String → Step G S
  turns : Turn G → Step G S
  restarts : (S → S) → Step G S

module _ {G S : Type 0} (process : G → String → S → Verdict × S) where
  unfoldable pub settle : Bool → ℕ → Verdict × S → Consumer S → Consumer S
  settle recorded offset (commits, state) c = record c {
    state = state;
    committed = if recorded then offset + 1 else c.committed;
  }
  settle recorded offset (holds, state) c = record c { state = state }
  settle recorded offset (crashes, state) c = record c { state = state; running = false }

  -- the message at the position is taken
  abbrev pub taken : Verdict → Consumer S → Consumer S
  taken v c = record c { position = c.position + 1; handled = c.handled ++ (c.position, v) ∷ [] }

  unfoldable pub handle : Turn G → Option String → Consumer S → Consumer S
  unfolding settle
  handle t none c = c
  handle t (some payload) c =
      let r = process t.given payload c.state in settle t.recorded c.position r (taken r.0 c)

  abbrev pub on_fetch : Fetch → Consumer S → Consumer S → Consumer S
  on_fetch fetch_error done c = c
  on_fetch no_message done c = c
  on_fetch next_message done c = done

  unfoldable pub consume_turn : Turn G → Consumer S → Consumer S
  unfolding handle
  consume_turn t c =
      let done = handle t (get_elem? c.messages c.position) c in
      if c.running then on_fetch t.fetch done c else c

  unfoldable pub step : Step G S → Consumer S → Consumer S
  unfolding consume_turn
  step (arrives payload) c = record c { messages = c.messages ++ payload ∷ [] }
  step (turns t) c = consume_turn t c
  step (restarts left) c = record c { position = c.committed; running = true; state = left c.state }

  unfoldable pub run : List (Step G S) → Consumer S → Consumer S
  unfolding step
  run [] c = c
  run (t ∷ steps) c = run steps (step t c)
