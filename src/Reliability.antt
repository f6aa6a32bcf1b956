-- ===== src/Reliability.antt =====
-- shared/reliability.py: `retry_with_backoff`, `CircuitBreaker`, and the `protected_write` of the
-- Kafka clients, which puts the one behind the other. The world that a call works on is a type `W`;
-- what a call may raise is an `Attempt`. A clock reading is a number of milliseconds, and a method
-- that reads the clock takes the reading as an argument.
pub mod Retry
pub mod Breaker
pub mod Outage
use indu_sense.Base.{ℕ, zero, suc, ◌+◌, ◌*◌, Bool, true, false, List, [], ◌∷◌, leb, if◌then◌else◌}

-- How one call of `fn` ends: it returns, raises `ErrPermanent`, or raises another exception.
pub data Attempt : Type 0 where
  done permanent transient : Attempt

-- How `retry_with_backoff` ends. `no_attempt` is the failed `assert last_error is not None`.
pub data Outcome : Type 0 where
  returned raised_permanent raised_last no_attempt : Outcome

pub record Retried {ℓ} (W : Type ℓ) : Type ℓ where
  pub outcome : Outcome
  pub world : W
  -- the arguments of `sleep`, in order
  pub slept : List ℕ
  -- how often `fn` was called
  pub calls : ℕ

module _ {ℓ} {W : Type ℓ} where
  stop : Outcome → W → Retried W
  stop o w = record { outcome = o; world = w; slept = []; calls = 1 }

  -- `sleep(delay)`, then the rest of the loop
  sleeping : ℕ → Retried W → Retried W
  sleeping delay r = record r { slept = delay ∷ r.slept; calls = suc r.calls }

  -- What follows a call of `fn`, where `left` attempts remain after it and `rest` is what they do.
  after_call : ℕ → ℕ → Attempt × W → Retried W → Retried W
  after_call left delay (done, w) rest = stop returned w
  after_call left delay (permanent, w) rest = stop raised_permanent w
  after_call zero delay (transient, w) rest = stop raised_last w
  after_call (suc left) delay (transient, w) rest = sleeping delay rest

  -- The loop, with so many attempts left; `delay` is that of the next `sleep`.
  unfoldable pub retry_with_backoff : ℕ → ℕ → (W → Attempt × W) → W → Retried W
  unfolding after_call stop sleeping
  retry_with_backoff zero delay fn w = record {
    outcome = no_attempt;
    world = w;
    slept = [];
    calls = 0;
  }
  retry_with_backoff (suc left) delay fn w =
      let r = fn w in
      let rest = retry_with_backoff left (delay * 2) fn r.1 in after_call left delay r rest

pub data BreakerState : Type 0 where
  closed open_ half_open : BreakerState

pub record CircuitBreaker : Type 0 where
  pub state : BreakerState
  pub consecutive_fails : ℕ
  pub threshold : ℕ
  pub cooldown : ℕ
  pub opened_at : ℕ

-- `CircuitBreaker(threshold, cooldown_seconds)`
unfoldable pub new : ℕ → ℕ → CircuitBreaker
new threshold cooldown = record {
  state = closed;
  consecutive_fails = 0;
  threshold = threshold;
  cooldown = cooldown;
  opened_at = 0;
}

allow_in : BreakerState → ℕ → CircuitBreaker → Bool × CircuitBreaker
allow_in closed now b = (true, b)
allow_in half_open now b = (false, b)
allow_in open_ now b =
    if leb (b.opened_at + b.cooldown) now
    then (true, record b { state = half_open })
    else (false, b)

unfoldable pub allow : ℕ → CircuitBreaker → Bool × CircuitBreaker
unfolding allow_in
allow now b = allow_in b.state now b

unfoldable pub record_success : CircuitBreaker → CircuitBreaker
record_success b = record b { consecutive_fails = 0; state = closed }

count_failure : ℕ → CircuitBreaker → CircuitBreaker
count_failure now b =
    let b' = record b { consecutive_fails = b.consecutive_fails + 1 } in
    if leb b'.threshold b'.consecutive_fails
    then record b' { state = open_; opened_at = now }
    else b'

record_failure_in : BreakerState → ℕ → CircuitBreaker → CircuitBreaker
unfolding count_failure
record_failure_in half_open now b = record b { state = open_; opened_at = now }
record_failure_in closed now b = count_failure now b
record_failure_in open_ now b = count_failure now b

unfoldable pub record_failure : ℕ → CircuitBreaker → CircuitBreaker
unfolding record_failure_in
record_failure now b = record_failure_in b.state now b

-- How `protected_write` ends: it returns, raises since the breaker is open, or raises what
-- `retry_with_backoff` raised.
pub data Written : Type 0 where
  written breaker_open : Written
  write_failed : Outcome → Written

pub record Write {ℓ} (W : Type ℓ) : Type ℓ where
  pub result : Written
  pub world : W
  pub breaker : CircuitBreaker
  pub slept : List ℕ
  pub calls : ℕ

-- the `try` around the retries
recorded : Outcome → ℕ → CircuitBreaker → Written × CircuitBreaker
recorded returned now b = (written, record_success b)
recorded o now b = (write_failed o, record_failure now b)

module _ {ℓ} {W : Type ℓ} where
  attempt_write : Bool × CircuitBreaker → ℕ → ℕ → ℕ → (W → Attempt × W) → W → Write W
  unfolding recorded
  attempt_write (false, b) max_retries delay now fn w = record {
    result = breaker_open;
    world = w;
    breaker = b;
    slept = [];
    calls = 0;
  }
  attempt_write (true, b) max_retries delay now fn w =
      let r = retry_with_backoff max_retries delay fn w in
      let e = recorded r.outcome now b in
      record { result = e.0; world = r.world; breaker = e.1; slept = r.slept; calls = r.calls }

  -- The two readings of the clock are that of `allow` and that of `record_failure`.
  unfoldable pub protected_write :
      ℕ → ℕ → (ℕ × ℕ) → (W → Attempt × W) → W → CircuitBreaker → Write W
  unfolding attempt_write
  protected_write max_retries delay (asked, recorded_at) fn w b =
      attempt_write (allow asked b) max_retries delay recorded_at fn w
