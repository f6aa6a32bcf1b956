-- ===== src/Reliability/Breaker.antt =====
-- The states of `CircuitBreaker` of shared/reliability.py: its invariant, the trip after
-- `threshold` failures in a row, and the single trial call of the half-open state.
use indu_sense.Base.{
  ℕ, ◌+◌, ◌≤◌, ◌<◌, ◌≡◌, ◌≢◌, Bool, true, false, List, [], ◌∷◌, length, All, arith, leb,
  if◌then◌else◌,
}
use indu_sense.Reliability.{
  CircuitBreaker, closed, open_, half_open, new, allow, record_success, record_failure,
}

-- Open and half-open mean that the failures have reached the threshold, closed that they have not.
pub record IsValid (b : CircuitBreaker) : Type 0 where
  pub armed : 0 < b.threshold
  pub below : b.state ≡ closed → b.consecutive_fails < b.threshold
  pub reached : b.state ≢ closed → b.threshold ≤ b.consecutive_fails

-- A call of a method, with the clock reading that it takes.
pub data Call : Type 0 where
  asks : ℕ → Call
  succeeds : Call
  fails : ℕ → Call

abbrev pub perform : Call → CircuitBreaker → CircuitBreaker
perform (asks now) b = (allow now b).1
perform succeeds b = record_success b
perform (fails now) b = record_failure now b

-- Any calls, of any threads, in the order in which they take the lock.
abbrev pub perform_all : List Call → CircuitBreaker → CircuitBreaker
perform_all [] b = b
perform_all (c ∷ cs) b = perform_all cs (perform c b)

pub perform-IsValid : (c : Call) (b : CircuitBreaker) → IsValid b → IsValid (perform c b)
unfolding allow record_success record_failure
perform-IsValid (asks now) b v = ground arith
perform-IsValid succeeds b v = ground arith
perform-IsValid (fails now) b v = ground arith

-- Whatever calls are made of the breaker, in whatever order: it is closed exactly while its count
-- of failures is below the threshold.
pub perform_all-IsValid :
    (cs : List Call) (b : CircuitBreaker) → IsValid b → IsValid (perform_all cs b)
perform_all-IsValid [] b v = v
perform_all-IsValid (c ∷ cs) b v = perform_all-IsValid cs (perform c b) (perform-IsValid c b v)

pub new-IsValid : (threshold cooldown : ℕ) → 0 < threshold → IsValid (new threshold cooldown)
unfolding new
new-IsValid threshold cooldown h = ground arith

-- failures in a row, at the given times
abbrev pub fail_all : List ℕ → CircuitBreaker → CircuitBreaker
fail_all [] b = b
fail_all (now ∷ times) b = fail_all times (record_failure now b)

fail_step :
    (now : ℕ) (b : CircuitBreaker)
    → IsValid b
    → b.state ≢ half_open
    → ((record_failure now b).consecutive_fails ≡ b.consecutive_fails + 1)
      × ((record_failure now b).threshold ≡ b.threshold)
      × ((record_failure now b).state ≢ half_open)
unfolding record_failure
fail_step now b v h = ground arith

-- From a valid breaker that is not half-open, failures in a row are counted, and it is open after
-- them exactly when the count has reached the threshold, and closed otherwise.
pub fail_all-state :
    (times : List ℕ) (b : CircuitBreaker)
    → IsValid b
    → b.state ≢ half_open
    → ((fail_all times b).consecutive_fails ≡ b.consecutive_fails + length times)
      × ((fail_all times b).state
          ≡ (if leb b.threshold (b.consecutive_fails + length times) then open_ else closed))
fail_all-state [] b v h = ground (arith, v.below, v.reached)
fail_all-state (now ∷ times) b v h = ground (
  arith,
  fail_step now b v h,
  fail_all-state times (record_failure now b) (perform-IsValid (Call.fails now) b v),
)

-- the answers to calls of `allow`
abbrev pub answers : List ℕ → CircuitBreaker → List Bool
answers [] b = []
answers (now ∷ times) b = (allow now b).0 ∷ answers times (allow now b).1

answers-half_open :
    (times : List ℕ) (b : CircuitBreaker)
    → b.state ≡ half_open
    → All (λ a. a ≡ false) (answers times b)
unfolding allow
answers-half_open [] b h = tt
answers-half_open (now ∷ times) b h = ground (arith, answers-half_open times b h)

trial-half_open :
    (now : ℕ) (b : CircuitBreaker)
    → b.state ≢ closed
    → (allow now b).0 ≡ true
    → (allow now b).1.state ≡ half_open
unfolding allow
trial-half_open now b c h = ground arith

-- A breaker that is not closed lets at most one call through: once allow has answered yes, it
-- answers no, at any times, until an outcome is recorded.
pub allow-single_trial :
    (now : ℕ) (b : CircuitBreaker) (times : List ℕ)
    → b.state ≢ closed
    → (allow now b).0 ≡ true
    → All (λ a. a ≡ false) (answers times (allow now b).1)
allow-single_trial now b times c h =
    answers-half_open times (allow now b).1 (trial-half_open now b c h)
