-- ===== src/Examples/Reliability.antt =====
-- Runs of shared/reliability.py on small inputs.
use indu_sense.Base.{ℕ, suc, ◌≤◌, ◌≡◌, refl, false, List, [], ◌∷◌, arith, ltb, if◌then◌else◌, All}
use indu_sense.Reliability.{
  Attempt, done, transient, returned, CircuitBreaker, closed, open_, new, allow, retry_with_backoff,
  protected_write, written,
}
use indu_sense.Reliability.Retry.{Ends, retry_with_backoff-stops}
use indu_sense.Reliability.Breaker.{
  IsValid, Call, asks, succeeds, fails, answers, allow-single_trial, new-IsValid,
}
use indu_sense.Reliability.Outage.{protected_write-IsValid, calls_all, calls_all-down}

-- a broker that answers from its third call on; the world counts the calls
abbrev third_time : ℕ → Attempt × ℕ
third_time n = (if ltb n 2 then transient else done, suc n)

abbrev down : ℕ → Attempt × ℕ
down n = (transient, suc n)

retry_twice : (retry_with_backoff 5 100 third_time 0).slept ≡ 100 ∷ 200 ∷ []
unfolding retry_with_backoff
retry_twice = refl

retry_with_backoff-stops_example :
    Ends (retry_with_backoff 5 100 third_time 0) returned 3 (100 ∷ 200 ∷ []) 3
retry_with_backoff-stops_example =
    retry_with_backoff-stops 2 5 100 third_time 0 (omega arith) (refl, (refl, tt)) (λ e. cc)

abbrev history : List Call
history = fails 1 ∷ fails 2 ∷ asks 3 ∷ asks 40 ∷ fails 41 ∷ asks 90 ∷ succeeds ∷ []

abbrev tripped : CircuitBreaker
tripped = record {
  state = open_;
  consecutive_fails = 2;
  threshold = 2;
  cooldown = 30;
  opened_at = 5;
}

allow-single_trial_example :
    All (λ a. a ≡ false) (answers (36 ∷ 37 ∷ 900 ∷ []) (allow 35 tripped).1)
unfolding allow
allow-single_trial_example = allow-single_trial 35 tripped (36 ∷ 37 ∷ 900 ∷ []) (λ e. cc) refl

protected_write-IsValid_example :
    let r = protected_write 5 100 (1, 2) third_time 0 (new 2 30) in
    IsValid r.breaker
    × (r.calls ≤ 5)
    × (r.result ≡ written → (r.breaker.state ≡ closed) × (r.breaker.consecutive_fails ≡ 0))
protected_write-IsValid_example =
    protected_write-IsValid 5 100 third_time 1 2 0 (new 2 30) (new-IsValid 2 30 (omega arith))

abbrev outage : List (ℕ × ℕ)
outage = (10, 11) ∷ (12, 13) ∷ (14, 15) ∷ (16, 17) ∷ []

calls_all-down_example : calls_all 3 100 down outage 0 (new 2 30) ≡ 6
unfolding new
calls_all-down_example =
    calls_all-down 2 100 down (λ w. refl) 10 1 outage 0 (new 2 30) refl refl (omega arith)
