-- ===== src/Reliability/Retry.antt =====
-- `retry_with_backoff` of shared/reliability.py against a description of its calls one by one.
use indu_sense.Base.{ℕ, zero, suc, ◌*◌, ◌≤◌, ◌<◌, ◌≡◌, refl, ◌≢◌, List, [], ◌∷◌, arith}
use indu_sense.Reliability.{
  Attempt, done, permanent, transient, Outcome, returned, raised_permanent, raised_last, Retried,
  after_call, retry_with_backoff,
}

-- `n` delays, each twice the one before it
abbrev pub doublings : ℕ → ℕ → List ℕ
doublings zero delay = []
doublings (suc n) delay = delay ∷ doublings n (delay * 2)

module _ {ℓ} {W : Type ℓ} where
  -- the world when the function has been called so often
  abbrev pub world_after : (W → Attempt × W) → ℕ → W → W
  world_after fn zero w = w
  world_after fn (suc n) w = world_after fn n (fn w).1

  -- what call number `k`, from 0, does
  abbrev pub attempt_at : (W → Attempt × W) → ℕ → W → Attempt
  attempt_at fn zero w = (fn w).0
  attempt_at fn (suc k) w = attempt_at fn k (fn w).1

  -- the first `n` calls raise exceptions that are worth another attempt
  abbrev pub AllTransient : (W → Attempt × W) → ℕ → W → Type 0
  AllTransient fn zero w = Unit
  AllTransient fn (suc n) w = ((fn w).0 ≡ transient) × AllTransient fn n (fn w).1

-- how the function ends after an attempt that stops it
abbrev pub outcome_of : Attempt → Outcome
outcome_of done = returned
outcome_of permanent = raised_permanent
outcome_of transient = raised_last

-- outcome, world, delays and number of calls
abbrev pub Ends {ℓ} : {W : Type ℓ} → Retried W → Outcome → W → List ℕ → ℕ → Type ℓ
Ends r o w slept calls = (r.outcome ≡ o) × (r.world ≡ w) × (r.slept ≡ slept) × (r.calls ≡ calls)

module _ {ℓ} {W : Type ℓ} where
  -- If call number k is the first that returns or raises ErrPermanent, and the attempts reach it,
  -- then retry_with_backoff ends as that call does, after k + 1 calls and k doubling delays.
  pub retry_with_backoff-stops :
      (k left delay : ℕ) (fn : W → Attempt × W) (w : W)
      → k < left
      → AllTransient fn k w
      → attempt_at fn k w ≢ transient
      → Ends
          (retry_with_backoff left delay fn w)
          (outcome_of (attempt_at fn k w))
          (world_after fn (suc k) w)
          (doublings k delay)
          (suc k)
  unfolding retry_with_backoff
  retry_with_backoff-stops k zero delay fn w lt t s = absurd (omega arith)
  retry_with_backoff-stops zero (suc left) delay fn w lt t s = ground arith
  retry_with_backoff-stops (suc k) (suc (suc left)) delay fn w lt t s =
      ground
        (arith, retry_with_backoff-stops k (suc left) (delay * 2) fn (fn w).1 (omega arith) t.1 s)
  retry_with_backoff-stops (suc k) (suc zero) delay fn w lt t s = absurd (omega arith)

  -- If all attempts, at least one, raise exceptions that are worth another, then the last is
  -- raised, after every attempt and a doubling delay between each two.
  pub retry_with_backoff_exhausted :
      (n delay : ℕ) (fn : W → Attempt × W) (w : W)
      → AllTransient fn (suc n) w
      → Ends
          (retry_with_backoff (suc n) delay fn w)
          raised_last
          (world_after fn (suc n) w)
          (doublings n delay)
          (suc n)
  unfolding retry_with_backoff
  retry_with_backoff_exhausted zero delay fn w t = ground arith
  retry_with_backoff_exhausted (suc n) delay fn w t =
      ground (arith, retry_with_backoff_exhausted n (delay * 2) fn (fn w).1 t.1)

  pub calls-retry_with_backoff-le :
      (left delay : ℕ) (fn : W → Attempt × W) (w : W)
      → (retry_with_backoff left delay fn w).calls ≤ left
  unfolding retry_with_backoff
  calls-retry_with_backoff-le zero delay fn w = omega arith
  calls-retry_with_backoff-le (suc zero) delay fn w = ground arith
  calls-retry_with_backoff-le (suc (suc left)) delay fn w =
      ground (arith, calls-retry_with_backoff-le (suc left) (delay * 2) fn (fn w).1)

  after_call-returned {κ} :
      (P : W → Type κ) (left delay : ℕ) (r : Attempt × W) (rest : Retried W)
      → (r.0 ≡ done → P r.1)
      → (rest.outcome ≡ returned → P rest.world)
      → (after_call left delay r rest).outcome ≡ returned
      → P (after_call left delay r rest).world
  unfolding retry_with_backoff
  after_call-returned P left delay (done, w) rest good next h = good refl
  after_call-returned P left delay (permanent, w) rest good next h = cc
  after_call-returned P zero delay (transient, w) rest good next h = cc
  after_call-returned P (suc left) delay (transient, w) rest good next h = next h

  -- What holds whenever a call returns holds of the world when the function returns.
  pub retry_with_backoff-returned {κ} :
      (P : W → Type κ) (fn : W → Attempt × W)
      → ((v : W) → (fn v).0 ≡ done → P (fn v).1)
      → (left delay : ℕ) (w : W) → (retry_with_backoff left delay fn w).outcome ≡ returned
      → P (retry_with_backoff left delay fn w).world
  unfolding retry_with_backoff
  retry_with_backoff-returned P fn good zero delay w h = cc
  retry_with_backoff-returned P fn good (suc left) delay w h =
      after_call-returned P left delay (fn w) (retry_with_backoff left (delay * 2) fn (fn w).1)
        (good w) (retry_with_backoff-returned P fn good left (delay * 2) (fn w).1) h
