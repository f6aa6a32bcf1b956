-- ===== src/Reliability/Outage.antt =====
-- `protected_write` of the Kafka clients, during an outage of the broker and after it.
use Prim.Native.Nat.{min}
use indu_sense.Base.{
  Bool, true, false, ℕ, zero, suc, ◌+◌, ◌*◌, ◌≤◌, ◌<◌, ◌≡◌, refl, true, false, List, [], ◌∷◌,
  length, All, arith, leb, le→leb, lt→leb,
}
use indu_sense.Reliability.{
  Outcome, returned, done, retry_with_backoff, attempt_write, recorded, Attempt, transient,
  CircuitBreaker, closed, open_, allow, record_success, record_failure, written, breaker_open,
  protected_write,
}
use indu_sense.Reliability.Retry.{
  AllTransient, retry_with_backoff_exhausted, retry_with_backoff-returned,
  calls-retry_with_backoff-le,
}
use indu_sense.Reliability.Breaker.{IsValid}

module _ {ℓ} {W : Type ℓ} (max_retries delay : ℕ) (fn : W → Attempt × W) where
  -- While a breaker is open and its cooldown has not passed, a protected write is refused: nothing
  -- is called, and neither the world nor the breaker changes.
  pub protected_write_fails_fast :
      (asked at : ℕ) (w : W) (b : CircuitBreaker)
      → b.state ≡ open_
      → asked < b.opened_at + b.cooldown
      → protected_write max_retries delay (asked, at) fn w b
        ≡ record { result = breaker_open; world = w; breaker = b; slept = []; calls = 0 }
  unfolding protected_write allow
  protected_write_fails_fast asked at w b o h = ground arith

  -- A protected write keeps the breaker's invariant, makes at most max_retries calls, and leaves
  -- the breaker closed with no failure counted if it succeeds.
  pub protected_write-IsValid :
      (asked at : ℕ) (w : W) (b : CircuitBreaker)
      → IsValid b
      → let r = protected_write max_retries delay (asked, at) fn w b in
        IsValid r.breaker
        × (r.calls ≤ max_retries)
        × (r.result ≡ written → (r.breaker.state ≡ closed) × (r.breaker.consecutive_fails ≡ 0))
  unfolding protected_write allow record_failure record_success
  protected_write-IsValid asked at w b v =
      ground (arith, calls-retry_with_backoff-le max_retries delay fn w)

  -- The calls that writes at the given pairs of clock readings make, one write after the other.
  abbrev pub calls_all : List (ℕ × ℕ) → W → CircuitBreaker → ℕ
  calls_all [] w b = 0
  calls_all (t ∷ ts) w b =
      let r = protected_write max_retries delay t fn w b in r.calls + calls_all ts r.world r.breaker

  calls_all_open :
      (start : ℕ) (ts : List (ℕ × ℕ)) (w : W) (b : CircuitBreaker)
      → b.state ≡ open_
      → start ≤ b.opened_at
      → All (λ t. (t.0 < start + b.cooldown) × (start ≤ t.1)) ts
      → calls_all ts w b ≡ 0
  calls_all_open start [] w b o s h = refl
  calls_all_open start (t ∷ ts) w b o s h =
      rw (protected_write_fails_fast t.0 t.1 w b o (omega arith))
        (omega (arith, calls_all_open start ts w b o s h.1))

AllTransient-down {ℓ} :
    {W : Type ℓ} (fn : W → Attempt × W) (n : ℕ) (w : W)
    → ((v : W) → (fn v).0 ≡ transient)
    → AllTransient fn n w
AllTransient-down fn zero w down = tt
AllTransient-down fn (suc n) w down = (down w, AllTransient-down fn n (fn w).1 down)

min_one : (m x : ℕ) → min (suc m) 1 * x ≡ x
min_one m x = let e : min (suc m) 1 ≡ 1 = omega arith in rw e (omega arith)

min_next : (m k x : ℕ) → min (suc m) (suc k) * x ≡ x + min m k * x
min_next m k x = let e : min (suc m) (suc k) ≡ 1 + min m k = omega arith in rw e (omega arith)

module _ {ℓ} {W : Type ℓ} (n delay : ℕ) (fn : W → Attempt × W)
    (down : (w : W) → (fn w).0 ≡ transient) where
  -- a write that a closed breaker lets through, while every call fails
  failed_write :
      (t : ℕ × ℕ) (w : W) (b : CircuitBreaker)
      → b.state ≡ closed
      → let r = protected_write (suc n) delay t fn w b in
        (r.calls ≡ suc n) × (r.breaker ≡ record_failure t.1 b)
  unfolding protected_write allow
  failed_write t w b c =
      ground
        (arith, retry_with_backoff_exhausted n delay fn w (AllTransient-down fn (suc n) w down))

  failure_step :
      (now : ℕ) (b : CircuitBreaker)
      → b.state ≡ closed
      → let b' = record_failure now b in
        (b'.threshold ≡ b.threshold)
        × (b'.cooldown ≡ b.cooldown)
        × (b'.consecutive_fails ≡ suc b.consecutive_fails)
        × (leb b.threshold (suc b.consecutive_fails) ≡ true
            → (b'.state ≡ open_) × (b'.opened_at ≡ now))
        × (leb b.threshold (suc b.consecutive_fails) ≡ false → b'.state ≡ closed)
  unfolding record_failure
  failure_step now b c = ground arith

  -- If every call fails and every clock reading lies before the end of the first cooldown, then
  -- writes through a closed breaker that lets k + 1 more writes fail make exactly min(number of
  -- writes, k + 1) * max_retries calls.
  pub calls_all-down :
      (start k : ℕ) (ts : List (ℕ × ℕ)) (w : W) (b : CircuitBreaker)
      → b.state ≡ closed
      → b.threshold ≡ b.consecutive_fails + suc k
      → All (λ t. (t.0 < start + b.cooldown) × (start ≤ t.1)) ts
      → calls_all (suc n) delay fn ts w b ≡ min (length ts) (suc k) * suc n
  calls_all-down start k [] w b c e h = grind arith
  calls_all-down start zero (t ∷ ts) w b c e h =
      let r = protected_write (suc n) delay t fn w b in
      let p = failed_write t w b c in
      let q = failure_step t.1 b c in
      let o = q.3 (le→leb _ _ (omega arith)) in
      let z =
        calls_all_open (suc n) delay fn start ts r.world r.breaker (rw p.1 o.0)
          (rw p.1 (rw o.1 h.0.1)) (rw p.1 (rw q.1 h.1)) in
      omega (arith, z, p.0, min_one (length ts) (suc n))
  calls_all-down start (suc k) (t ∷ ts) w b c e h =
      let r = protected_write (suc n) delay t fn w b in
      let p = failed_write t w b c in
      let q = failure_step t.1 b c in
      let o = q.4 (lt→leb _ _ (omega arith)) in
      let z =
        calls_all-down start k ts r.world r.breaker (rw p.1 o) (rw p.1 (omega arith))
          (rw p.1 (rw q.1 h.1)) in
      omega (arith, z, p.0, min_next (length ts) (suc k) (suc n))

recorded-written :
    (o : Outcome) (now : ℕ) (b : CircuitBreaker) → (recorded o now b).0 ≡ written → o ≡ returned
unfolding protected_write
recorded-written returned now b h = refl
recorded-written _ now b h = cc

module _ {ℓ κ} {W : Type ℓ} (P : W → Type κ) (fn : W → Attempt × W) where
  -- What holds whenever a call returns holds of the world after a write that succeeds.
  pub protected_write-written :
      ((v : W) → (fn v).0 ≡ done → P (fn v).1)
      → (max_retries delay : ℕ) (t : ℕ × ℕ) (w : W) (b : CircuitBreaker)
      → (protected_write max_retries delay t fn w b).result ≡ written
      → P (protected_write max_retries delay t fn w b).world
  unfolding protected_write
  protected_write-written good max_retries delay t w b h = through (allow t.0 b) h
    where
      through :
          (a : Bool × CircuitBreaker)
          → (attempt_write a max_retries delay t.1 fn w).result ≡ written
          → P (attempt_write a max_retries delay t.1 fn w).world
      through (false, b') h' = cc
      through (true, b') h' =
          retry_with_backoff-returned P fn good max_retries delay w
            (recorded-written (retry_with_backoff max_retries delay fn w).outcome t.1 b' h')
