-- ===== src/Kafka.antt =====
-- `produce_and_wait` of the services' Kafka modules, over a broker whose answers are given: what
-- the client library reports for each message, in order. A message that timed out may be on its
-- topic all the same.
pub mod Consumer
use indu_sense.Base.{
  ℕ, suc, Bool, true, false, ◌≡◌, refl, List, [], ◌∷◌, ◌++◌, In, here, there, arith,
}
use indu_sense.Reliability.{
  Attempt, done, permanent, transient, CircuitBreaker, Written, written, protected_write,
}
use indu_sense.Reliability.Outage.{protected_write-written}

pub data Answer : Type 0 where
  acknowledged timed_out_recorded lost : Answer

pub record Broker (M : Type 0) : Type 0 where
  pub answers : ℕ → Answer
  -- how many messages have been handed over
  pub asked : ℕ
  -- what stands on the topics, in order
  pub log : List M

-- whether a call returned, rather than raised
abbrev pub is_done : Attempt → Bool
is_done done = true
is_done permanent = false
is_done transient = false

pub done_of : (a : Attempt) → is_done a ≡ true → a ≡ done
done_of a h = ground arith

-- A client with its breaker: `KafkaIO` of a consuming service, or `InfluxSink`.
pub record Client (M : Type 0) : Type 0 where
  pub broker : Broker M
  pub breaker : CircuitBreaker
  pub max_retries : ℕ
  pub retry_delay : ℕ

module _ {M : Type 0} where
  answered : M → Answer → Broker M → Attempt × Broker M
  answered m acknowledged b = (done, record b { asked = suc b.asked; log = b.log ++ m ∷ [] })
  answered m timed_out_recorded b =
      (transient, record b { asked = suc b.asked; log = b.log ++ m ∷ [] })
  answered m lost b = (transient, record b { asked = suc b.asked })

  unfoldable pub produce_and_wait : M → Broker M → Attempt × Broker M
  unfolding answered
  produce_and_wait m b = answered m (b.answers b.asked) b

  In-append_last : (m : M) (xs : List M) → In m (xs ++ m ∷ [])
  In-append_last m [] = here refl
  In-append_last m (x ∷ xs) = there (In-append_last m xs)

  -- An acknowledged message is on its topic.
  pub produce_and_wait-done :
      (m : M) (b : Broker M) → (produce_and_wait m b).0 ≡ done → In m (produce_and_wait m b).1.log
  unfolding produce_and_wait
  produce_and_wait-done m b h = by_answer (b.answers b.asked) h
    where
      by_answer : (a : Answer) → (answered m a b).0 ≡ done → In m (answered m a b).1.log
      by_answer acknowledged h' = In-append_last m b.log
      by_answer timed_out_recorded h' = cc
      by_answer lost h' = cc

  -- `protected_write` of one message; the two clock readings are those of the breaker
  unfoldable pub write : ℕ × ℕ → M → Client M → Written × Client M
  unfolding produce_and_wait
  write clock m c =
      let r =
        protected_write c.max_retries c.retry_delay clock (produce_and_wait m) c.broker c.breaker in
      (r.result, record c { broker = r.world; breaker = r.breaker })

  pub write-written :
      (clock : ℕ × ℕ) (m : M) (c : Client M)
      → (write clock m c).0 ≡ written
      → In m (write clock m c).1.broker.log
  unfolding write
  write-written clock m c =
      protected_write-written (λ b. In m b.log) (produce_and_wait m) (produce_and_wait-done m)
        c.max_retries c.retry_delay clock c.broker c.breaker

  -- a message sent without the breaker and without retries, as `dead_letter` does: whether it returned
  unfoldable pub send : M → Client M → Bool × Client M
  send m c = let r = produce_and_wait m c.broker in (is_done r.0, record c { broker = r.1 })

  pub send-returned : (m : M) (c : Client M) → (send m c).0 ≡ true → In m (send m c).1.broker.log
  unfolding send
  send-returned m c h = produce_and_wait-done m c.broker (done_of _ h)
