-- ===== src/Simulator/Run/Drain.antt =====
-- `_publisher_worker` of simulator/main.py after the shutdown, with no other worker: it empties the
-- queue and returns.
use indu_sense.Base.{
  ℕ, zero, suc, ◌+◌, ◌<◌, ◌≡◌, refl, Bool, true, Option, none, some, List, [], ◌∷◌, arith, length,
  if◌then◌else◌,
}
use indu_sense.Simulator.Run.{PublishJob, Simulation, counted}

module _ {F : Type 0} where
  -- one turn of the only worker
  unfoldable pub work : Bool → List (PublishJob F) → Simulation F → Simulation F
  work publishes [] s = s
  work publishes (job ∷ jobs) s = record s { jobs = jobs; stats = counted publishes s.stats }

  -- The loop, for a number of turns; `answers n` tells how the n-th publish from here on ends, and
  -- `none` that the turns ran out.
  unfoldable pub publisher_worker :
      ℕ → (ℕ → Bool) → Bool → List (PublishJob F) → Simulation F → Option (Simulation F)
  unfolding work
  publisher_worker zero answers shutdown jobs s = none
  publisher_worker (suc turns) answers shutdown [] s =
      let again = publisher_worker turns answers shutdown [] s in if shutdown then some s else again
  publisher_worker (suc turns) answers shutdown (job ∷ jobs) s =
      publisher_worker turns (λ n. answers (suc n)) shutdown jobs (work (answers 0) (job ∷ jobs) s)

  drained :
      (turns : ℕ) (answers : ℕ → Bool) (jobs : List (PublishJob F)) (s : Simulation F)
      → s.jobs ≡ jobs
      → length jobs < turns
      → (after : Simulation F) × (publisher_worker turns answers true jobs s ≡ some after)
        × (after.jobs ≡ [])
        × (after.stats.published + after.stats.publish_errs
            ≡ s.stats.published + s.stats.publish_errs + length jobs)
  unfolding publisher_worker
  drained zero answers jobs s e h = absurd (omega arith)
  drained (suc turns) answers [] s e h = (s, refl, e, omega arith)
  drained (suc turns) answers (job ∷ jobs) s e h =
      let s' = work (answers 0) (job ∷ jobs) s in
      let (after, returns, empty, counted) =
        drained turns (λ n. answers (suc n)) jobs s' refl (omega arith) in
      (after, returns, empty, ground arith)

  -- After the shutdown has been signalled, and with no other task or worker left, a publisher
  -- worker with more turns than there are jobs returns with the queue empty, and each job has been
  -- counted as published or as an error, whatever the broker answers.
  pub publisher_worker-drained :
      (turns : ℕ) (answers : ℕ → Bool) (s : Simulation F)
      → length s.jobs < turns
      → (after : Simulation F) × (publisher_worker turns answers true s.jobs s ≡ some after)
        × (after.jobs ≡ [])
        × (after.stats.published + after.stats.publish_errs
            ≡ s.stats.published + s.stats.publish_errs + length s.jobs)
  publisher_worker-drained turns answers s h = drained turns answers s.jobs s refl h
