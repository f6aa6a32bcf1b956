-- ===== src/Kafka/Consumer/Skipped.antt =====
-- Which messages the loop handles, and which it never comes back to.
use mathlib.Core.List.{append_assoc, append-nil}
use indu_sense.Base.{
  ℕ, ◌+◌, ◌<◌, ◌≤◌, String, Bool, true, false, ◌≡◌, refl, Option, none, some, List, [], ◌∷◌, ◌++◌,
  In, arith, get_elem?, ltb, if◌then◌else◌, Bool-cases, inl, inr, ◌⊎◌, In-append_left,
  In-append_last, All, All-append, ap, sym, ◌∙◌, subst,
}
use indu_sense.Kafka.Consumer.{
  Verdict, commits, holds, crashes, Fetch, fetch_error, no_message, next_message, Turn, Consumer,
  Step, arrives, turns, restarts, settle, taken, handle, on_fetch, consume_turn, step, run,
}

-- The committed offset is not ahead of the position, each message before the position has been
-- handled, and the committed offset is that of the start, or the one after a message whose handling
-- ended with True.
pub record HandlesAll {S : Type 0} (c : Consumer S) : Type 0 where
  pub behind : c.committed ≤ c.position
  pub seen : (i : ℕ) → i < c.position → (v : Verdict) × In (i, v) c.handled
  pub granted : (c.committed ≡ 0) ⊎ ((n : ℕ) × (c.committed ≡ n + 1) × In (n, commits) c.handled)

-- From the list `before` on, only messages from the offset `from` on have been handled.
pub record IsPast {S : Type 0} (before : List (ℕ × Verdict)) (from : ℕ) (c : Consumer S)
    : Type 0 where
  pub later : List (ℕ × Verdict)
  pub grown : c.handled ≡ before ++ later
  pub past : All (λ h. from ≤ h.0) later
  pub kept : from ≤ c.committed
  pub behind : c.committed ≤ c.position

module _ {G S : Type 0} (process : G → String → S → Verdict × S) where
  settle-HandlesAll :
      (recorded : Bool) (offset : ℕ) (r : Verdict × S) (c : Consumer S)
      → offset + 1 ≡ c.position
      → In (offset, r.0) c.handled
      → HandlesAll c
      → HandlesAll (settle process recorded offset r c)
  unfolding settle
  settle-HandlesAll true offset (commits, s) c e i v = record {
    behind = omega arith;
    seen = v.seen;
    granted = inr (offset, refl, i);
  }
  settle-HandlesAll false offset (commits, s) c e i v = record {
    behind = v.behind;
    seen = v.seen;
    granted = v.granted;
  }
  settle-HandlesAll recorded offset (holds, s) c e i v = record {
    behind = v.behind;
    seen = v.seen;
    granted = v.granted;
  }
  settle-HandlesAll recorded offset (crashes, s) c e i v = record {
    behind = v.behind;
    seen = v.seen;
    granted = v.granted;
  }

  -- the message at the position is handled now
  handled_upto :
      (w : Verdict) (c : Consumer S)
      → HandlesAll c
      → (i : ℕ) → i < c.position + 1
      → (v : Verdict) × In (i, v) (c.handled ++ (c.position, w) ∷ [])
  handled_upto w c v i h = elim (Bool-cases (ltb i c.position)) [
    | inl e ↦
        let (u, known) = v.seen i (ground arith) in (u, In-append_left (i, u) c.handled _ known)
    | inr e ↦
        let same : c.position ≡ i = ground arith in
        (
          w,
          subst (λ k. In (i, w) (c.handled ++ (k, w) ∷ [])) (sym same)
              (In-append_last (i, w) c.handled),
        )
  ]

  -- what was granted stays so when more is handled
  still_granted :
      (h : ℕ × Verdict) (c : Consumer S)
      → (c.committed ≡ 0) ⊎ ((n : ℕ) × (c.committed ≡ n + 1) × In (n, commits) c.handled)
      → (c.committed ≡ 0)
        ⊎ ((n : ℕ) × (c.committed ≡ n + 1) × In (n, commits) (c.handled ++ h ∷ []))
  still_granted h c (inl z) = inl z
  still_granted h c (inr (n, e, i)) = inr (n, e, In-append_left (n, commits) c.handled _ i)

  handle-HandlesAll :
      (t : Turn G) (o : Option String) (c : Consumer S)
      → HandlesAll c
      → HandlesAll (handle process t o c)
  unfolding handle
  handle-HandlesAll t none c v = v
  handle-HandlesAll t (some payload) c v =
      settle-HandlesAll t.recorded c.position (process t.given payload c.state) _ refl
        (In-append_last _ c.handled)
        (record {
          behind = omega (arith, v.behind);
          seen = handled_upto (process t.given payload c.state).0 c v;
          granted = still_granted _ c v.granted;
        })

  -- A turn keeps what the handling of a message keeps.
  turn_keeps :
      (P : Consumer S → Type 0) (t : Turn G) (running : Bool) (f : Fetch) (done c : Consumer S)
      → P done
      → P c
      → P (if running then on_fetch process f done c else c)
  turn_keeps P t false f done c d v = v
  turn_keeps P t true fetch_error done c d v = v
  turn_keeps P t true no_message done c d v = v
  turn_keeps P t true next_message done c d v = d

  step-HandlesAll : (t : Step G S) (c : Consumer S) → HandlesAll c → HandlesAll (step process t c)
  unfolding step consume_turn
  step-HandlesAll (arrives payload) c v = record {
    behind = v.behind;
    seen = v.seen;
    granted = v.granted;
  }
  step-HandlesAll (turns t) c v =
      turn_keeps HandlesAll t c.running t.fetch _ c
        (handle-HandlesAll t (get_elem? c.messages c.position) c v) v
  step-HandlesAll (restarts left) c v = record {
    behind = omega arith;
    seen = λ i h. v.seen i (omega (arith, v.behind));
    granted = v.granted;
  }

  -- Three facts hold after any arrivals, turns and restarts, however the handlings end, if they
  -- held before: the committed offset is not ahead of the position; each message before the
  -- position has been handled, with some verdict; and the committed offset is 0 or the one after a
  -- message whose handling asked for the commit.
  pub run-HandlesAll :
      (steps : List (Step G S)) (c : Consumer S) → HandlesAll c → HandlesAll (run process steps c)
  unfolding run
  run-HandlesAll [] c v = v
  run-HandlesAll (t ∷ steps) c v = run-HandlesAll steps _ (step-HandlesAll t c v)

  module _ (before : List (ℕ × Verdict)) (from : ℕ) where
    settle-IsPast :
        (recorded : Bool) (offset : ℕ) (r : Verdict × S) (c : Consumer S)
        → offset + 1 ≡ c.position
        → IsPast before from c
        → IsPast before from (settle process recorded offset r c)
    unfolding settle
    settle-IsPast true offset (commits, s) c e v = record {
      later = v.later;
      grown = v.grown;
      past = v.past;
      kept = omega (arith, v.kept, v.behind);
      behind = omega arith;
    }
    settle-IsPast false offset (commits, s) c e v = record {
      later = v.later;
      grown = v.grown;
      past = v.past;
      kept = v.kept;
      behind = v.behind;
    }
    settle-IsPast recorded offset (holds, s) c e v = record {
      later = v.later;
      grown = v.grown;
      past = v.past;
      kept = v.kept;
      behind = v.behind;
    }
    settle-IsPast recorded offset (crashes, s) c e v = record {
      later = v.later;
      grown = v.grown;
      past = v.past;
      kept = v.kept;
      behind = v.behind;
    }

    handle-IsPast :
        (t : Turn G) (o : Option String) (c : Consumer S)
        → IsPast before from c
        → IsPast before from (handle process t o c)
    unfolding handle
    handle-IsPast t none c v = v
    handle-IsPast t (some payload) c v =
        settle-IsPast t.recorded c.position (process t.given payload c.state) _ refl (record {
          later = v.later ++ (c.position, (process t.given payload c.state).0) ∷ [];
          grown =
              ap (λ h. h ++ (c.position, (process t.given payload c.state).0) ∷ []) v.grown
              ∙ append_assoc before v.later _;
          past =
              All-append (λ h. from ≤ h.0) v.later _ v.past (omega (arith, v.kept, v.behind), tt);
          kept = v.kept;
          behind = omega (arith, v.behind);
        })

    step-IsPast :
        (t : Step G S) (c : Consumer S)
        → IsPast before from c
        → IsPast before from (step process t c)
    unfolding step consume_turn
    step-IsPast (arrives payload) c v = record {
      later = v.later;
      grown = v.grown;
      past = v.past;
      kept = v.kept;
      behind = v.behind;
    }
    step-IsPast (turns t) c v =
        turn_keeps (IsPast before from) t c.running t.fetch _ c
          (handle-IsPast t (get_elem? c.messages c.position) c v) v
    step-IsPast (restarts left) c v = record {
      later = v.later;
      grown = v.grown;
      past = v.past;
      kept = v.kept;
      behind = omega arith;
    }

    run-IsPast :
        (steps : List (Step G S)) (c : Consumer S)
        → IsPast before from c
        → IsPast before from (run process steps c)
    unfolding run
    run-IsPast [] c v = v
    run-IsPast (t ∷ steps) c v = run-IsPast steps _ (step-IsPast t c v)

  polled :
      (t : Turn G) (payload : String) (c : Consumer S)
      → c.running ≡ true
      → t.fetch ≡ next_message
      → get_elem? c.messages c.position ≡ some payload
      → consume_turn process t c ≡ handle process t (some payload) c
  unfolding consume_turn
  polled t payload c r f e =
      let done = handle process t (get_elem? c.messages c.position) c in
      ap (λ b. if b then on_fetch process t.fetch done c else c) r
      ∙ ap (λ k. on_fetch process k done c) f
      ∙ ap (λ o. handle process t o c) e

  -- a message that is held
  held_turn :
      (t : Turn G) (payload : String) (c : Consumer S) (r : Verdict × S)
      → process t.given payload c.state ≡ r
      → r.0 ≡ holds
      → handle process t (some payload) c ≡ (record (taken process holds c) { state = r.1 })
  unfolding handle settle
  held_turn t payload c (commits, s) e h = ground arith
  held_turn t payload c (holds, s) e h =
      ap (λ q. settle process t.recorded c.position q (taken process q.0 c)) e
  held_turn t payload c (crashes, s) e h = ground arith

  -- a message that is committed
  committed_turn :
      (t : Turn G) (payload : String) (c : Consumer S) (r : Verdict × S)
      → process t.given payload c.state ≡ r
      → r.0 ≡ commits
      → t.recorded ≡ true
      → handle process t (some payload) c
        ≡ (record (taken process commits c) { state = r.1; committed = c.position + 1 })
  unfolding handle settle
  committed_turn t payload c (commits, s) e h k =
      ap (λ q. settle process t.recorded c.position q (taken process q.0 c)) e
      ∙ ap (λ b. settle process b c.position (commits, s) (taken process commits c)) k
  committed_turn t payload c (holds, s) e h k = ground arith
  committed_turn t payload c (crashes, s) e h k = ground arith

  -- If the service, at work, polls a message and holds it, and then polls the next and commits it,
  -- then whatever follows, restarts included, it handles neither of the two again: of what is
  -- handled later, each offset lies past both.
  pub run-skips_held :
      (held next : Turn G) (first second : String) (steps : List (Step G S)) (c : Consumer S)
      → c.running ≡ true
      → get_elem? c.messages c.position ≡ some first
      → get_elem? c.messages (c.position + 1) ≡ some second
      → held.fetch ≡ next_message
      → next.fetch ≡ next_message
      → next.recorded ≡ true
      → (process held.given first c.state).0 ≡ holds
      → (process next.given second (process held.given first c.state).1).0 ≡ commits
      → let after = run process steps (consume_turn process next (consume_turn process held c)) in
        (later : List (ℕ × Verdict)) × (after.handled
          ≡ c.handled ++ ((c.position, holds) ∷ ((c.position + 1, commits) ∷ later)))
        × All (λ h. c.position + 2 ≤ h.0) later
  run-skips_held held next first second steps c r f s hf nf rec h k =
      let c1 : Consumer S = record (taken process holds c) {
        state = (process held.given first c.state).1;
      } in
      let twice =
        ap (consume_turn process next)
          (polled held first c r hf f ∙ held_turn held first c _ refl h)
        ∙ polled next second c1 r nf s
        ∙ committed_turn next second c1 _ refl k rec in
      let before = (c.handled ++ (c.position, holds) ∷ []) ++ (c.position + 1, commits) ∷ [] in
      let after = run-IsPast before (c.position + 2) steps _ (
        subst (IsPast before (c.position + 2)) (sym twice) (record {
          later = [];
          grown = sym (append-nil before);
          past = tt;
          kept = omega arith;
          behind = omega arith;
        })) in
      (
        after.later,
        after.grown
            ∙ append_assoc (c.handled ++ (c.position, holds) ∷ []) ((c.position + 1, commits) ∷ [])
                after.later
            ∙ append_assoc c.handled ((c.position, holds) ∷ [])
                ((c.position + 1, commits) ∷ after.later),
        after.past,
      )
