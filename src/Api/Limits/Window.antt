-- ===== src/Api/Limits/Window.antt =====
-- The limit of services/api/middleware.py over one window, against a client that forges its headers.
use indu_sense.Base.{
  ℕ, ◌+◌, ◌-◌, ◌/◌, ◌≤◌, String, concat, Bool, true, false, not, none, some, List, [], ◌∷◌, ◌++◌,
  ◌≡◌, refl, ap, sym, ◌∙◌, subst, ◌⊎◌, inl, inr, arith, ◌==◌, eq_iff, any, find, filter, All,
  Bool-cases, Option, if◌then◌else◌, find-some, find-append_new,
}
use indu_sense.Api.{Response, success, failure}
use indu_sense.Api.Limits.{
  Addresses, Request, ClientIpResolver, is_trusted_proxy, resolve, Counter, is_current,
  next_counter, rate_limit_script, window_key, judged, check_rate,
}

-- a request, when it comes, and whether Redis fails on it
pub record Hit : Type 0 where
  pub now : ℕ
  pub request : Request
  pub redis_fails : Bool

abbrev pub passes : {A : Type 0} → Response A → ℕ
passes (success x) = 1
passes (failure e) = 0

-- how many requests find Redis failing
abbrev pub outages : List Hit → ℕ
outages [] = 0
outages (h ∷ hits) = if h.redis_fails then outages hits + 1 else outages hits

-- how many requests pass, one after the other
unfoldable pub admitted :
    {a : Addresses} → ClientIpResolver a → (ℕ → String) → String → ℕ → List Hit → List Counter → ℕ
unfolding check_rate
admitted r str bucket limit [] counters = 0
admitted r str bucket limit (h ∷ hits) counters =
    let checked = check_rate r str bucket limit h.redis_fails h.now h.request counters in
    passes checked.0 + admitted r str bucket limit hits checked.1

abbrev pub minute_of : ℕ → ℕ
minute_of now = now / 1000000 / 60

abbrev pub has_key : String → Counter → Bool
has_key key c = c.key == key

-- `n` requests of the window have been counted under the key.
abbrev Used : ℕ → String → List Counter → ℕ → Type 0
Used minute key counters n =
    ((any (has_key key) counters ≡ false) × (n ≡ 0))
    ⊎ ((c : Counter) × ((now : ℕ)
          → minute_of now ≡ minute
          → find (is_current now key) counters ≡ some c)
        × (c.count ≡ n))

none_kept :
    (t : Counter → Bool) (key : String) (counters : List Counter)
    → ((c : Counter) → t c ≡ true → has_key key c ≡ true)
    → any t (filter (λ d. not (d.key == key)) counters) ≡ false
none_kept t key [] h = refl
none_kept t key (c ∷ counters) h = elim (Bool-cases (c.key == key)) [
  | inl e ↦ rw e (none_kept t key counters h)
  | inr e ↦ rw e (ground (arith, h c, none_kept t key counters h))
]

none_current :
    (now : ℕ) (key : String) (counters : List Counter)
    → any (has_key key) counters ≡ false
    → find (is_current now key) counters ≡ none
none_current now key [] h = refl
none_current now key (c ∷ counters) h = ground (arith, none_current now key counters)

is_current-key :
    (now : ℕ) (key : String) (c : Counter) → is_current now key c ≡ true → has_key key c ≡ true
is_current-key now key c h = ground arith

-- a counter that is put in the place of the others is found until it expires
found_again :
    (now : ℕ) (key : String) (c : Counter) (counters : List Counter)
    → is_current now key c ≡ true
    → find (is_current now key) (filter (λ d. not (d.key == key)) counters ++ c ∷ []) ≡ some c
found_again now key c counters h =
    find-append_new (is_current now key) _ c
      (none_kept (is_current now key) key counters (is_current-key now key)) h

first_is_current :
    (now later : ℕ) (key : String)
    → minute_of later ≡ minute_of now
    → is_current later key (next_counter now key 60 none) ≡ true
first_is_current now later key h = ground (arith, eq_iff key key)

module _ (minute : ℕ) (key : String) where
  rate_limit_script-Used :
      (now : ℕ) (counters : List Counter) (n : ℕ)
      → minute_of now ≡ minute
      → Used minute key counters n
      → let r = rate_limit_script now key 60 counters in (r.0 ≡ n + 1) × Used minute key r.1 (n + 1)
  unfolding rate_limit_script
  rate_limit_script-Used now counters n m (inl (h, z)) = rw (none_current now key counters h) (
    omega arith,
    inr (
      next_counter now key 60 none,
      λ later e. found_again later key _ counters (first_is_current now later key (e ∙ sym m)),
      omega arith,
    ),
  )
  rate_limit_script-Used now counters n m (inr (c, h, z)) = rw (h now m) (
    omega arith,
    inr (
      next_counter now key 60 (some c),
      λ later e.
          found_again later key _ counters
            (find-some (is_current later key) counters c (h later e)).0,
      omega arith,
    ),
  )

-- A request of the peer in the minute that comes straight from it.
abbrev pub IsDirect : String → ℕ → Hit → Type 0
IsDirect peer minute h = (h.request.client_host ≡ some peer) × (minute_of h.now ≡ minute)

resolve_direct :
    {a : Addresses} (r : ClientIpResolver a) (peer : String) (request : Request)
    → is_trusted_proxy r peer ≡ false
    → request.client_host ≡ some peer
    → resolve r request ≡ peer
unfolding resolve
resolve_direct r peer request u e = rw (e, u) (ground arith)

passes-judged : (limit n : ℕ) → passes (judged limit (n + 1)) + (limit - (n + 1)) ≤ limit - n
unfolding judged
passes-judged limit n = ground arith

module _ {a : Addresses} (r : ClientIpResolver a) (str : ℕ → String) (bucket peer : String)
    (limit minute : ℕ) (u : is_trusted_proxy r peer ≡ false) where
  abbrev window : String
  window = concat ("ratelimit:" ∷ bucket ∷ ":" ∷ peer ∷ ":" ∷ str minute ∷ [])

  one_window :
      (h : Hit)
      → IsDirect peer minute h
      → window_key str bucket (resolve r h.request) h.now ≡ window
  unfolding window_key
  one_window h d = rw (resolve_direct r peer h.request u d.0, d.1)

  -- a request during an outage passes and counts nowhere
  outage_or_counted :
      (fails : Bool) (hits : List Hit) (counters : List Counter)
      (counted : Response (Option ℕ) × List Counter) (n : ℕ)
      → admitted r str bucket limit hits counters ≤ limit - n + outages hits
      → passes counted.0 + admitted r str bucket limit hits counted.1 ≤ limit - n + outages hits
      → let checked : Response (Option ℕ) × List Counter =
          if fails then (success none, counters) else counted in
        passes checked.0 + admitted r str bucket limit hits checked.1
        ≤ limit - n + (if fails then outages hits + 1 else outages hits)
  outage_or_counted true hits counters counted n down up = omega (arith, down)
  outage_or_counted false hits counters counted n down up = up

  admitted-Used :
      (n : ℕ) (hits : List Hit) (counters : List Counter)
      → All (IsDirect peer minute) hits
      → Used minute window counters n
      → admitted r str bucket limit hits counters ≤ limit - n + outages hits
  unfolding admitted
  admitted-Used n [] counters d used = omega arith
  admitted-Used n (h ∷ hits) counters d used =
      let after = rate_limit_script h.now window 60 counters in
      let step = rate_limit_script-Used minute window h.now counters n d.0.1 used in
      outage_or_counted h.redis_fails hits counters _ n (admitted-Used n hits counters d.1 used) (
        subst
          (λ k.
            passes (judged limit (rate_limit_script h.now k 60 counters).0)
              + admitted r str bucket limit hits (rate_limit_script h.now k 60 counters).1
            ≤ limit - n + outages hits)
          (sym (one_window h d.0))
          (omega (
            arith,
            ap (λ c. passes (judged limit c)) step.0,
            passes-judged limit n,
            admitted-Used (n + 1) hits after.1 d.1 step.1,
          )))

-- Of any requests within one minute from one peer that is not a trusted proxy, whatever headers
-- they forge, at most as many are admitted as the limit and the requests that found Redis failing
-- come to together, if the counter of that window is new.
pub admitted-le-limit :
    {a : Addresses} (r : ClientIpResolver a) (str : ℕ → String) (bucket peer : String)
    (limit minute : ℕ) (hits : List Hit) (counters : List Counter)
    → is_trusted_proxy r peer ≡ false
    → All (IsDirect peer minute) hits
    → any (has_key (concat ("ratelimit:" ∷ bucket ∷ ":" ∷ peer ∷ ":" ∷ str minute ∷ []))) counters
      ≡ false
    → admitted r str bucket limit hits counters ≤ limit + outages hits
admitted-le-limit r str bucket peer limit minute hits counters u d fresh =
    omega
      (arith, admitted-Used r str bucket peer limit minute u 0 hits counters d (inl (fresh, refl)))
