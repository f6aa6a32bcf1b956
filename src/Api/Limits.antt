-- ===== src/Api/Limits.antt =====
-- services/api/middleware.py: whose request it is, and how many a minute it may make.
pub mod Window
use Prim.Native.Char.{Char, code}
use indu_sense.Base.{
  ℕ, ◌+◌, ◌-◌, ◌*◌, ◌/◌, String, Bool, true, false, ◌&&◌, ◌||◌, not, Option, none, some, List, [],
  ◌∷◌, ◌++◌, ◌==◌, ltb, leb, if◌then◌else◌, any, find, filter, concat,
}
use indu_sense.Api.{Response, success, refused}

-- Python's `ipaddress`, whose ValueError is `none`, and `str.strip`.
pub record Addresses : Type 1 where
  pub Ip : Type 0
  pub Network : Type 0
  pub ip_address : String → Option Ip
  pub version : Ip → ℕ
  pub ip_network : String → Option Network
  pub contains : Network → Ip → Bool
  pub strip : String → String

-- a request, by what the resolver reads of it: the peer's host and X-Forwarded-For
pub record Request : Type 0 where
  pub client_host : Option String
  pub x_forwarded_for : Option String

-- `c in s`, for the code of a character
abbrev pub has_char : ℕ → String → Bool
has_char k String.[] = false
has_char k (String.◌∷◌ c s) = let rest = has_char k s in (leb (code c) k && leb k (code c)) || rest

-- `s.split(c)[0]`
abbrev pub before_char : ℕ → String → String
before_char k String.[] = String.[]
before_char k (String.◌∷◌ c s) =
    let rest = before_char k s in
    if leb (code c) k && leb k (code c) then String.[] else String.◌∷◌ c rest

abbrev pub text_or : String → Option String → String
text_or d none = d
text_or d (some s) = s

module _ (a : Addresses) where
  abbrev with_prefix : String → Option a.Ip → Option String
  with_prefix entry none = none
  with_prefix entry (some ip) =
      let four : Bool = leb (a.version ip) 4 && leb 4 (a.version ip) in
      some (if four then concat (entry ∷ "/32" ∷ []) else concat (entry ∷ "/128" ∷ []))

  -- an entry of API_TRUSTED_PROXY_CIDRS as a network in CIDR notation
  abbrev as_cidr : String → Option String
  as_cidr entry = if has_char b'/' entry then some entry else with_prefix entry (a.ip_address entry)

  abbrev network_of : Option String → Option a.Network
  network_of none = none
  network_of (some cidr) = a.ip_network cidr

  abbrev both : Option a.Network → Option (List a.Network) → Option (List a.Network)
  both (some n) (some ns) = some (n ∷ ns)
  both (some n) none = none
  both none ns = none

  abbrev in_any : List a.Network → Option a.Ip → Bool
  in_any networks none = false
  in_any networks (some ip) = any (λ n. a.contains n ip) networks

  -- the constructor of `ClientIPResolver`, which raises on a bad entry
  unfoldable pub trusted_networks : List String → Option (List a.Network)
  trusted_networks [] = some []
  trusted_networks (entry ∷ entries) = both (network_of (as_cidr entry)) (trusted_networks entries)

pub record ClientIpResolver (a : Addresses) : Type 0 where
  pub trust_proxy_headers : Bool
  pub trusted_proxies : List a.Network

module _ {a : Addresses} where
  unfoldable pub is_trusted_proxy : ClientIpResolver a → String → Bool
  is_trusted_proxy r peer = in_any a r.trusted_proxies (a.ip_address peer)

  unfoldable pub resolve : ClientIpResolver a → Request → String
  resolve r request =
      let peer = text_or "" request.client_host in
      let fwd = text_or "" request.x_forwarded_for in
      let first = a.strip (before_char b',' fwd) in
      if not r.trust_proxy_headers || not (is_trusted_proxy r peer)
      then peer
      else if fwd == ""
      then peer
      else if first == ""
      then peer
      else first

-- a counter of Redis, and the instant at which it expires
pub record Counter : Type 0 where
  pub key : String
  pub count : ℕ
  pub expires_at : ℕ

abbrev pub is_current : ℕ → String → Counter → Bool
is_current now key c = if c.key == key then ltb now c.expires_at else false

-- `counter`, counted up, or the first one of its window
abbrev pub next_counter : ℕ → String → ℕ → Option Counter → Counter
next_counter now key ttl none = record { key = key; count = 1; expires_at = now + ttl * 1000000 }
next_counter now key ttl (some c) = record c { count = c.count + 1 }

-- _RATE_LIMIT_SCRIPT, at an instant in microseconds
unfoldable pub rate_limit_script : ℕ → String → ℕ → List Counter → ℕ × List Counter
rate_limit_script now key ttl counters =
    let c = next_counter now key ttl (find (is_current now key) counters) in
    (c.count, filter (λ d. not (d.key == key)) counters ++ c ∷ [])

-- `str` writes a number.
unfoldable pub window_key : (ℕ → String) → String → String → ℕ → String
window_key str bucket ip now =
    concat ("ratelimit:" ∷ bucket ∷ ":" ∷ ip ∷ ":" ∷ str (now / 1000000 / 60) ∷ [])

-- the value of X-RateLimit-Remaining, or `none` where no header is set
unfoldable pub judged : ℕ → ℕ → Response (Option ℕ)
judged limit count =
    if ltb limit count then refused 429 "RATE_LIMITED" else success (some (limit - count))

-- `dep` of RateLimiter.dependency; a request during an outage of Redis passes
unfoldable pub check_rate :
    {a : Addresses}
    → ClientIpResolver a
    → (ℕ → String)
    → String
    → ℕ
    → Bool
    → ℕ
    → Request
    → List Counter
    → Response (Option ℕ) × List Counter
unfolding rate_limit_script judged
check_rate r str bucket limit redis_fails now request counters =
    let counted =
      rate_limit_script now (window_key str bucket (resolve r request) now) 60 counters in
    if redis_fails then (success none, counters) else (judged limit counted.0, counted.1)
