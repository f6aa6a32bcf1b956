-- ===== src/Api/Feed/Isolation.antt =====
-- No socket of services/api/ws_alerts.py gets an event of another organization.
use indu_sense.Base.{
  String, Bool, true, false, if◌then◌else◌, Option, none, some, List, [], ◌∷◌, ◌++◌, ◌≡◌, refl, ap,
  sym, ◌∙◌, ◌==◌, eq_iff, filter, All, Bool-cases, inl, inr,
}
use indu_sense.Base.Dict.{Dict, insert}
use indu_sense.Auth.{Outcome, returned, raised}
use indu_sense.Auth.Token.{Claims, Jwt, parse_and_validate}
use indu_sense.Api.Feed.{
  WsHub, register, unregister, targets, send_one, send_all, broadcast, broadcast_threadsafe,
  broadcast_parsed, Polled, nothing, fetch_error, error_message, message, fan_out, accept_or_close,
  connect, Happening, connects, disconnects, polls, all_happen,
}

-- The socket connects with tokens of the organization only.
abbrev pub ConnectsAs : String → String → Jwt → String → Happening → Type 0
ConnectsAs ws org jwt secret (connects now token socket) =
    socket ≡ ws
    → (c : Claims) → parse_and_validate jwt now token secret "access" ≡ returned c
    → c.organization_id ≡ org
ConnectsAs ws org jwt secret (disconnects socket) = Unit
ConnectsAs ws org jwt secret (polls fails polled) = Unit

module _ (read_org : String → Option String) (ws org : String) where
  -- The socket is registered for no other organization.
  abbrev IsRegisteredFor : Dict String → Type 0
  IsRegisteredFor clients = All (λ c. c.0 ≡ ws → c.1 ≡ org) clients

  -- All that was sent to the socket is of the organization.
  abbrev pub GotOnly : List (String × String) → Type 0
  GotOnly sent = All (λ m. m.0 ≡ ws → read_org m.1 ≡ some org) sent

  abbrev Isolated : WsHub → Type 0
  Isolated hub = IsRegisteredFor hub.clients × GotOnly hub.sent

  insert-IsRegisteredFor :
      (key value : String) (clients : Dict String)
      → (key ≡ ws → value ≡ org)
      → IsRegisteredFor clients
      → IsRegisteredFor (insert key value clients)
  unfolding insert
  insert-IsRegisteredFor key value [] h r = (h, tt)
  insert-IsRegisteredFor key value (c ∷ clients) h r = elim (Bool-cases (c.0 == key)) [
    | inl e ↦ rw e (h, r.1)
    | inr e ↦ rw e (r.0, insert-IsRegisteredFor key value clients h r.1)
  ]

  filter-IsRegisteredFor :
      (t : String × String → Bool) (clients : Dict String)
      → IsRegisteredFor clients
      → IsRegisteredFor (filter t clients)
  filter-IsRegisteredFor t [] r = tt
  filter-IsRegisteredFor t (c ∷ clients) r = elim (Bool-cases (t c)) [
    | inl e ↦ rw e (r.0, filter-IsRegisteredFor t clients r.1)
    | inr e ↦ rw e (filter-IsRegisteredFor t clients r.1)
  ]

  GotOnly-append :
      (m : String × String) (sent : List (String × String))
      → (m.0 ≡ ws → read_org m.1 ≡ some org)
      → GotOnly sent
      → GotOnly (sent ++ m ∷ [])
  GotOnly-append m [] h g = (h, tt)
  GotOnly-append m (n ∷ sent) h g = (g.0, GotOnly-append m sent h g.1)

  unregister-Isolated : (key : String) (hub : WsHub) → Isolated hub → Isolated (unregister key hub)
  unfolding unregister
  unregister-Isolated key hub i = (filter-IsRegisteredFor _ hub.clients i.0, i.1)

  -- The targets hold the socket only if the payload is of its organization.
  abbrev MayGet : String → List String → Type 0
  MayGet payload sockets = All (λ t. t ≡ ws → read_org payload ≡ some org) sockets

  targets-MayGet :
      (org_id payload : String) (clients : Dict String)
      → read_org payload ≡ some org_id
      → IsRegisteredFor clients
      → MayGet payload (targets org_id clients)
  unfolding targets
  targets-MayGet org_id payload [] e r = tt
  targets-MayGet org_id payload (c ∷ clients) e r = elim (Bool-cases (c.1 == org_id)) [
    | inl m ↦ rw m (
      λ t. e ∙ ap some (sym ((eq_iff c.1 org_id).0 m) ∙ r.0 t),
      targets-MayGet org_id payload clients e r.1,
    )
    | inr m ↦ rw m (targets-MayGet org_id payload clients e r.1)
  ]

  send_one-Isolated :
      (fails : String → Bool) (payload target : String) (hub : WsHub)
      → (target ≡ ws → read_org payload ≡ some org)
      → Isolated hub
      → Isolated (send_one fails payload target hub)
  unfolding send_one
  send_one-Isolated fails payload target hub m i = elim (Bool-cases (fails target)) [
    | inl e ↦ rw e (unregister-Isolated target hub i)
    | inr e ↦ rw e (i.0, GotOnly-append (target, payload) hub.sent m i.1)
  ]

  send_all-Isolated :
      (fails : String → Bool) (payload : String) (sockets : List String) (hub : WsHub)
      → MayGet payload sockets
      → Isolated hub
      → Isolated (send_all fails payload sockets hub)
  unfolding send_all
  send_all-Isolated fails payload [] hub m i = i
  send_all-Isolated fails payload (t ∷ sockets) hub m i =
      send_all-Isolated fails payload sockets _ m.1 (send_one-Isolated fails payload t hub m.0 i)

  if-Isolated : (b : Bool) (h k : WsHub) → Isolated h → Isolated k → Isolated (if b then h else k)
  if-Isolated true h k i j = i
  if-Isolated false h k i j = j

  broadcast_parsed-Isolated :
      (fails : String → Bool) (o : Option String) (payload : String) (hub : WsHub)
      → read_org payload ≡ o
      → Isolated hub
      → Isolated (broadcast_parsed fails o payload hub)
  unfolding broadcast broadcast_threadsafe
  broadcast_parsed-Isolated fails none payload hub e i = i
  broadcast_parsed-Isolated fails (some org_id) payload hub e i =
      if-Isolated hub.bound _ hub
        (send_all-Isolated fails payload _ hub (targets-MayGet org_id payload hub.clients e i.0) i)
        i

  fan_out-Isolated :
      (fails : String → Bool) (polled : Polled) (hub : WsHub)
      → Isolated hub
      → Isolated (fan_out read_org fails polled hub)
  unfolding fan_out
  fan_out-Isolated fails (message payload) hub i =
      broadcast_parsed-Isolated fails (read_org payload) payload hub refl i
  fan_out-Isolated fails nothing hub i = i
  fan_out-Isolated fails fetch_error hub i = i
  fan_out-Isolated fails error_message hub i = i

  accept_or_close-Isolated :
      (o : Outcome Claims) (socket : String) (hub : WsHub)
      → (socket ≡ ws → (c : Claims) → o ≡ returned c → c.organization_id ≡ org)
      → Isolated hub
      → Isolated (accept_or_close o socket hub)
  unfolding register
  accept_or_close-Isolated (raised e) socket hub h i = i
  accept_or_close-Isolated (returned c) socket hub h i =
      (insert-IsRegisteredFor socket c.organization_id hub.clients (λ e. h e c refl) i.0, i.1)

  all_happen-Isolated :
      (jwt : Jwt) (secret : String) (hs : List Happening) (hub : WsHub)
      → All (ConnectsAs ws org jwt secret) hs
      → Isolated hub
      → Isolated (all_happen jwt secret read_org hs hub)
  unfolding all_happen connect
  all_happen-Isolated jwt secret [] hub a i = i
  all_happen-Isolated jwt secret (connects now token socket ∷ hs) hub a i =
      all_happen-Isolated jwt secret hs _ a.1 (accept_or_close-Isolated _ socket hub a.0 i)
  all_happen-Isolated jwt secret (disconnects socket ∷ hs) hub a i =
      all_happen-Isolated jwt secret hs _ a.1 (unregister-Isolated socket hub i)
  all_happen-Isolated jwt secret (polls fails polled ∷ hs) hub a i =
      all_happen-Isolated jwt secret hs _ a.1 (fan_out-Isolated fails polled hub i)

-- From a hub without websockets on: if a websocket connects only with tokens of one organization,
-- then whatever connects, disconnects and is polled, in whatever order, all that it is sent are
-- payloads of that organization.
pub all_happen-GotOnly :
    (jwt : Jwt) (secret : String) (read_org : String → Option String) (ws org : String)
    (hs : List Happening) (bound : Bool)
    → All (ConnectsAs ws org jwt secret) hs
    → GotOnly read_org ws org
        (all_happen jwt secret read_org hs
          (record { bound = bound; clients = []; sent = []; closed = [] })).sent
all_happen-GotOnly jwt secret read_org ws org hs bound a =
    (all_happen-Isolated read_org ws org jwt secret hs _ a (tt, tt)).1
