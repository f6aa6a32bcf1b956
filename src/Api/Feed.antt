-- ===== src/Api/Feed.antt =====
-- services/api/ws_alerts.py: the feed of alerts over WebSockets. A socket goes by a name of its own,
-- and the sends of one broadcast are made in one go.
pub mod Delivery
pub mod Isolation
use indu_sense.Base.{
  ℕ, String, Bool, true, false, not, Option, none, some, List, [], ◌∷◌, ◌++◌, map, ◌==◌,
  if◌then◌else◌, filter,
}
use indu_sense.Base.Dict.{Dict, insert}
use indu_sense.Auth.{Outcome, returned, raised}
use indu_sense.Auth.Token.{Claims, Jwt, parse_and_validate}

-- `WSHub`, with what has been sent to which socket, and the sockets that were closed
pub record WsHub : Type 0 where
  -- whether `bind_loop` has been called
  pub bound : Bool
  pub clients : Dict String
  pub sent : List (String × String)
  pub closed : List String

unfoldable pub register : String → String → WsHub → WsHub
register ws org_id hub = record hub { clients = insert ws org_id hub.clients }

unfoldable pub unregister : String → WsHub → WsHub
unregister ws hub = record hub {
  clients = filter (λ c. not (c.0 == ws)) hub.clients;
  closed = hub.closed ++ ws ∷ [];
}

unfoldable pub targets : String → Dict String → List String
targets org_id clients = map (λ c. c.0) (filter (λ c. c.1 == org_id) clients)

-- `fails ws` if `send_text` raises
unfoldable pub send_one : (String → Bool) → String → String → WsHub → WsHub
unfolding unregister
send_one fails text ws hub =
    if fails ws then unregister ws hub else record hub { sent = hub.sent ++ (ws, text) ∷ [] }

unfoldable pub send_all : (String → Bool) → String → List String → WsHub → WsHub
unfolding send_one
send_all fails text [] hub = hub
send_all fails text (ws ∷ sockets) hub = send_all fails text sockets (send_one fails text ws hub)

unfoldable pub broadcast : (String → Bool) → String → String → WsHub → WsHub
broadcast fails org_id payload hub = send_all fails payload (targets org_id hub.clients) hub

-- what `consumer.poll` gives
pub data Polled : Type 0 where
  nothing fetch_error error_message : Polled
  message : String → Polled

-- `broadcast_threadsafe`; each send ends, with an exception or not
unfoldable pub broadcast_threadsafe : (String → Bool) → String → String → WsHub → WsHub
unfolding broadcast
broadcast_threadsafe fails org_id payload hub =
    if hub.bound then broadcast fails org_id payload hub else hub

abbrev pub broadcast_parsed : (String → Bool) → Option String → String → WsHub → WsHub
broadcast_parsed fails none payload hub = hub
broadcast_parsed fails (some org_id) payload hub = broadcast_threadsafe fails org_id payload hub

-- One turn of the loop of `run_alerts_fan_out`; `read_org` reads the organization of an alert event,
-- or `none` where the message is malformed. The commit's result is not looked at.
unfoldable pub fan_out : (String → Option String) → (String → Bool) → Polled → WsHub → WsHub
fan_out read_org fails (message payload) hub = broadcast_parsed fails (read_org payload) payload hub
fan_out read_org fails nothing hub = hub
fan_out read_org fails fetch_error hub = hub
fan_out read_org fails error_message hub = hub

abbrev pub accept_or_close : Outcome Claims → String → WsHub → WsHub
accept_or_close (returned c) ws hub = register ws c.organization_id hub
accept_or_close (raised e) ws hub = record hub { closed = hub.closed ++ ws ∷ [] }

-- the route /ws/alerts, up to the loop that waits for the disconnect
unfoldable pub connect : Jwt → ℕ → String → String → String → WsHub → WsHub
unfolding register
connect jwt now access_secret token ws hub =
    accept_or_close (parse_and_validate jwt now token access_secret "access") ws hub

-- What happens at the hub: a client comes with a token, a client goes, a message is polled.
pub data Happening : Type 0 where
  connects : ℕ → String → String → Happening
  disconnects : String → Happening
  polls : (String → Bool) → Polled → Happening

unfoldable pub happens : Jwt → String → (String → Option String) → Happening → WsHub → WsHub
happens jwt secret read_org (connects now token ws) hub = connect jwt now secret token ws hub
happens jwt secret read_org (disconnects ws) hub = unregister ws hub
happens jwt secret read_org (polls fails polled) hub = fan_out read_org fails polled hub

unfoldable pub all_happen : Jwt → String → (String → Option String) → List Happening → WsHub → WsHub
unfolding happens
all_happen jwt secret read_org [] hub = hub
all_happen jwt secret read_org (h ∷ hs) hub =
    all_happen jwt secret read_org hs (happens jwt secret read_org h hub)
