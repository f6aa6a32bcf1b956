-- ===== src/Api/Feed/Delivery.antt =====
-- A socket of services/api/ws_alerts.py gets the events of its organization.
use indu_sense.Base.{
  String, Bool, if◌then◌else◌, true, false, Option, some, List, [], ◌∷◌, ◌≡◌, sym, subst, arith,
  ◌==◌, eq_iff, In, here, there, In-append_left, In-append_last, Bool-cases, inl, inr,
}
use indu_sense.Base.Dict.{Dict, lookup}
use indu_sense.Api.Feed.{
  WsHub, unregister, targets, send_one, send_all, broadcast, broadcast_threadsafe, broadcast_parsed,
  message, fan_out,
}

module _ (fails : String → Bool) (payload : String) where
  send_one-keeps :
      (m : String × String) (target : String) (hub : WsHub)
      → In m hub.sent
      → In m (send_one fails payload target hub).sent
  unfolding send_one unregister
  send_one-keeps m target hub i = elim (Bool-cases (fails target)) [
    | inl e ↦ rw e i
    | inr e ↦ rw e (In-append_left m hub.sent _ i)
  ]

  send_all-keeps :
      (m : String × String) (sockets : List String) (hub : WsHub)
      → In m hub.sent
      → In m (send_all fails payload sockets hub).sent
  unfolding send_all
  send_all-keeps m [] hub i = i
  send_all-keeps m (t ∷ sockets) hub i = send_all-keeps m sockets _ (send_one-keeps m t hub i)

  send_all-delivers :
      (ws : String) (sockets : List String) (hub : WsHub)
      → In ws sockets
      → fails ws ≡ false
      → In (ws, payload) (send_all fails payload sockets hub).sent
  unfolding send_all send_one
  send_all-delivers ws [] hub i f = elim i [ ]
  send_all-delivers ws (t ∷ sockets) hub (here e) f =
      send_all-keeps (ws, payload) sockets _
        (subst (λ u. In (ws, payload) (send_one fails payload u hub).sent) e
          (rw f (In-append_last (ws, payload) hub.sent)))
  send_all-delivers ws (t ∷ sockets) hub (there i) f = send_all-delivers ws sockets _ i f

targets-In :
    (ws org : String) (clients : Dict String)
    → lookup ws clients ≡ some org
    → In ws (targets org clients)
unfolding targets lookup
targets-In ws org [] h = cc
targets-In ws org (c ∷ clients) h = elim (Bool-cases (c.0 == ws)) [
  | inl e ↦
      let same : (c.1 == org) ≡ true = ground (arith, eq_iff c.1 org) in
      rw same (here (sym ((eq_iff c.0 ws).0 e)))
  | inr e ↦ elim (Bool-cases (c.1 == org)) [
    | inl m ↦ rw m (there (targets-In ws org clients (ground arith)))
    | inr m ↦ rw m (targets-In ws org clients (ground arith))
  ]
]

-- Once the hub is bound to its event loop, a well-formed alert event that is polled is sent to
-- each websocket that is registered for the event's organization and takes it, whatever other
-- sockets fail.
pub fan_out-delivers :
    (read_org : String → Option String) (fails : String → Bool) (ws org payload : String)
    (hub : WsHub)
    → hub.bound ≡ true
    → lookup ws hub.clients ≡ some org
    → read_org payload ≡ some org
    → fails ws ≡ false
    → In (ws, payload) (fan_out read_org fails (message payload) hub).sent
unfolding fan_out broadcast broadcast_threadsafe
fan_out-delivers read_org fails ws org payload hub b r e f =
    subst (λ o. In (ws, payload) (broadcast_parsed fails o payload hub).sent) (sym e)
      (subst (λ k. In (ws, payload) (if k then broadcast fails org payload hub else hub).sent)
        (sym b) (send_all-delivers fails payload ws _ hub (targets-In ws org hub.clients r) f))
