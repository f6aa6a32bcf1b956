-- ===== src/Alerts/Notify.antt =====
-- services/alert-service/notify.py. The answers of the webhook's server are given, in the order of the
-- requests: a status code, or none for a `RequestException`.
use indu_sense.Base.{
  ℕ, suc, Bool, String, Option, none, some, List, [], ◌∷◌, ◌++◌, leb, if◌then◌else◌,
}
use indu_sense.Reliability.{Attempt, done, permanent, transient, CircuitBreaker, protected_write}

pub record Notification : Type 0 where
  pub alert_id : String
  pub title : String
  pub description : String
  pub severity : String
  pub machine_id : String
  pub device_id : String
  pub triggered_at : Option ℕ
  pub is_escalation : Bool

-- The server's answers, and what has been posted.
pub record Server : Type 0 where
  pub answers : ℕ → Option ℕ
  pub asked : ℕ
  pub posted : List Notification

pub record Webhook : Type 0 where
  pub server : Server
  pub breaker : CircuitBreaker

-- the providers, in the order in which `_build_providers` makes them
pub record Providers : Type 0 where
  pub console : Bool
  pub logged : List Notification
  pub webhook : Option Webhook

of_response : Option ℕ → Attempt
of_response none = transient
of_response (some code) =
    if leb 500 code then transient else if leb 400 code then permanent else done

-- `attempt` of `WebhookProvider.send`
post : Notification → Server → Attempt × Server
unfolding of_response
post n s =
    (of_response (s.answers s.asked), record s { asked = suc s.asked; posted = s.posted ++ n ∷ [] })

-- `WebhookProvider.send`; a failure is logged by `notify_all`. A delay is in milliseconds.
send_webhook : ℕ × ℕ → Notification → Option Webhook → Option Webhook
unfolding post
send_webhook clock n none = none
send_webhook clock n (some h) =
    let r = protected_write 3 500 clock (post n) h.server h.breaker in
    some (record h { server = r.world; breaker = r.breaker })

unfoldable pub notify_all : ℕ × ℕ → Notification → Providers → Providers
unfolding send_webhook
notify_all clock n p = record p {
  logged = if p.console then p.logged ++ n ∷ [] else p.logged;
  webhook = send_webhook clock n p.webhook;
}
