-- ===== src/Ingestion/Mqtt/Kept.antt =====
-- From the broker's session to a topic of Kafka: what services/ingestion does not make durable stays
-- to be delivered again.
use indu_sense.Base.{true, false, List, [], ◌∷◌, ◌≡◌, ◌⊎◌, All, In}
use indu_sense.Ingestion.{Externals}
use indu_sense.Ingestion.Handlers.{process_message}
use indu_sense.Ingestion.Handlers.Durable.{Published, DeadLettered}
use indu_sense.Ingestion.Mqtt.{
  Inbound, Acked, Session, same_mid, Step, arrives, delivers, works, shuts_down, restarts, step,
}

-- the message, wherever its id is met
abbrev pub OnlyOneOf : Inbound → List Inbound → Type 0
OnlyOneOf m ms = All (λ n. same_mid m.mid n.mid ≡ true → n ≡ m) ms

-- The broker gives no message an id that an unacknowledged one has.
abbrev pub ArrivesFresh : {F : Type 0} → Step → Session F → Type 0
ArrivesFresh (arrives n) s = All (λ u. same_mid u.mid n.mid ≡ false) s.unacked
ArrivesFresh (delivers i) s = Unit
ArrivesFresh (works g) s = Unit
ArrivesFresh shuts_down s = Unit
ArrivesFresh (restarts b) s = Unit

abbrev pub AllFresh : {F : Type 0} → Externals F → List Step → Session F → Type 0
AllFresh x [] s = Unit
AllFresh x (t ∷ steps) s = ArrivesFresh t s × AllFresh x steps (step x t s)

module _ {F : Type 0} (x : Externals F) (m : Inbound) where
  -- the message was acknowledged, by a handler that said so
  abbrev Acknowledged : List (Acked F) → Type 0
  Acknowledged acked =
      (a : Acked F) × In a acked
      × (a.inbound ≡ m)
      × ((process_message x a.sink a.given m.message).0 ≡ true)

  -- the message is held, and whatever has its id is the message
  abbrev IsHeld : Session F → Type 0
  IsHeld s = In m s.unacked × OnlyOneOf m s.unacked × OnlyOneOf m s.jobs

  abbrev IsKept : Session F → Type 0
  IsKept s = IsHeld s ⊎ Acknowledged s.acked

-- What a handler did to the telemetry message when it acknowledged it.
abbrev pub MadeDurable : {F : Type 0} → Externals F → Inbound → List (Acked F) → Type 0
MadeDurable x m acked =
    (a : Acked _) × In a acked
    × (a.inbound ≡ m)
    × (let after = (process_message x a.sink a.given m.message).1 in
        Published x a.sink a.given m.message after
        ⊎ DeadLettered (a.given.decoded m.message.payload) after)
