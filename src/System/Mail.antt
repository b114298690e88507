-- ===== src/System/Mail.antt =====
-- From a destination to a client: what a session writes of the messages in its channel.
use little_stomper.Prelude.{
  ℕ, String, ◌≡◌, refl, sym, ap, ◌∙◌, some, List, [], ◌∷◌, ◌++◌, ℕ_discrete,
}
use little_stomper.Prelude.Effects.{done}
use mathlib.Core.List.{append-nil, append_assoc}
use little_stomper.Client.{default_client_methods}
use little_stomper.Ids.{SubscriptionId}
use little_stomper.Destinations.{OutboundMessage}
use little_stomper.Stomp.{Frames, StompParser}
use little_stomper.Session.Events.{ClientEvent, ServerMessage}
use little_stomper.Timer.Resetter.{reset_timer}
use little_stomper.Session.Handler.{server_message, handle_event}
use little_stomper.Session.Stream.{not_dead}
use little_stomper.System.Family.{update, update_self}
use little_stomper.System.Shared.{Shared}
use little_stomper.System.Moves.{System, Session, Move, receives, step, run, IsAsMade, output}
use little_stomper.System.Broker.{notices}

-- The next events of a session, one for each item of a list.
abbrev pub receives_each : {F : Frames} {A : Type 0} → ℕ → List A → List (Move F)
receives_each j [] = []
receives_each j (x ∷ xs) = receives j ∷ receives_each j xs

-- A message under an id of a client.
abbrev pub Delivery : Type 0
Delivery = SubscriptionId × OutboundMessage

abbrev pub events : {F : Frames} → List Delivery → List (ClientEvent F)
events [] = []
events ((c, out) ∷ ds) = ClientEvent.server_message c out ∷ events ds

-- What a session writes of them.
abbrev pub outputs : {F : Frames} → StompParser F → List Delivery → List (ServerMessage F)
outputs P [] = []
outputs P ((c, out) ∷ ds) = output (server_message P c out) ++ outputs P ds

-- One message under each id, in front of others.
abbrev pub under : OutboundMessage → List SubscriptionId → List Delivery → List Delivery
under out [] ds = ds
under out (c ∷ cs) ds = (c, out) ∷ under out cs ds

pub events-under :
    {F : Frames} (out : OutboundMessage) (cs : List SubscriptionId) (ds : List Delivery)
    → events {F = F} (under out cs ds) ≡ notices out cs ++ events ds
events-under out [] ds = refl
events-under out (c ∷ cs) ds =
    ap (λ es. ClientEvent.server_message c out ∷ es) (events-under out cs ds)

module _ {F : Frames} (P : StompParser F) (quote : String → String) (name : ℕ → String) where
  handle_event-told :
      (j : ℕ) (s : Session F) (c : SubscriptionId) (out : OutboundMessage) (w : Shared F)
      → IsAsMade j s
      → handle_event P quote s (ClientEvent.server_message c out) w
        ≡ (done (s, server_message P c out), w)
  unfolding handle_event reset_timer
  handle_event-told j s c out w same = rw (ap (λ s. s.server_heartbeat_resetter) same) refl

  step-received :
      (sys : System F) (j : ℕ) (s : Session F) (c : SubscriptionId) (out : OutboundMessage)
      (es : List (ClientEvent F))
      → sys.sessions j ≡ some s
      → IsAsMade j s
      → sys.shared.queues j ≡ ClientEvent.server_message c out ∷ es
      → step P quote name (receives j) sys ≡ record sys {
        shared = record sys.shared { queues = update ℕ_discrete j es sys.shared.queues };
        sessions = update ℕ_discrete j (some s) sys.sessions;
        written =
            update ℕ_discrete j (sys.written j ++ output (server_message P c out)) sys.written;
      }
  unfolding step server_message not_dead
  step-received sys j s c out es alive same queued =
      rw (queued, alive) (rw (handle_event-told j s c out _ same) refl)

  pub run-received :
      (ds : List Delivery) (sys : System F) (j : ℕ) (s : Session F)
      → sys.sessions j ≡ some s
      → IsAsMade j s
      → sys.shared.queues j ≡ events ds
      → (run P quote name (receives_each j ds) sys).written j ≡ sys.written j ++ outputs P ds
  unfolding run
  run-received [] sys j s alive same queued = sym (append-nil (sys.written j))
  run-received ((c, out) ∷ ds) sys j s alive same queued =
      let sys' = record sys {
        shared = record sys.shared { queues = update ℕ_discrete j (events ds) sys.shared.queues };
        sessions = update ℕ_discrete j (some s) sys.sessions;
        written =
            update ℕ_discrete j (sys.written j ++ output (server_message P c out)) sys.written;
      } in
      ap (λ now. (run P quote name (receives_each j ds) now).written j)
        (step-received sys j s c out (events ds) alive same queued)
      ∙ run-received ds sys' j s (update_self ℕ_discrete j (some s) sys.sessions) same
          (update_self ℕ_discrete j _ sys.shared.queues)
      ∙ ap (λ xs. xs ++ outputs P ds) (update_self ℕ_discrete j _ sys.written)
      ∙ append_assoc (sys.written j) (output (server_message P c out)) (outputs P ds)
