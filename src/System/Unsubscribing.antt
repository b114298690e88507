-- ===== src/System/Unsubscribing.antt =====
-- An UNSUBSCRIBE frame on its way: from the client through its session to the destination, and back
-- to the map of the session.
use little_stomper.Prelude.{
  ℕ, ◌≡◌, refl, sym, subst, String, none, some, List, [], ◌∷◌, ◌++◌, true, false, ℕ_discrete,
}
use little_stomper.Prelude.Effects.{ok, done}
use little_stomper.Client.{default_client_methods}
use little_stomper.Ids.{SubscriptionId, DestinationId, StringId-discrete, from_str}
use little_stomper.Stomp.{Frames, StompParser, ClientFrame}
use little_stomper.InMemory.Backend.{Subscription, get, remove, remove_subscription, handle_action}
use little_stomper.InMemory.Handle
use little_stomper.AsyncDestinations.Registry
use little_stomper.Timer.Resetter.{reset_timer}
use little_stomper.Session.Events
use little_stomper.Session.Events.{ClientEvent, alive}
use little_stomper.Session.Handler
use little_stomper.Session.Handler.{Active, get_active, handle_event, unsubscribed}
use little_stomper.Session.Stream.{not_dead}
use little_stomper.System.Family.{update}
use little_stomper.System.Shared.{Shared, Post, unsubscribes}
use little_stomper.System.Moves.{
  System, Session, arrives, receives, serves, step, session_of, IsAsMade,
}

-- The system after each step.
module _ {F : Frames} (j : ℕ) (d : DestinationId) (i : SubscriptionId) where
  abbrev pub asked : Session F → System F → System F
  asked s sys = record sys {
    shared = record sys.shared {
      posts =
          update StringId-discrete d (sys.shared.posts d ++ (unsubscribes j i ∷ []))
            sys.shared.posts;
    };
    sessions = update ℕ_discrete j (some s) sys.sessions;
    written = update ℕ_discrete j (sys.written j ++ []) sys.written;
  }

  abbrev pub confirmed : SubscriptionId → ClientEvent F
  confirmed c = ClientEvent.unsubscribed c (ok i)

  abbrev pub served : SubscriptionId → List Post → System F → System F
  served c ps sys =
      let b = sys.backends d in
      record sys {
        shared = record sys.shared {
          posts = update StringId-discrete d ps sys.shared.posts;
          queues =
              update ℕ_discrete j (sys.shared.queues j ++ (confirmed c ∷ [])) sys.shared.queues;
        };
        backends =
            update StringId-discrete d (record b { subscriptions = remove i b.subscriptions })
              sys.backends;
      }

  abbrev pub left : SubscriptionId → List (ClientEvent F) → Session F → System F → System F
  left c es s sys = record sys {
    shared = record sys.shared { queues = update ℕ_discrete j es sys.shared.queues };
    sessions = update ℕ_discrete j (some (unsubscribed s c (ok i))) sys.sessions;
    written = update ℕ_discrete j (sys.written j ++ []) sys.written;
  }

module _ {F : Frames} (P : StompParser F) (quote : String → String) (name : ℕ → String) (j : ℕ)
    (g : F.UnsubscribeFrame) where
  abbrev c : SubscriptionId
  c = from_str (P.unsubscribe_id g)

  abbrev asks : ClientEvent F
  asks = ClientEvent.client_frame (ok (ClientFrame.unsubscribe g))

  abbrev after : DestinationId → SubscriptionId → Shared F → Shared F
  after d i w = record w {
    posts = update StringId-discrete d (w.posts d ++ (unsubscribes j i ∷ [])) w.posts;
  }

  handle_event-made :
      (d : DestinationId) (i : SubscriptionId) (m : Active) (w : Shared F)
      → get_active c m ≡ some (d, i)
      → w.made d ≡ true
      → w.is_closed d ≡ false
      → let s = record (session_of j) { active_subscriptions_by_client_id = m } in
        handle_event P quote s asks w ≡ (done (s, ok (alive, none)), after d i w)
  unfolding handle_event Handler.client_frame Handler.handle Handler.unsubscribe reset_timer
      Registry.unsubscribe Handle.unsubscribe
  handle_event-made d i m w has made is_open = rw (has, made, is_open) refl

  handle_event-asks :
      (d : DestinationId) (i : SubscriptionId) (s : Session F) (w : Shared F)
      → IsAsMade j s
      → get_active c s.active_subscriptions_by_client_id ≡ some (d, i)
      → w.made d ≡ true
      → w.is_closed d ≡ false
      → handle_event P quote s asks w ≡ (done (s, ok (alive, none)), after d i w)
  handle_event-asks d i s w same has made is_open =
      subst (λ s. handle_event P quote s asks w ≡ (done (s, ok (alive, none)), after d i w))
        (sym same) (handle_event-made d i s.active_subscriptions_by_client_id w has made is_open)

  -- The session posts a request to the destination, with the id that the destination gave.
  pub step-asked :
      (d : DestinationId) (i : SubscriptionId) (s : Session F) (sys : System F)
      → sys.sessions j ≡ some s
      → IsAsMade j s
      → get_active c s.active_subscriptions_by_client_id ≡ some (d, i)
      → sys.shared.made d ≡ true
      → sys.shared.is_closed d ≡ false
      → step P quote name (arrives j asks) sys ≡ asked j d i s sys
  unfolding step not_dead
  step-asked d i s sys here same has made is_open =
      rw here (rw (handle_event-asks d i s sys.shared same has made is_open) refl)

module _ {F : Frames} (P : StompParser F) (quote : String → String) (name : ℕ → String) (j : ℕ)
    (d : DestinationId) (i c : SubscriptionId) where
  -- The destination removes the subscription, and confirms it.
  pub step-served :
      (ps : List Post) (s : Subscription (Shared F)) (sys : System F)
      → sys.shared.posts d ≡ unsubscribes j i ∷ ps
      → sys.shared.is_closed d ≡ false
      → sys.shared.is_open j ≡ true
      → get i (sys.backends d).subscriptions ≡ some s
      → s.subscriber_sub_id ≡ some c
      → step P quote name (serves d) sys ≡ served j d i c ps sys
  unfolding step handle_action remove_subscription Events.unsubscribe_callback
  step-served ps s sys posted is_open heard found named =
      rw (is_open, posted) (rw (found, named, heard) refl)

  -- The session removes it from its map.
  pub step-confirmed :
      (es : List (ClientEvent F)) (s : Session F) (sys : System F)
      → sys.shared.queues j ≡ confirmed j d i c ∷ es
      → sys.sessions j ≡ some s
      → step P quote name (receives j) sys ≡ left j d i c es s sys
  unfolding step handle_event not_dead
  step-confirmed es s sys queued here = rw (queued, here) refl
