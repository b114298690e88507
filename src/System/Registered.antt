-- ===== src/System/Registered.antt =====
-- What handlers and tasks do to the registry and to the channels of destinations.
use little_stomper.Prelude.{
  ◌⊎◌, ℕ, ◌≡◌, refl, sym, subst, String, Option, none, [], ◌∷◌, ◌++◌, true, Bool-cases,
  Option-cases, inl, inr, arith,
}
use little_stomper.Prelude.Effects.{ok, err}
use little_stomper.Client.{default_client, default_client_methods}
use little_stomper.Ids.{SubscriptionId, DestinationId, StringId-discrete, from_str}
use little_stomper.Destinations.{InboundMessage}
use little_stomper.Stomp.{Frames, StompParser, ClientFrame}
use little_stomper.InMemory.Handle
use little_stomper.AsyncDestinations.Registry
use little_stomper.Session.Events
use little_stomper.Session.Events.{ClientEvent, as_subscriber, as_sender}
use little_stomper.Session.Handler.{Active, get_active, handle_event}
use little_stomper.System.Family.{update, update_self}
use little_stomper.System.Shared.{
  Shared, Post, SubscribeTask, subscribes, unsubscribes, sends, proxy, events_to, registry,
  handle_of, run_task,
}
use little_stomper.AsyncDestinations.Registry.{subscribe_task}
use little_stomper.System.Moves.{Session, IsAsMade}
use little_stomper.System.Policy.{Policy, anyone}
use little_stomper.System.Sessions.{session_with}

module _ {F : Frames} (d : DestinationId) where
  -- The destination stays in the registry, and gets actions only if it is there; and no task of a
  -- destination ends.
  pub record Registers (w w' : Shared F) : Type 0 where
    pub stays : w.made d ≡ true → w'.made d ≡ true
    pub is_known : (w'.made d ≡ true) ⊎ (w'.posts d ≡ w.posts d)
    pub none_ends : w'.is_closed ≡ w.is_closed

  Registers-refl : (w : Shared F) → Registers w w
  Registers-refl w = record { stays = λ e. e; is_known = inr refl; none_ends = refl }

  Registers-queues :
      (k : ℕ) (e : ClientEvent F) (w : Shared F) → Registers w ((events_to k).send e w).1
  Registers-queues k e w = ground (arith, Registers-refl w)

  -- An action for a destination of the registry.
  posted-Registers :
      (e : DestinationId) (p : Post) (w : Shared F)
      → w.made e ≡ true
      → Registers w
          (record w { posts = update StringId-discrete e (w.posts e ++ (p ∷ [])) w.posts })
  posted-Registers e p w made = elim (StringId-discrete e d) [
    | yes same ↦ record {
      stays = λ h. h;
      is_known = inl (subst (λ d. w.made d ≡ true) same made);
      none_ends = refl;
    }
    | no other ↦ record { stays = λ h. h; is_known = inr (ground arith); none_ends = refl }
  ]

  made_stays :
      (e : DestinationId) (w : Shared F)
      → w.made d ≡ true
      → update StringId-discrete e true w.made d ≡ true
  made_stays e w h = ground arith

  -- The calls of the registry.
  send-Registers :
      (k : ℕ) (e : DestinationId) (m : InboundMessage) (w : Shared F)
      → Registers w (Registry.send (registry k) e m (as_sender (proxy k)) default_client w).1
  unfolding Registry.send Handle.send
  send-Registers k e m w = elim (Bool-cases (w.made e)) [
    | inl made ↦ ground (arith, posted-Registers e (sends k m) w made)
    | inr unknown ↦ rw unknown (Registers-refl w)
  ]

  unsubscribe-Registers :
      (k : ℕ) (e : DestinationId) (i : SubscriptionId) (w : Shared F)
      → Registers w
          (Registry.unsubscribe (registry k) e i (as_subscriber (proxy k)) default_client w).1
  unfolding Registry.unsubscribe Handle.unsubscribe Events.unsubscribe_callback
  unsubscribe-Registers k e i w = elim (Bool-cases (w.made e)) [
    | inl made ↦ ground (arith, posted-Registers e (unsubscribes k i) w made)
    | inr unknown ↦ rw unknown (Registers-refl w)
  ]

  subscribe-Registers :
      (k : ℕ) (e : DestinationId) (i : Option SubscriptionId) (w : Shared F)
      → w.made e ≡ true
      → Registers w ((handle_of k e).subscribe i (as_subscriber (proxy k)) default_client w).1
  unfolding Handle.subscribe Events.subscribe_callback
  subscribe-Registers k e i w made = ground (arith, posted-Registers e (subscribes k i) w made)

  -- A task finds its destination, or makes it, before it subscribes.
  pub run_task-Registers : (t : SubscribeTask) (w : Shared F) → Registers w (run_task t w).1
  unfolding subscribe_task
  run_task-Registers t w = elim (Bool-cases (w.made t.destination)) [
    | inl old ↦ rw old (subscribe-Registers t.who t.destination t.client_id w old)
    | inr new ↦ rw new (
        let now = record w { made = update StringId-discrete t.destination true w.made } in
        let rest =
          subscribe-Registers t.who t.destination t.client_id now
            (update_self StringId-discrete t.destination true w.made) in
        record {
          stays = λ h. rest.stays (made_stays t.destination w h);
          is_known = rest.is_known;
          none_ends = rest.none_ends;
        })
  ]

module _ {F : Frames} (P : StompParser F) (L : Policy) (quote : String → String) (k : ℕ)
    (d : DestinationId) where
  handled :
      (m : Active) (e : ClientEvent F) (w : Shared F)
      → Registers d w (handle_event P quote (session_with P L anyone quote k m) e w).1
  unfolding handle_event
  handled m (ClientEvent.client_frame (ok (ClientFrame.send f))) w =
      elim (Option-cases (P.send_body f)) [
        | inl e ↦ ground (arith, Registers-refl d w)
        | inr (body, e) ↦ ground (
          arith,
          send-Registers d k (from_str (P.send_destination f))
              (record { sender_message_id = none; body = body }) w,
        )
      ]
  handled m (ClientEvent.client_frame (ok (ClientFrame.unsubscribe f))) w =
      elim (Option-cases (get_active (from_str (P.unsubscribe_id f)) m)) [
        | inl e ↦ ground (arith, Registers-queues d k ClientEvent.close w)
        | inr ((e, i), found) ↦ ground (arith, unsubscribe-Registers d k e i w)
      ]
  handled m (ClientEvent.client_frame (ok (ClientFrame.connect f))) w =
      Registers-queues d k ClientEvent.close w
  handled m (ClientEvent.client_frame (err x)) w = Registers-queues d k ClientEvent.close w
  handled m (ClientEvent.error x) w = Registers-queues d k ClientEvent.close w
  handled m (ClientEvent.client_frame (ok frame)) w = record {
    stays = λ h. h;
    is_known = inr refl;
    none_ends = refl;
  }
  handled m e w = Registers-refl d w

  -- A handler posts to no destination that the registry does not have.
  pub handle_event-Registers :
      (s : Session F) (e : ClientEvent F) (w : Shared F)
      → IsAsMade k s
      → Registers d w (handle_event P quote s e w).1
  handle_event-Registers s e w same =
      subst (λ s. Registers d w (handle_event P quote s e w).1) (sym same)
        (handled s.active_subscriptions_by_client_id e w)
