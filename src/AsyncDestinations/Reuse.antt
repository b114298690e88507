-- ===== src/AsyncDestinations/Reuse.antt =====
-- A destination of src/asynchronous/destinations.rs is made once and then shared.
use little_stomper.Prelude.{◌<>◌, ◌≡◌, Option, none, some, arith, ite}
use little_stomper.Prelude.Effects.{err, done}
use little_stomper.Error
use little_stomper.Ids.{SubscriptionId, DestinationId, display, StringId-discrete}
use little_stomper.Destinations.{InboundMessage, Subscriber, Sender, Destination}
use little_stomper.AsyncDestinations.Registry.{
  AsyncDestinations, IsVersionedMap, subscribe_task, send, unsubscribe,
}

module _ {W C : Type 0} (d : AsyncDestinations W C)
    (law : IsVersionedMap d.destinations d.destination_factory) (k : DestinationId) where
  -- What the map holds for the id.
  abbrev pub held : W → Option (Destination W C)
  held = d.destinations.get_if_present k

  -- The first subscription to an id runs the factory, and, if it returns, stores what it makes and
  -- subscribes there; the map then has that destination for the id, and what it had for every other.
  pub subscribe_task-creates :
      (i : Option SubscriptionId) (s : Subscriber W) (c : C) (v : Destination W C) (w u : W)
      → held w ≡ none
      → d.destination_factory k w ≡ (done v, u)
      → (subscribe_task d k i s c w ≡ v.subscribe i s c (law.store k v u))
        × ((q : DestinationId)
            → d.destinations.get_if_present q (law.store k v u)
              ≡ ite (StringId-discrete k q) (some v) (d.destinations.get_if_present q u))
  unfolding subscribe_task
  subscribe_task-creates i s c v w u absent made =
      (ground (arith, law.get_absent k w absent), λ q. law.get_if_present-store k q v w u made)

  -- While the map has a destination for the id, subscribing, sending and unsubscribing all go to
  -- that destination, and the factory is not run.
  pub held-shared :
      (v : Destination W C) (w : W)
      → held w ≡ some v
      → ((i : Option SubscriptionId) (s : Subscriber W) (c : C)
          → subscribe_task d k i s c w ≡ v.subscribe i s c w)
        × ((m : InboundMessage) (s : Sender W) (c : C) → send d k m s c w ≡ v.send m s c w)
        × ((j : SubscriptionId) (s : Subscriber W) (c : C)
            → unsubscribe d k j s c w ≡ v.unsubscribe j s c w)
  unfolding subscribe_task send unsubscribe
  held-shared v w h = (
    λ i s c. ground (arith, law.get_present k v w h),
    λ m s c. ground arith,
    λ j s c. ground arith,
  )

  -- While the map has no destination for the id, a message is refused to its sender with an error that
  -- names the id, and an unsubscription does nothing; neither makes a destination.
  pub send-unknown :
      (m : InboundMessage) (s : Sender W) (j : SubscriptionId) (t : Subscriber W) (c : C) (w : W)
      → held w ≡ none
      → (send d k m s c w
          ≡ s.send_callback m.sender_message_id
              (err (Error.new ("Unknown destination '" <> display k <> "'")))
              w)
        × (unsubscribe d k j t c w ≡ (done tt, w))
  unfolding send unsubscribe
  send-unknown m s j t c w h = (ground arith, ground arith)
