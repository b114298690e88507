-- ===== src/AsyncDestinations/Registry.antt =====
-- `AsyncDestinations` of src/asynchronous/destinations.rs, over the map of the async-map crate.
use little_stomper.Prelude.{◌<>◌, ◌≡◌, Option, none, some, ite}
use little_stomper.Prelude.Effects.{Act, err, Unit₀, pure, ◌>>=◌, done}
use little_stomper.Error
use little_stomper.Ids.{SubscriptionId, DestinationId, display, StringId-discrete}
use little_stomper.Destinations.{InboundMessage, Subscriber, Sender, Destination, Destinations}
use little_stomper.Tokio.{Spawn}

-- `AsyncFactory<K, V>`.
abbrev pub AsyncFactory : Type 0 → Type 0 → Type 0 → Type 0
AsyncFactory W K V = K → Act W V

-- `async_map::VersionedMap`, whose content is part of the world.
pub record VersionedMap (W K V : Type 0) : Type 0 where
  pub get : K → AsyncFactory W K V → Act W V
  pub get_if_present : K → W → Option V

-- Its documented behaviour, for the factory that it is used with: `get` returns the value that is
-- there, and else stores and returns the factory's.
pub record IsVersionedMap {W V : Type 0} (m : VersionedMap W DestinationId V)
    (factory : AsyncFactory W DestinationId V) : Type 0 where
  pub store : DestinationId → V → W → W
  pub get_present :
      (k : DestinationId) (v : V) (w : W)
      → m.get_if_present k w ≡ some v
      → m.get k factory w ≡ (done v, w)
  pub get_absent :
      (k : DestinationId) (w : W)
      → m.get_if_present k w ≡ none
      → m.get k factory w ≡ (factory k >>= λ v u. (done v, store k v u)) w
  pub get_if_present-store :
      (k q : DestinationId) (v : V) (w u : W)
      → factory k w ≡ (done v, u)
      → m.get_if_present q (store k v u)
        ≡ ite (StringId-discrete k q) (some v) (m.get_if_present q u)

pub record AsyncDestinations (W C : Type 0) : Type 0 where
  pub destinations : VersionedMap W DestinationId (Destination W C)
  pub destination_factory : AsyncFactory W DestinationId (Destination W C)

module _ {W C : Type 0} where
  -- `start`.
  abbrev pub start :
      VersionedMap W DestinationId (Destination W C)
      → AsyncFactory W DestinationId (Destination W C)
      → AsyncDestinations W C
  start new_map factory = record { destinations = new_map; destination_factory = factory }

  -- The task that `subscribe` spawns.
  unfoldable pub subscribe_task :
      AsyncDestinations W C → DestinationId → Option SubscriptionId → Subscriber W → C → Act W Unit₀
  subscribe_task d destination subscriber_sub_id subscriber client = do
    found ← d.destinations.get destination d.destination_factory
    found.subscribe subscriber_sub_id subscriber client

  unfoldable pub subscribe :
      Spawn W
      → AsyncDestinations W C
      → DestinationId
      → Option SubscriptionId
      → Subscriber W
      → C
      → Act W Unit₀
  unfolding subscribe_task
  subscribe spawn d destination subscriber_sub_id subscriber client w =
      (done tt, spawn (subscribe_task d destination subscriber_sub_id subscriber client) w)

  send_to : DestinationId → InboundMessage → Sender W → C → Option (Destination W C) → Act W Unit₀
  send_to destination message sender client (some found) = found.send message sender client
  send_to destination message sender client none =
      sender.send_callback message.sender_message_id
        (err (Error.new ("Unknown destination '" <> display destination <> "'")))

  unfoldable pub send :
      AsyncDestinations W C → DestinationId → InboundMessage → Sender W → C → Act W Unit₀
  unfolding send_to
  send d destination message sender client w =
      send_to destination message sender client (d.destinations.get_if_present destination w) w

  -- An unknown destination is only logged.
  unsubscribe_from : SubscriptionId → Subscriber W → C → Option (Destination W C) → Act W Unit₀
  unsubscribe_from subscription subscriber client (some found) =
      found.unsubscribe subscription subscriber client
  unsubscribe_from subscription subscriber client none = pure tt

  unfoldable pub unsubscribe :
      AsyncDestinations W C → DestinationId → SubscriptionId → Subscriber W → C → Act W Unit₀
  unfolding unsubscribe_from
  unsubscribe d destination subscription subscriber client w =
      unsubscribe_from subscription subscriber client (d.destinations.get_if_present destination w)
        w

  -- `impl Destinations for AsyncDestinations`.
  abbrev pub as_destinations : Spawn W → AsyncDestinations W C → Destinations W C
  as_destinations spawn d = record {
    subscribe = subscribe spawn d;
    unsubscribe = unsubscribe d;
    send = send d;
  }
