-- ===== src/System/Shared.antt =====
-- The world that sessions and destinations share: the channels of sessions, the channels of the
-- in-memory destinations, the registry, and the tasks that were spawned and have not run yet.
use little_stomper.Prelude.{
  ℕ, suc, String, Option, none, some, List, [], ◌∷◌, ◌++◌, Bool, true, if◌then◌else◌, ℕ_discrete,
}
use little_stomper.Prelude.Effects.{Act, ok, err, Unit₀, pure, done, ◌>>=◌}
use little_stomper.Client.{DefaultClient, default_client}
use little_stomper.Ids.{SubscriptionId, DestinationId, StringId-discrete}
use little_stomper.Destinations.{InboundMessage, Destination, Destinations}
use little_stomper.Stomp.{Frames}
use little_stomper.Tokio.{UnboundedSender, NewUuid}
use little_stomper.InMemory.Backend.{
  DestinationAction, to_subscribe_callback, to_send_fn, to_unsubscribe_callback, to_send_callback,
}
use little_stomper.InMemory.Handle.{as_destination}
use little_stomper.AsyncDestinations.Registry.{
  AsyncFactory, AsyncDestinations, as_destinations, subscribe_task,
}
use little_stomper.Session.Events.{ClientEvent, AsyncStompClient, as_subscriber, as_sender}
use little_stomper.System.Family.{update}

-- An action in the channel of a destination. Its closures are those of the session that posted it,
-- so that the session's number stands for them.
pub data Post : Type 0 where
  subscribes : ℕ → Option SubscriptionId → Post
  unsubscribes : ℕ → SubscriptionId → Post
  sends : ℕ → InboundMessage → Post
  closes : Post

-- A task that a SUBSCRIBE spawned: for which session, with which arguments.
pub record SubscribeTask : Type 0 where
  pub who : ℕ
  pub destination : DestinationId
  pub client_id : Option SubscriptionId

pub record Shared (F : Frames) : Type 0 where
  pub queues : ℕ → List (ClientEvent F)
  pub is_open : ℕ → Bool
  pub tasks : List SubscribeTask
  pub made : DestinationId → Bool
  pub posts : DestinationId → List Post
  pub is_closed : DestinationId → Bool
  pub next : ℕ

module _ {F : Frames} where
  -- The channel of a session, and its proxy.
  abbrev pub events_to : ℕ → UnboundedSender (Shared F) (ClientEvent F)
  events_to k = record {
    send = λ e w.
        if w.is_open k
        then (ok tt, record w { queues = update ℕ_discrete k (w.queues k ++ (e ∷ [])) w.queues })
        else (err e, w);
  }

  abbrev pub proxy : ℕ → AsyncStompClient (Shared F) F
  proxy k = record { sender = events_to k }

  -- What the channel of a destination keeps of an action of a session, and the action again.
  abbrev pub post_of : ℕ → DestinationAction (Shared F) → Post
  post_of k (DestinationAction.subscribe i callback send_fn) = subscribes k i
  post_of k (DestinationAction.unsubscribe i callback) = unsubscribes k i
  post_of k (DestinationAction.send m callback) = sends k m
  post_of k DestinationAction.close = closes

  abbrev pub action_of : Post → DestinationAction (Shared F)
  action_of (subscribes k i) =
      DestinationAction.subscribe i (to_subscribe_callback (as_subscriber (proxy k)))
        (to_send_fn (as_subscriber (proxy k)))
  action_of (unsubscribes k i) =
      DestinationAction.unsubscribe i (to_unsubscribe_callback (as_subscriber (proxy k)))
  action_of (sends k m) = DestinationAction.send m (to_send_callback (as_sender (proxy k)))
  action_of closes = DestinationAction.close

  -- The handle of a destination in the hands of a session.
  abbrev pub actions_to :
      ℕ → DestinationId → UnboundedSender (Shared F) (DestinationAction (Shared F))
  actions_to k d = record {
    send = λ a w. if w.is_closed d then (err a, w) else (
      ok tt,
      record w { posts = update StringId-discrete d (w.posts d ++ (post_of k a ∷ [])) w.posts },
    );
  }

  abbrev pub handle_of : ℕ → DestinationId → Destination (Shared F) DefaultClient
  handle_of k d = as_destination (record { id = d; sender = actions_to k d })

  -- The registry: `made` says which destinations it has.
  abbrev pub found : ℕ → DestinationId → Shared F → Option (Destination (Shared F) DefaultClient)
  found k d w = if w.made d then some (handle_of k d) else none

  abbrev pub found_or_made :
      DestinationId
      → AsyncFactory (Shared F) DestinationId (Destination (Shared F) DefaultClient)
      → Option (Destination (Shared F) DefaultClient)
      → Act (Shared F) (Destination (Shared F) DefaultClient)
  found_or_made d factory (some v) = pure v
  found_or_made d factory none =
      factory d >>= λ v w. (done v, record w { made = update StringId-discrete d true w.made })

  abbrev pub registry : ℕ → AsyncDestinations (Shared F) DefaultClient
  registry k = record {
    destinations = record {
      get = λ d factory w. found_or_made d factory (found k d w) w;
      get_if_present = found k;
    };
    destination_factory = λ d. pure (handle_of k d);
  }

  -- The registry as a session calls it: `subscribe` leaves its task to run at any later time.
  abbrev pub destinations_of : ℕ → Destinations (Shared F) DefaultClient
  destinations_of k = record (as_destinations (λ task w. w) (registry k)) {
    subscribe = λ d i subscriber client w. (
      done tt,
      record w { tasks = w.tasks ++ (record { who = k; destination = d; client_id = i } ∷ []) },
    );
  }

  -- `subscribe_task` for the session that spawned the task.
  abbrev pub run_task : SubscribeTask → Act (Shared F) Unit₀
  run_task t =
      subscribe_task (registry t.who) t.destination t.client_id (as_subscriber (proxy t.who))
        default_client

  -- Ids are made from a counter, by the given names.
  abbrev pub new_id : (ℕ → String) → NewUuid (Shared F)
  new_id name w = (name w.next, record w { next = suc w.next })
