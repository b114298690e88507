-- ===== src/System/Broker.antt =====
-- A destination as plain data: which client asked for which subscription, under which id. What an
-- in-memory destination should do with each action, with no closures and no loops over sends.
use little_stomper.Prelude.{
  ℕ, String, ◌≡◌, Option, none, some, List, [], ◌∷◌, ◌++◌, map, Bool, if◌then◌else◌, ite,
  ℕ_discrete,
}
use little_stomper.Prelude.Effects.{Outcome, done, panic, ok}
use little_stomper.Prelude.HashMap
use little_stomper.Prelude.HashMap.{HashMap}
use little_stomper.Ids.{SubscriptionId, DestinationId, StringId-discrete, from_str}
use little_stomper.Destinations.{OutboundMessage, InboundMessage}
use little_stomper.Stomp.{Frames}
use little_stomper.InMemory.Backend.{Subscription, Subscriptions, to_send_fn}
use little_stomper.Session.Events.{ClientEvent, as_subscriber}
use little_stomper.System.Shared.{
  Shared, Post, subscribes, unsubscribes, sends, closes, proxy, events_to, new_id,
}
use little_stomper.System.Moves.{Backend}
pub mod Sending
pub mod Refinement
pub mod Untouched
pub mod Orders
pub mod Iteration

-- For each id, the session and the id that its client chose.
abbrev pub Roster : Type 0
Roster = HashMap SubscriptionId (ℕ × SubscriptionId)

-- The ids that the client of a session chose, in order.
abbrev pub client_ids : Roster → ℕ → List SubscriptionId
client_ids [] j = []
client_ids ((i, (k, c)) ∷ r) j = let rest = client_ids r j in ite (ℕ_discrete k j) (c ∷ rest) rest

-- The subscriptions of sessions whose channels are open.
abbrev pub reached : (ℕ → Bool) → Roster → Roster
reached is_open [] = []
reached is_open ((i, (k, c)) ∷ r) =
    let rest = reached is_open r in if is_open k then (i, (k, c)) ∷ rest else rest

module _ {F : Frames} where
  -- The events that a session should get of a message: one for each of its subscriptions.
  abbrev pub notices : OutboundMessage → List SubscriptionId → List (ClientEvent F)
  notices out = map (λ c. ClientEvent.server_message c out)

  -- The channels after a message.
  abbrev pub told : OutboundMessage → Roster → Shared F → ℕ → List (ClientEvent F)
  told out r w j = if w.is_open j then w.queues j ++ notices out (client_ids r j) else w.queues j

  abbrev pub notify : ℕ → ClientEvent F → Shared F → Shared F
  notify k e w = ((events_to k).send e w).1

module _ {F : Frames} (name : ℕ → String) (d : DestinationId) where
  -- The message that clients get of one that was sent.
  abbrev pub outbound : InboundMessage → Shared F → OutboundMessage
  outbound m w = record { destination = d; message_id = from_str (name w.next); body = m.body }

  -- A request to remove what is not there ends the task.
  abbrev pub without :
      ℕ
      → SubscriptionId
      → Roster
      → Option (ℕ × SubscriptionId)
      → Shared F
      → Option Roster × Shared F
  without k i r none w = (none, w)
  without k i r (some (owner, c)) w =
      (some (HashMap.remove StringId-discrete i r), notify k (ClientEvent.unsubscribed c (ok i)) w)

  -- What the destination does with an action; `none` if its task ends.
  unfoldable pub broker : Post → Roster → Shared F → Option Roster × Shared F
  broker (subscribes k none) r w = (none, (new_id name w).1)
  broker (subscribes k (some c)) r w =
      let (uuid, w') = new_id name w in
      let id = from_str uuid in
      (
        some (HashMap.insert StringId-discrete id (k, c) r),
        notify k (ClientEvent.subscribed d c (ok id)) w',
      )
  broker (unsubscribes k i) r w = without k i r (HashMap.get StringId-discrete i r) w
  broker (sends k m) r w =
      (some (reached w.is_open r), record (new_id name w).1 { queues = told (outbound m w) r w })
  broker closes r w = (none, w)

module _ {F : Frames} where
  -- The closures of a subscription are those of a session, on the id of its client.
  abbrev pub IsOf : ℕ → SubscriptionId → Subscription (Shared F) → Type 0
  IsOf k c s = (s.send_fn ≡ to_send_fn (as_subscriber (proxy k))) × (s.subscriber_sub_id ≡ some c)

  -- Entry by entry.
  abbrev pub Represents : Roster → Subscriptions (Shared F) → Type 0
  Represents [] [] = Unit
  Represents ((i, (k, c)) ∷ r) ((j, s) ∷ m) = (i ≡ j) × IsOf k c s × Represents r m
  Represents _ _ = ⊥

  abbrev pub Matches : DestinationId → Option Roster → Outcome (Option (Backend F)) → Type 0
  Matches d none (done none) = Unit
  Matches d none (panic why) = Unit
  Matches d (some r) (done (some b)) = (b.id ≡ d) × Represents r b.subscriptions
  Matches d _ _ = ⊥
