-- ===== src/InMemory/Handle.antt =====
-- `InMemDestination` of src/asynchronous/inmemory.rs: the handle that clients of a destination
-- share. An action that the channel refuses is reported to its callback at once.
use little_stomper.Prelude.{Option, none}
use little_stomper.Prelude.Effects.{Act, Result, err, Unit₀, pure, done}
use little_stomper.Error
use little_stomper.Error.{StomperError}
use little_stomper.Ids.{SubscriptionId, DestinationId}
use little_stomper.Destinations.{InboundMessage, Subscriber, Sender, Destination}
use little_stomper.Client.{DefaultClient}
use little_stomper.Tokio.{UnboundedSender}
use little_stomper.InMemory.Backend.{
  DestinationAction, InMemDestinationBackend, start, to_subscribe_callback, to_send_fn,
  to_unsubscribe_callback, to_send_callback,
}

pub record InMemDestination (W : Type 0) : Type 0 where
  pub id : DestinationId
  pub sender : UnboundedSender W (DestinationAction W)

module _ {W : Type 0} where
  abbrev perform_action :
      InMemDestination W → DestinationAction W → W → Result Unit₀ (DestinationAction W) × W
  perform_action d action = d.sender.send action

  -- `if let Err(SendError(DestinationAction::Subscribe(…)))`, and so for the others.
  subscribe_refused : InMemDestination W → Result Unit₀ (DestinationAction W) → Act W Unit₀
  subscribe_refused d (err (DestinationAction.subscribe sub_id callback _)) =
      callback d.id sub_id (err (Error.new "Subscribe failed"))
  subscribe_refused d _ = pure tt

  send_refused : Result Unit₀ (DestinationAction W) → Act W Unit₀
  send_refused (err (DestinationAction.send message callback)) =
      callback message.sender_message_id (err (Error.new "Send failed"))
  send_refused _ = pure tt

  unsubscribe_refused : Result Unit₀ (DestinationAction W) → Act W Unit₀
  unsubscribe_refused (err (DestinationAction.unsubscribe _ callback)) =
      callback none (err (Error.new "Unsubscribe failed"))
  unsubscribe_refused _ = pure tt

  unfoldable pub subscribe :
      InMemDestination W → Option SubscriptionId → Subscriber W → DefaultClient → Act W Unit₀
  unfolding subscribe_refused
  subscribe d sub_id subscriber _ w =
      let action =
        DestinationAction.subscribe sub_id (to_subscribe_callback subscriber)
          (to_send_fn subscriber) in
      let (r, w') = perform_action d action w in subscribe_refused d r w'

  unfoldable pub send : InMemDestination W → InboundMessage → Sender W → DefaultClient → Act W Unit₀
  unfolding send_refused
  send d message sender _ w =
      let (r, w') = perform_action d (DestinationAction.send message (to_send_callback sender)) w in
      send_refused r w'

  unfoldable pub unsubscribe :
      InMemDestination W → SubscriptionId → Subscriber W → DefaultClient → Act W Unit₀
  unfolding unsubscribe_refused
  unsubscribe d sub_id subscriber _ w =
      let action = DestinationAction.unsubscribe sub_id (to_unsubscribe_callback subscriber) in
      let (r, w') = perform_action d action w in unsubscribe_refused r w'

  -- A refusal is only logged.
  unfoldable pub close : InMemDestination W → Act W Unit₀
  close d w = let (r, w') = perform_action d DestinationAction.close w in (done tt, w')

  -- `impl Destination for InMemDestination`.
  abbrev pub as_destination : InMemDestination W → Destination W DefaultClient
  as_destination d = record {
    subscribe = subscribe d;
    unsubscribe = unsubscribe d;
    send = send d;
    close = close d;
  }

  -- `create`, for the sender of the new channel: the handle, and the backend whose task starts.
  abbrev pub create :
      DestinationId
      → UnboundedSender W (DestinationAction W)
      → InMemDestination W × InMemDestinationBackend W
  create destination_id sender =
      (record { id = destination_id; sender = sender }, start destination_id)
