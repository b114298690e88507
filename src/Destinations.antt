-- ===== src/Destinations.antt =====
-- src/destinations.rs: messages, and the traits by which sessions and destinations talk. A trait
-- object is the record of its methods; a method acts on the world and may panic.
use little_stomper.Prelude.{Option, Bytes}
use little_stomper.Prelude.Effects.{Act, Result, Unit₀}
use little_stomper.Error.{StomperError}
use little_stomper.Ids.{SubscriptionId, DestinationId, MessageId}

pub record InboundMessage : Type 0 where
  pub sender_message_id : Option MessageId
  pub body : Bytes

pub record OutboundMessage : Type 0 where
  pub destination : DestinationId
  pub message_id : MessageId
  pub body : Bytes

pub record Subscriber (W : Type 0) : Type 0 where
  pub subscribe_callback :
      DestinationId → Option SubscriptionId → Result SubscriptionId StomperError → Act W Unit₀
  pub unsubscribe_callback :
      Option SubscriptionId → Result SubscriptionId StomperError → Act W Unit₀
  pub send :
      SubscriptionId → Option SubscriptionId → OutboundMessage → Act W (Result Unit₀ StomperError)

pub record Sender (W : Type 0) : Type 0 where
  pub send_callback : Option MessageId → Result MessageId StomperError → Act W Unit₀

pub record Destination (W C : Type 0) : Type 0 where
  pub subscribe : Option SubscriptionId → Subscriber W → C → Act W Unit₀
  pub unsubscribe : SubscriptionId → Subscriber W → C → Act W Unit₀
  pub send : InboundMessage → Sender W → C → Act W Unit₀
  pub close : Act W Unit₀

pub record Destinations (W C : Type 0) : Type 0 where
  pub subscribe : DestinationId → Option SubscriptionId → Subscriber W → C → Act W Unit₀
  pub unsubscribe : DestinationId → SubscriptionId → Subscriber W → C → Act W Unit₀
  pub send : DestinationId → InboundMessage → Sender W → C → Act W Unit₀
