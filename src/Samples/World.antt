-- ===== src/Samples/World.antt =====
-- A world with one session's channel, one timer's and one destination's, for tests.
use little_stomper.Prelude.{
  ℕ, suc, String, ◌≡◌, refl, some, List, [], ◌∷◌, ◌++◌, Bool, true, false, arith, Bytes, inl, inr,
  if◌then◌else◌, Bool-cases,
}
use little_stomper.Prelude.Effects.{ok, err, Unit₀, pure, done}
use little_stomper.Ids.{SubscriptionId, DestinationId, from_str}
use little_stomper.Client.{DefaultClient, default_client, default_client_methods}
use little_stomper.Destinations.{Destinations, OutboundMessage}
use little_stomper.Tokio.{UnboundedSender, IsSender, IsChannel, IsApart}
use little_stomper.Timer.Resetter.{ResettableTimerCommand}
use little_stomper.InMemory.Backend.{
  DestinationAction, Subscription, InMemDestinationBackend, to_send_fn,
}
use little_stomper.InMemory.Handle.{InMemDestination}
use little_stomper.Session.Events.{AsyncStompClient, ClientEvent, as_subscriber}
use little_stomper.Session.Handler
use little_stomper.Session.Handler.{ClientSession}
use little_stomper.Session.Connect.{Runtime}
use little_stomper.Session.Stream.{Sink}
use little_stomper.Samples.Protocol.{frames}

pub record World : Type 0 where
  pub events : List (ClientEvent frames)
  pub is_open : Bool
  pub resets : ℕ
  pub actions : ℕ
  pub written : List Bytes

abbrev pub quiet : World
quiet = record { events = []; is_open = true; resets = 0; actions = 0; written = [] }

abbrev pub gone : World
gone = record quiet { is_open = false }

abbrev event_sender : UnboundedSender World (ClientEvent frames)
event_sender = record {
  send =
      λ e w. if w.is_open then (ok tt, record w { events = w.events ++ (e ∷ []) }) else (err e, w);
}

abbrev pub queue : World → List (ClientEvent frames)
queue w = w.events

abbrev pub open_now : World → Bool
open_now w = w.is_open

send-event_sender :
    (e : ClientEvent frames) (w : World)
    → w.is_open ≡ true
    → ((event_sender.send e w).0 ≡ ok tt)
      × (queue (event_sender.send e w).1 ≡ queue w ++ (e ∷ []))
      × (open_now (event_sender.send e w).1 ≡ true)
send-event_sender e w h = ground arith

pub event_sender-IsChannel : IsChannel event_sender queue open_now
event_sender-IsChannel = record {
  send_open = send-event_sender;
  send_closed = λ e w h. ground arith;
}

abbrev timer_sender : UnboundedSender World ResettableTimerCommand
timer_sender = record { send = λ command w. (ok tt, record w { resets = suc w.resets }) }

pub timer_sender-IsApart : IsApart timer_sender queue open_now
timer_sender-IsApart = record { keeps = λ command w. (refl, refl) }

abbrev pub action_sender : UnboundedSender World (DestinationAction World)
action_sender = record {
  send = λ a w. if w.is_open then (ok tt, record w { actions = suc w.actions }) else (err a, w);
}

pub action_sender-IsSender : IsSender action_sender
action_sender-IsSender = record {
  sends = λ a w. elim (Bool-cases w.is_open) [ inl e ↦ ground arith | inr e ↦ ground arith ];
}

abbrev pub proxy : AsyncStompClient World frames
proxy = record { sender = event_sender }

abbrev pub idle_destinations : Destinations World DefaultClient
idle_destinations = record {
  subscribe = λ d i s c. pure tt;
  unsubscribe = λ d i s c. pure tt;
  send = λ d m s c. pure tt;
}

abbrev pub news : DestinationId
news = from_str "news"

abbrev pub my_id : SubscriptionId
my_id = from_str "mine"

abbrev pub its_id : SubscriptionId
its_id = from_str "u-1"

abbrev pub session : ClientSession World DefaultClient frames
session =
    Handler.new idle_destinations proxy (record { sender = timer_sender })
      (record { sender = timer_sender }) default_client

-- Each new id is the same; what asked for it is counted as an action.
abbrev pub new_v4 : World → String × World
new_v4 w = ("u-2", record w { actions = suc w.actions })

abbrev pub subscription : Subscription World
subscription = record {
  id = its_id;
  subscriber_sub_id = some my_id;
  send_fn = to_send_fn (as_subscriber proxy);
}

abbrev pub backend : InMemDestinationBackend World
backend = record { id = news; subscriptions = (its_id, subscription) ∷ [] }

abbrev pub open_handle : InMemDestination World
open_handle = record { id = news; sender = action_sender }

abbrev pub closed_handle : InMemDestination World
closed_handle = record { id = news; sender = record { send = λ a w. (err a, w) } }

abbrev pub hello : OutboundMessage
hello = record { destination = news; message_id = from_str "u-2"; body = b'h' ∷ [] }

abbrev pub sink : Sink World
sink = record {
  send = λ bytes w. (done (ok tt), record w { written = w.written ++ (bytes ∷ []) });
  close = λ w. (done (ok tt), record w { is_open = false });
}

abbrev pub runtime : Runtime World frames
runtime = record {
  Receiver = Unit₀;
  JoinHandle = Unit₀;
  client_channel = λ w. (event_sender, w);
  timer_channel = λ w. ((timer_sender, tt), w);
  spawn_on_tick = λ t work w. w;
  sleep = λ t w. w;
}
