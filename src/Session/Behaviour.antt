-- ===== src/Session/Behaviour.antt =====
-- What `handle_event` of src/asynchronous/client.rs does, event by event: the map of active
-- subscriptions, and the end of a session.
use little_stomper.Prelude.{
  String, ◌≡◌, refl, Option, none, some, Bool, true, false, arith, ite, not,
}
use little_stomper.Prelude.Effects.{
  Outcome, Result, ok, err, Unit₀, done, panic, pure, and_then, ◌>>◌, Ensures,
}
use little_stomper.Prelude.HashMap.{get-insert, get-remove}
use little_stomper.Client.{Client}
use little_stomper.Error.{StomperError}
use little_stomper.Ids.{SubscriptionId, DestinationId, StringId-discrete}
use little_stomper.Stomp.{Frames, StompParser, ClientFrame}
use little_stomper.Timer.Resetter.{ResettableTimerCommand, or_error, reset_timer}
use little_stomper.Session.Events.{ClientEvent, Response}
use little_stomper.Session.Handler.{
  ClientSession, get_active, handle_event, client_frame, error, expect_reset, server_message,
}
use little_stomper.Session.Stream.{not_dead}

-- The entry of `id` after an event, from the entry before it.
abbrev pub entry_after :
    {F : Frames}
    → ClientEvent F
    → SubscriptionId
    → Option (DestinationId × SubscriptionId)
    → Option (DestinationId × SubscriptionId)
entry_after (ClientEvent.subscribed d c (ok i)) id old =
    ite (StringId-discrete c id) (some (d, i)) old
entry_after (ClientEvent.unsubscribed c (ok _)) id old = ite (StringId-discrete c id) none old
entry_after _ id old = old

abbrev pub is_ok {ℓ} : {A E : Type ℓ} → Result A E → Bool
is_ok (ok _) = true
is_ok (err _) = false

-- `Close`, and the frame DISCONNECT.
abbrev pub ends : {F : Frames} → ClientEvent F → Bool
ends ClientEvent.close = true
ends (ClientEvent.client_frame (ok (ClientFrame.disconnect _))) = true
ends _ = false

module _ {W C : Type 0} ⦃methods : Client C⦄ {F : Frames} (P : StompParser F)
    (quote : String → String) (s : ClientSession W C F) where
  -- The session before and after an event.
  abbrev pub FollowsEvent : ClientEvent F → ClientSession W C F × Response F → Type 0
  FollowsEvent e r =
      ((id : SubscriptionId)
        → get_active id r.0.active_subscriptions_by_client_id
          ≡ entry_after e id (get_active id s.active_subscriptions_by_client_id))
      × (r.0
          ≡ record s { active_subscriptions_by_client_id = r.0.active_subscriptions_by_client_id })

  unchanged :
      (o : Outcome (Response F)) (w : W)
      → Ensures (FollowsEvent ClientEvent.close) (and_then o (λ r. pure (s, r)) w).0
  unchanged (done r) w = (λ id. refl, refl)
  unchanged (panic why) w = tt

  after_reset :
      (sent : Result Unit₀ StomperError) (r : Response F) (w : W)
      → Ensures (FollowsEvent ClientEvent.close) ((expect_reset sent >> pure (s, r)) w).0
  after_reset (ok x) r w = (λ id. refl, refl)
  after_reset (err x) r w = tt

  -- Of the handlers that return: a callback that reports success enters or removes its subscription;
  -- no other event, and no failed callback, touches an entry; and the other fields of the session
  -- never change.
  pub handle_event-FollowsEvent :
      (e : ClientEvent F) (w : W) → Ensures (FollowsEvent e) (handle_event P quote s e w).0
  unfolding handle_event
  handle_event-FollowsEvent (ClientEvent.subscribed d c (ok i)) w =
      (λ id. get-insert StringId-discrete c id (d, i) s.active_subscriptions_by_client_id, refl)
  handle_event-FollowsEvent (ClientEvent.subscribed d c (err x)) w = (λ id. refl, refl)
  handle_event-FollowsEvent (ClientEvent.unsubscribed c (ok i)) w =
      (λ id. get-remove StringId-discrete c id s.active_subscriptions_by_client_id, refl)
  handle_event-FollowsEvent (ClientEvent.unsubscribed c (err x)) w = (λ id. refl, refl)
  handle_event-FollowsEvent (ClientEvent.client_frame result) w =
      let v = (reset_timer s.client_heartbeat_resetter w).1 in
      let o = client_frame P quote s result v in unchanged o.0 o.1
  handle_event-FollowsEvent (ClientEvent.server_message c m) w =
      let (sent, v) = s.server_heartbeat_resetter.sender.send ResettableTimerCommand.reset w in
      after_reset (or_error sent "Error resetting stream") (server_message P c m) v
  handle_event-FollowsEvent (ClientEvent.error m) w = let o = error P s m w in unchanged o.0 o.1
  handle_event-FollowsEvent (ClientEvent.connected h) w = (λ id. refl, refl)
  handle_event-FollowsEvent ClientEvent.client_heartbeat w = (λ id. refl, refl)
  handle_event-FollowsEvent ClientEvent.heartbeat w = (λ id. refl, refl)
  handle_event-FollowsEvent ClientEvent.close w = (λ id. refl, refl)

  -- Of the handlers that return: a session dies of `Close` and of DISCONNECT, and of nothing else; and
  -- none yields an error.
  pub handle_event-ends :
      (e : ClientEvent F) (w : W)
      → Ensures
          (λ r. (not_dead r.1 ≡ not (ends e)) × (is_ok r.1 ≡ true))
          (handle_event P quote s e w).0
  unfolding handle_event not_dead
  handle_event-ends e w = ground arith
