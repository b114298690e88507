-- ===== src/Session/Unsubscribe.antt =====
-- UNSUBSCRIBE frames and error replies of src/asynchronous/client.rs over the channel by which a
-- session posts events to itself.
use little_stomper.Prelude.{String, ◌<>◌, ◌≡◌, refl, List, [], ◌∷◌, ◌++◌, Bool, true, arith, ◌∙◌}
use little_stomper.Prelude.Effects.{ok, err, pure, ◌>>◌, done}
use little_stomper.Prelude.HashMap.{get-insert_self, get-remove}
use little_stomper.Client.{Client}
use little_stomper.Ids.{SubscriptionId, DestinationId, StringId-discrete, display}
use little_stomper.Stomp.{Frames, StompParser, ClientFrame, ServerFrame}
use little_stomper.Tokio.{IsChannel, IsApart}
use little_stomper.Timer.Resetter.{ResettableTimerCommand}
use little_stomper.Session.Events.{ClientEvent, as_subscriber}
use little_stomper.Session.Handler.{
  ClientSession, nothing, frame_result, subscribed, unsubscribed, unsubscribe, error, handle_event,
  debug_error,
}

module _ {W C : Type 0} ⦃methods : Client C⦄ {F : Frames} (P : StompParser F)
    (s : ClientSession W C F) (d : DestinationId) (c i : SubscriptionId) (w : W) where
  -- Once a destination has confirmed a subscription, UNSUBSCRIBE with the client's id asks that
  -- destination to remove the subscription by the id that the destination gave it, in the
  -- session's own name; the client gets no reply if the destination returns.
  unsubscribe-subscribed :
      let s' = subscribed s d c (ok i) in
      unsubscribe P s' c w
      ≡ (s.destinations.unsubscribe d i (as_subscriber s.client_proxy) s.client >> pure nothing) w
  unfolding unsubscribe subscribed
  unsubscribe-subscribed =
      ground (arith, get-insert_self StringId-discrete c (d, i) s.active_subscriptions_by_client_id)

  -- Once a destination has confirmed the removal, UNSUBSCRIBE with that id is an error that names
  -- the id, whatever was subscribed before.
  unsubscribe-unsubscribed :
      let s' = unsubscribed s c (ok i) in
      unsubscribe P s' c w
      ≡ error P s' ("Attempt to unsubscribe from unknown subscription: " <> display c) w
  unfolding unsubscribe unsubscribed
  unsubscribe-unsubscribed =
      ground (arith, get-remove StringId-discrete c c s.active_subscriptions_by_client_id)

module _ {W C : Type 0} ⦃methods : Client C⦄ {F : Frames} (P : StompParser F)
    (s : ClientSession W C F) (d d' : DestinationId) (c i i' : SubscriptionId) (w : W) where
  -- If destinations have confirmed two subscriptions under one id of the client, UNSUBSCRIBE with it
  -- asks only the second destination, by the id that this one gave; once the removal is confirmed,
  -- UNSUBSCRIBE with it is an error, so that no frame of the client can ask the first.
  pub unsubscribe-subscribed_twice :
      let s' = subscribed (subscribed s d c (ok i)) d' c (ok i') in
      let s'' = unsubscribed s' c (ok i') in
      (unsubscribe P s' c w
        ≡ (s.destinations.unsubscribe d' i' (as_subscriber s.client_proxy) s.client >> pure nothing)
            w)
      × (unsubscribe P s'' c w
          ≡ error P s'' ("Attempt to unsubscribe from unknown subscription: " <> display c) w)
  unfolding subscribed
  unsubscribe-subscribed_twice = (
    unsubscribe-subscribed P (subscribed s d c (ok i)) d' c i' w,
    unsubscribe-unsubscribed P (subscribed (subscribed s d c (ok i)) d' c (ok i')) d' c i' w,
  )

-- The events that are answered by an ERROR frame whatever the session's state.
abbrev IsFault : {F : Frames} → ClientEvent F → Type 0
IsFault (ClientEvent.error message) = Unit
IsFault (ClientEvent.client_frame (err e)) = Unit
IsFault (ClientEvent.client_frame (ok (ClientFrame.connect f))) = Unit
IsFault _ = ⊥

module _ {W C : Type 0} ⦃methods : Client C⦄ {F : Frames} (P : StompParser F)
    (quote : String → String) (s : ClientSession W C F) (queue : W → List (ClientEvent F))
    (is_open : W → Bool) (channel : IsChannel s.client_proxy.sender queue is_open)
    (apart : IsApart s.client_heartbeat_resetter.sender queue is_open) where
  error_closes :
      (message : String) (w : W)
      → is_open w ≡ true
      → queue (error P s message w).1 ≡ queue w ++ (ClientEvent.close ∷ [])
  unfolding error
  error_closes message w o = (channel.send_open ClientEvent.close w o).1

  -- A second CONNECT, a frame that cannot be read and an event `Error` each get an ERROR frame, and
  -- a `Close` is then the last event in the session's open queue, behind all that was there.
  pub handle_event-IsFault :
      (e : ClientEvent F) (w : W)
      → IsFault e
      → is_open w ≡ true
      → (frame : F.ErrorFrame) × ((handle_event P quote s e w).0
          ≡ done (s, frame_result (ServerFrame.error frame)))
        × (queue (handle_event P quote s e w).1 ≡ queue w ++ (ClientEvent.close ∷ []))
  unfolding handle_event
  handle_event-IsFault (ClientEvent.error message) w h o =
      (P.error_from_message message, refl, error_closes message w o)
  handle_event-IsFault (ClientEvent.client_frame (err e)) w h o =
      let v = (s.client_heartbeat_resetter.sender.send ResettableTimerCommand.reset w).1 in
      let message = "Error processing client message: " <> debug_error quote e in
      let (q, k) = apart.keeps ResettableTimerCommand.reset w in
      (P.error_from_message message, refl, error_closes message v (k ∙ o) ∙ rw q)
  handle_event-IsFault (ClientEvent.client_frame (ok (ClientFrame.connect f))) w h o =
      let v = (s.client_heartbeat_resetter.sender.send ResettableTimerCommand.reset w).1 in
      let message : String = "Already connected." in
      let (q, k) = apart.keeps ResettableTimerCommand.reset w in
      (P.error_from_message message, refl, error_closes message v (k ∙ o) ∙ rw q)
  handle_event-IsFault e w h o = absurd h
