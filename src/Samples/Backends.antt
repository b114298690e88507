-- ===== src/Samples/Backends.antt =====
-- The backend and the handle of a destination, with the session that subscribed there.
use little_stomper.Prelude.{All, ◌≡◌, refl, none, some, [], ◌∷◌}
use little_stomper.Prelude.Effects.{ok, err, pure, done, panic, ◌>>=◌, ◌>>◌, Ensures}
use little_stomper.Prelude.HashMap
use little_stomper.Ids.{StringId-discrete}
use little_stomper.Error
use little_stomper.Client.{default_client}
use little_stomper.Destinations.{InboundMessage}
use little_stomper.InMemory.Backend.{
  DestinationAction, Received, to_subscribe_callback, to_send_fn, to_unsubscribe_callback,
  to_send_callback, send_message, handle_action, serve,
}
use little_stomper.InMemory.Handle.{subscribe, send, unsubscribe}
use little_stomper.InMemory.Validity.{IsValid, serve-IsValid}
use little_stomper.InMemory.Delivery.{retain_reached}
use little_stomper.InMemory.Actions.{send_message-retain_reached}
use little_stomper.InMemory.Totality.{IsCalmAction, IsCalmBackend, Returns}
use little_stomper.InMemory.Reports.{Told, requests-reported}
use little_stomper.Session.Events
use little_stomper.Session.Events.{ClientEvent, as_subscriber, as_sender, no_identifier}
use little_stomper.Exchange.Delivery.{Owned, notices}
use little_stomper.Exchange.Sessions.{subscribes, sends, closes, serve-IsPosted}
use little_stomper.Exchange.Faults.{serve-unsubscribe_twice, unsubscribe-closed}
use little_stomper.Samples.Protocol.{frames}
use little_stomper.Samples.World.{
  World, quiet, gone, queue, open_now, event_sender-IsChannel, action_sender-IsSender, proxy, news,
  my_id, its_id, new_v4, subscription, backend, open_handle, closed_handle, hello,
}

backend-IsValid : IsValid backend
unfolding HashMap.get
backend-IsValid = record { distinct = (refl, tt); keyed = (refl, tt) }

abbrev unsubscribe_mine : DestinationAction World
unsubscribe_mine =
    DestinationAction.unsubscribe its_id (to_unsubscribe_callback (as_subscriber proxy))

abbrev same_world : World → World
same_world w = w

abbrev two_requests : Received World
two_requests = (same_world, unsubscribe_mine) ∷ (same_world, unsubscribe_mine) ∷ []

-- The world after the confirmation of the first request.
abbrev confirmed : World
confirmed = record quiet { events = ClientEvent.unsubscribed my_id (ok its_id) ∷ [] }

serve-unsubscribe_twice_example :
    (handle_action new_v4 backend unsubscribe_mine quiet
      ≡ (done (some (record backend { subscriptions = [] })), confirmed))
    × (serve new_v4 backend two_requests quiet ≡ (panic no_identifier, confirmed))
unfolding HashMap.get HashMap.remove StringId-discrete
serve-unsubscribe_twice_example =
    serve-unsubscribe_twice proxy new_v4 backend its_id my_id subscription same_world same_world []
      quiet refl refl

unsubscribe-closed_example :
    unsubscribe closed_handle its_id (as_subscriber proxy) default_client quiet
    ≡ (panic no_identifier, quiet)
unsubscribe-closed_example =
    unsubscribe-closed proxy closed_handle default_client its_id quiet (λ a. refl)

abbrev greeting : InboundMessage
greeting = record { sender_message_id = none; body = b'h' ∷ [] }

send_message-retain_reached_example :
    send_message new_v4 backend greeting (to_send_callback (as_sender proxy)) quiet
    ≡ (do
      kept ← retain_reached backend.subscriptions hello
      to_send_callback (as_sender proxy) none (ok hello.message_id)
      pure (record backend { subscriptions = kept }))
        (record quiet { actions = 1 })
send_message-retain_reached_example =
    send_message-retain_reached new_v4 backend greeting (to_send_callback (as_sender proxy)) quiet
      backend-IsValid

abbrev mine : Owned proxy queue open_now event_sender-IsChannel hello backend.subscriptions
mine = (record { sends = refl; client_id = my_id; named = refl }, tt)

abbrev all_actions : Received World
all_actions =
    (
      same_world,
      DestinationAction.subscribe (some my_id) (to_subscribe_callback (as_subscriber proxy))
          (to_send_fn (as_subscriber proxy)),
    )
    ∷ (same_world, DestinationAction.send greeting (to_send_callback (as_sender proxy)))
    ∷ (same_world, unsubscribe_mine)
    ∷ (same_world, DestinationAction.close)
    ∷ two_requests

serve-IsValid_example : Ensures (λ r. IsValid r.0) (serve new_v4 backend all_actions quiet).0
serve-IsValid_example = serve-IsValid new_v4 backend all_actions quiet backend-IsValid

backend-IsCalm : IsCalmBackend backend
unfolding Events.send
backend-IsCalm = (λ out w. (_, _, refl, tt), tt)

abbrev calm_actions : Received World
calm_actions =
    (
      same_world,
      DestinationAction.subscribe (some my_id) (to_subscribe_callback (as_subscriber proxy))
          (to_send_fn (as_subscriber proxy)),
    )
    ∷ (same_world, DestinationAction.send greeting (to_send_callback (as_sender proxy)))
    ∷ (same_world, DestinationAction.close)
    ∷ []

calm_actions-All : All (λ x. IsCalmAction x.1) calm_actions
unfolding Events.send Events.subscribe_callback
calm_actions-All = (
  (λ d r w. (_, _, refl, tt), λ j out w. (_, _, refl, tt)),
  (λ o r w. (_, _, refl, tt), (tt, tt)),
)

calm_served : Returns (λ r. IsCalmBackend r.0) (serve new_v4 backend calm_actions)
calm_served =
    serve-IsPosted frames new_v4 backend calm_actions
      ((proxy, record { sends = refl; client_id = my_id; named = refl }), tt)
      (subscribes proxy my_id, (sends proxy greeting, (closes, tt)))

closed_reported :
    let told = Told open_handle action_sender-IsSender default_client in
    told
      (DestinationAction.subscribe
        (some my_id)
        (to_subscribe_callback (as_subscriber proxy))
        (to_send_fn (as_subscriber proxy)))
      (subscribe open_handle (some my_id) (as_subscriber proxy) default_client)
      (to_subscribe_callback
        (as_subscriber proxy)
        news
        (some my_id)
        (err (Error.new "Subscribe failed")))
      gone
    × told unsubscribe_mine
        (unsubscribe open_handle its_id (as_subscriber proxy) default_client)
        (to_unsubscribe_callback (as_subscriber proxy) none (err (Error.new "Unsubscribe failed")))
        gone
    × told
        (DestinationAction.send greeting (to_send_callback (as_sender proxy)))
        (send open_handle greeting (as_sender proxy) default_client)
        (to_send_callback (as_sender proxy) none (err (Error.new "Send failed")))
        gone
closed_reported =
    requests-reported open_handle action_sender-IsSender default_client (some my_id) its_id greeting
      (as_subscriber proxy) (as_sender proxy) gone

-- The message reaches the session's queue under the client's own id.
delivered :
    (send_message new_v4 backend greeting (to_send_callback (as_sender proxy)) quiet).1.events
    ≡ notices proxy queue open_now event_sender-IsChannel hello backend.subscriptions mine
unfolding send_message Events.send
delivered = refl
