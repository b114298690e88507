-- ===== src/Exchange/Delivery.antt =====
-- A message on its way from a destination to the clients (`send` of the backend in
-- src/asynchronous/inmemory.rs, `Subscriber::send` in src/asynchronous/client.rs).
use little_stomper.Prelude.{
  ◌≡◌, refl, ap, ◌∙◌, sym, some, List, [], ◌∷◌, ◌++◌, Bool, true, false, arith, All,
}
use little_stomper.Prelude.Effects.{ok, err, done}
use mathlib.Core.List.{append-nil, append_assoc}
use little_stomper.Error
use little_stomper.Ids.{SubscriptionId}
use little_stomper.Destinations.{OutboundMessage}
use little_stomper.Stomp.{Frames}
use little_stomper.Tokio.{IsChannel}
use little_stomper.InMemory.Backend.{Subscription, Subscriptions, to_send_fn, send_to}
use little_stomper.InMemory.Delivery.{retain_reached}
use little_stomper.Session.Events.{AsyncStompClient, ClientEvent, as_subscriber, send}

-- The subscription was made by the session with this proxy, under an id of the client.
pub record IsOwnedBy {W : Type 0} {F : Frames} (c : AsyncStompClient W F) (s : Subscription W)
    : Type 0 where
  pub sends : s.send_fn ≡ to_send_fn (as_subscriber c)
  pub client_id : SubscriptionId
  pub named : s.subscriber_sub_id ≡ some client_id

module _ {W : Type 0} {F : Frames} (c : AsyncStompClient W F) (queue : W → List (ClientEvent F))
    (is_open : W → Bool) (channel : IsChannel c.sender queue is_open) (out : OutboundMessage) where
  abbrev pub Owned : Subscriptions W → Type 0
  Owned = All (λ e. IsOwnedBy c e.1)

  -- The events that the client's session should get.
  abbrev pub notices : (m : Subscriptions W) → Owned m → List (ClientEvent F)
  notices [] o = []
  notices (e ∷ m) o = ClientEvent.server_message o.0.client_id out ∷ notices m o.1

  send_to-open :
      (s : Subscription W) (o : IsOwnedBy c s) (w : W)
      → is_open w ≡ true
      → send_to s out w
        ≡ (done (ok tt), (c.sender.send (ClientEvent.server_message o.client_id out) w).1)
  unfolding send
  send_to-open s o w h =
      rw (o.sends, o.named)
        (ground (arith, channel.send_open (ClientEvent.server_message o.client_id out) w h))

  send_to-closed :
      (s : Subscription W) (o : IsOwnedBy c s) (w : W)
      → is_open w ≡ false
      → send_to s out w
        ≡ (done (err (Error.new "Unable to send message, client channel closed")), w)
  unfolding send
  send_to-closed s o w h =
      rw (o.sends, o.named)
        (ground (arith, channel.send_closed (ClientEvent.server_message o.client_id out) w h))

  -- A message to subscriptions that are all of one session whose channel is open reaches it once
  -- for each, in order, under the client's own ids, behind what was queued; and all of them stay.
  pub retain_reached-open :
      (m : Subscriptions W) (o : Owned m) (w : W)
      → is_open w ≡ true
      → (w' : W) × (retain_reached m out w ≡ (done m, w'))
        × (queue w' ≡ queue w ++ notices m o)
        × (is_open w' ≡ true)
  unfolding retain_reached
  retain_reached-open [] o w h = (w, refl, sym (append-nil (queue w)), h)
  retain_reached-open (e ∷ m) o w h =
      let event = ClientEvent.server_message o.0.client_id out in
      let v = (c.sender.send event w).1 in
      let sent = channel.send_open event w h in
      let (w', went, queued, still) = retain_reached-open m o.1 v sent.2 in
      (
        w',
        ground (arith, send_to-open e.1 o.0 w h),
        queued
            ∙ ap (λ q. q ++ notices m o.1) sent.1
            ∙ append_assoc (queue w) (event ∷ []) (notices m o.1),
        still,
      )

  -- Once the session's channel is closed, the next message removes all its subscriptions.
  pub retain_reached-closed :
      (m : Subscriptions W) (o : Owned m) (w : W)
      → is_open w ≡ false
      → retain_reached m out w ≡ (done [], w)
  unfolding retain_reached
  retain_reached-closed [] o w h = refl
  retain_reached-closed (e ∷ m) o w h =
      ground (arith, send_to-closed e.1 o.0 w h, retain_reached-closed m o.1 w h)
