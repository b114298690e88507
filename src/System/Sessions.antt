-- ===== src/System/Sessions.antt =====
-- Each handler of a session, and each task that it spawned, keeps the system within the policy.
use little_stomper.Prelude.{
  All, ℕ, String, refl, sym, subst, Option, none, some, ite, true, Bool-cases, Option-cases, inl,
  inr, arith, ◌∙◌,
}
use little_stomper.Prelude.Effects.{ok, err, Ensures, Ensures-mono, Ensures-both}
use little_stomper.Client.{default_client, default_client_methods}
use little_stomper.Error
use little_stomper.Ids.{SubscriptionId, DestinationId, StringId-discrete, from_str}
use little_stomper.System.Family.{update}
use little_stomper.Destinations.{InboundMessage}
use little_stomper.Stomp.{Frames, StompParser, ClientFrame}
use little_stomper.InMemory.Handle
use little_stomper.AsyncDestinations.Registry
use little_stomper.AsyncDestinations.Registry.{subscribe_task}
use little_stomper.Session.Events
use little_stomper.Session.Events.{ClientEvent, Response, as_subscriber, as_sender}
use little_stomper.Session.Handler.{Active, get_active, handle_event, server_message}
use little_stomper.Session.Behaviour.{FollowsEvent, handle_event-FollowsEvent, entry_after}
use little_stomper.System.Shared.{
  Shared, SubscribeTask, subscribes, unsubscribes, sends, proxy, registry, handle_of, run_task,
}
use little_stomper.System.Moves.{Session, session_of, output}
use little_stomper.System.Safe.{Safe}
use little_stomper.System.Policy.{
  Ledger, Policy, IsAllowed, IsAllowedTask, IsAllowedPost, IsAllowedActive, IsAllowedEntry,
  IsAllowedShared, IsAllowedOutput, IsSessionOf, push_event, push_post, push_task,
}

module _ {F : Frames} (P : StompParser F) (L : Policy) (H : Ledger) where
  -- The calls of the registry that post.
  unsubscribe-allowed :
      (k : ℕ) (d : DestinationId) (i : SubscriptionId) (w : Shared F)
      → IsAllowedPost L H d (unsubscribes k i)
      → IsAllowedShared P L H w
      → IsAllowedShared P L H
          (Registry.unsubscribe (registry k) d i (as_subscriber (proxy k)) default_client w).1
  unfolding Registry.unsubscribe Handle.unsubscribe Events.unsubscribe_callback
  unsubscribe-allowed k d i w a h = ground (arith, push_post P L H d (unsubscribes k i) w a h)

  send-allowed :
      (k : ℕ) (d : DestinationId) (m : InboundMessage) (w : Shared F)
      → IsAllowedShared P L H w
      → IsAllowedShared P L H
          (Registry.send (registry k) d m (as_sender (proxy k)) default_client w).1
  unfolding Registry.send Handle.send
  send-allowed k d m w h = ground (arith, push_post P L H d (sends k m) w tt h)

module _ {F : Frames} (P : StompParser F) (L : Policy) (H : Ledger) (quote : String → String)
    (k : ℕ) where
  abbrev pub session_with : Active → Session F
  session_with m = record (session_of k) { active_subscriptions_by_client_id = m }

  handle_event-allowed :
      (m : Active) (e : ClientEvent F) (w : Shared F)
      → IsAllowedActive P L H k m
      → IsAllowed P L H k e
      → IsAllowedShared P L H w
      → IsAllowedShared P L H (handle_event P quote (session_with m) e w).1
  unfolding handle_event
  handle_event-allowed m (ClientEvent.connected x) w act a h = h
  handle_event-allowed m (ClientEvent.client_frame (err x)) w act a h =
      push_event P L H k ClientEvent.close w a tt h
  handle_event-allowed m (ClientEvent.client_frame (ok (ClientFrame.connect f))) w act a h =
      push_event P L H k ClientEvent.close w a tt h
  handle_event-allowed m (ClientEvent.client_frame (ok (ClientFrame.subscribe f))) w act a h =
      push_task P L H _ w (from_str (P.subscribe_id f), refl, a) h
  handle_event-allowed m (ClientEvent.client_frame (ok (ClientFrame.send f))) w act a h =
      elim (Option-cases (P.send_body f)) [
        | inl e ↦ ground arith
        | inr (body, e) ↦ ground (
          arith,
          send-allowed P L H k (from_str (P.send_destination f))
              (record { sender_message_id = none; body = body }) w h,
        )
      ]
  handle_event-allowed m (ClientEvent.client_frame (ok (ClientFrame.disconnect f))) w act a h = h
  handle_event-allowed m (ClientEvent.client_frame (ok (ClientFrame.unsubscribe f))) w act a h =
      let c = from_str (P.unsubscribe_id f) in
      elim (Option-cases (get_active c m)) [
        | inl e ↦ ground (arith, push_event P L H k ClientEvent.close w a.1 tt h)
        | inr ((d, i), e) ↦ ground (
          arith,
          unsubscribe-allowed P L H k d i w
              (let held = subst (IsAllowedEntry P L H k c) e (act c) in (c, held.0, a.0, held.1)) h,
        )
      ]
  handle_event-allowed m (ClientEvent.client_frame (ok frame)) w act a h = h
  handle_event-allowed m ClientEvent.client_heartbeat w act a h = h
  handle_event-allowed m (ClientEvent.server_message c x) w act a h = h
  handle_event-allowed m (ClientEvent.subscribed d c r) w act a h = h
  handle_event-allowed m (ClientEvent.unsubscribed c r) w act a h = h
  handle_event-allowed m (ClientEvent.error x) w act a h =
      push_event P L H k ClientEvent.close w a tt h
  handle_event-allowed m ClientEvent.heartbeat w act a h = h
  handle_event-allowed m ClientEvent.close w act a h = h

  -- What handling an event may yield.
  abbrev pub IsAllowedResult : Session F × Response F → Type 0
  IsAllowedResult r = IsSessionOf P L H k r.0 × All (IsAllowedOutput P L k) (output r.1)

  handle_event-output :
      (m : Active) (e : ClientEvent F) (w : Shared F)
      → IsAllowed P L H k e
      → Ensures
          (λ r. All (IsAllowedOutput P L k) (output r.1))
          (handle_event P quote (session_with m) e w).0
  unfolding handle_event server_message
  handle_event-output m (ClientEvent.server_message c x) w a = ((c, x, refl, a), tt)
  handle_event-output m (ClientEvent.client_frame (ok frame)) w a = ground arith
  handle_event-output m e w a = ground arith

  entry_after-allowed :
      (e : ClientEvent F) (c : SubscriptionId) (old : Option (DestinationId × SubscriptionId))
      → IsAllowed P L H k e
      → IsAllowedEntry P L H k c old
      → IsAllowedEntry P L H k c (entry_after e c old)
  entry_after-allowed (ClientEvent.subscribed d b (ok i)) c old a h =
      elim (StringId-discrete b c) as (λ x. IsAllowedEntry P L H k c (ite x (some (d, i)) old)) [
        | yes same ↦ subst (λ c. L.may_subscribe k d c × H.holds k d c i) same a
        | no other ↦ h
      ]
  entry_after-allowed (ClientEvent.unsubscribed b (ok i)) c old a h =
      elim (StringId-discrete b c) as (λ x. IsAllowedEntry P L H k c (ite x none old)) [
        | yes same ↦ tt
        | no other ↦ h
      ]
  entry_after-allowed e c old a h = h

  handle_event-same :
      (s : Session F) (e : ClientEvent F) (w : Shared F)
      → IsSessionOf P L H k s
      → IsAllowed P L H k e
      → Ensures (λ r. IsSessionOf P L H k r.0) (handle_event P quote s e w).0
  handle_event-same s e w (same, act) a =
      Ensures-mono (FollowsEvent P quote s e) (λ r. IsSessionOf P L H k r.0)
        (handle_event P quote s e w).0
        (λ r follows. (
          follows.1 ∙ (λ i. record (same i) {
            active_subscriptions_by_client_id = r.0.active_subscriptions_by_client_id;
          }),
          λ c.
              subst (IsAllowedEntry P L H k c) (sym (follows.0 c))
                (entry_after-allowed e c _ a (act c)),
        ))
        (handle_event-FollowsEvent P quote s e w)

  -- A handler keeps the world within the policy and its session as it was but for its map, and
  -- its output is allowed.
  pub handle_event-Safe :
      (s : Session F) (e : ClientEvent F)
      → IsSessionOf P L H k s
      → IsAllowed P L H k e
      → Safe (IsAllowedShared P L H) IsAllowedResult (handle_event P quote s e)
  handle_event-Safe s e (same, act) a w h =
      let m = s.active_subscriptions_by_client_id in
      (
        subst (λ s. IsAllowedShared P L H (handle_event P quote s e w).1) (sym same)
            (handle_event-allowed m e w act a h),
        Ensures-both (λ r. IsSessionOf P L H k r.0) (λ r. All (IsAllowedOutput P L k) (output r.1))
            (handle_event P quote s e w).0 (handle_event-same s e w (same, act) a)
            (subst
              (λ s.
                Ensures (λ r. All (IsAllowedOutput P L k) (output r.1))
                  (handle_event P quote s e w).0)
              (sym same) (handle_event-output m e w a)),
      )

module _ {F : Frames} (P : StompParser F) (L : Policy) (H : Ledger) where
  subscribe-allowed :
      (k : ℕ) (d : DestinationId) (c : SubscriptionId) (w : Shared F)
      → L.may_subscribe k d c
      → IsAllowedShared P L H w
      → IsAllowedShared P L H
          ((handle_of k d).subscribe (some c) (as_subscriber (proxy k)) default_client w).1
  unfolding Handle.subscribe Events.subscribe_callback
  subscribe-allowed k d c w a h =
      let why = Error.new "Subscribe failed" in
      ground (
        arith,
        push_post P L H d (subscribes k (some c)) w (c, refl, a) h,
        push_event P L H k (ClientEvent.subscribed d c (err why)) w (a, tt) tt h,
      )

  pub run_task-allowed :
      (t : SubscribeTask) (w : Shared F)
      → IsAllowedTask L t
      → IsAllowedShared P L H w
      → IsAllowedShared P L H (run_task t w).1
  unfolding subscribe_task
  run_task-allowed t w (c, asked, a) h =
      let made = record w { made = update StringId-discrete t.destination true w.made } in
      let kept : IsAllowedShared P L H made = record {
        queues = h.queues;
        tasks = h.tasks;
        posts = h.posts;
        closed = h.closed;
        heard = h.heard;
        grown = h.grown;
      } in
      let subscribe = subscribe-allowed t.who t.destination c in
      elim (Bool-cases (w.made t.destination)) [
        | inl old ↦ rw (asked, old) (subscribe w a h)
        | inr new ↦ rw (asked, new) (subscribe made a kept)
      ]
