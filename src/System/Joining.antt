-- ===== src/System/Joining.antt =====
-- A SUBSCRIBE frame in any state of the system that the requests of clients can lead to.
use little_stomper.Prelude.{
  ℕ, ◌≡◌, sym, subst, ap, ◌∙◌, String, some, List, [], ◌∷◌, ◌++◌, All, length, arith,
}
use little_stomper.Client.{default_client_methods}
use little_stomper.Ids.{DestinationId, SubscriptionId, StringId-discrete, from_str}
use little_stomper.Stomp.{Frames, StompParser}
use little_stomper.System.Family.{update_self}
use little_stomper.System.Shared.{subscribes}
use little_stomper.System.Moves.{System, Move, arrives, receives, runs, serves, begin, run}
use little_stomper.System.Policy.{Policy, anyone, MayEnd, IsAllowedMove, IsAllowedSystem}
use little_stomper.System.Invariant.{run-IsAllowed, begin-IsAllowed}
use little_stomper.System.Service.{still_open, still_heard, still_alive}
use little_stomper.System.Subscribing.{asked, posted}
use little_stomper.System.Subscribed.{
  asks, subscribing, IsSubscribed, run-posted, run-last, run-settled, settled-IsSubscribed,
}
use little_stomper.System.Draining.{cleared, cleared-lem}

module _ {F : Frames} (P : StompParser F) (quote : String → String) (name : ℕ → String) (L : Policy)
    (j : ℕ) (f : F.SubscribeFrame) where
  -- For a destination with no actions to serve and a session whose channel is empty: the frame, the
  -- task, the action and the confirmation are all that it takes.
  run-IsSubscribed :
      (moves : List (Move F))
      → All (IsAllowedMove P L) moves
      → ¬ MayEnd L (from_str (P.subscribe_destination f))
      → ¬ L.may_leave j
      → let sys = run P quote name moves begin in
        sys.shared.posts (from_str (P.subscribe_destination f)) ≡ []
        → sys.shared.queues j ≡ []
        → IsSubscribed P quote name j f
            (from_str (name sys.shared.next))
            (run P quote name (subscribing P quote name j f (length sys.shared.tasks)) sys)
  run-IsSubscribed moves a lasts stays no_post no_event =
      let sys = run P quote name moves begin in
      let d : DestinationId = from_str (P.subscribe_destination f) in
      let i =
        run-IsAllowed P quote name L moves begin a
          (begin-IsAllowed P quote name L anyone (omega arith)) in
      let (s, here, made) = still_alive P quote name L d j sys i stays in
      let (now, _, e) =
        run-last P quote name j f sys s here made no_post no_event
          (still_open P quote name L d j sys i lasts) (still_heard P quote name L d j sys i stays)
          (i.backends d).id_kept in
      subst (IsSubscribed P quote name j f (from_str (name sys.shared.next))) (sym e) (
        settled-IsSubscribed P quote name j f s (
          posted j d (from_str (P.subscribe_id f)) sys.shared.tasks now
            (asked j d (from_str (P.subscribe_id f)) s sys)))

  -- The frame and the task that it spawns; then what clears the way to the request and from it.
  abbrev pub ready : System F → System F
  ready sys =
      let d : DestinationId = from_str (P.subscribe_destination f) in
      cleared P quote name L d j (sys.shared.posts d) (
        run P quote name (arrives j (asks P quote name j f) ∷ runs (length sys.shared.tasks) ∷ [])
          sys)

  -- The request is next in the channel of the destination, and the session has no events.
  pub ready_lem :
      (sys : System F)
      → IsAllowedSystem P L anyone sys
      → L.may_subscribe j (from_str (P.subscribe_destination f)) (from_str (P.subscribe_id f))
      → ¬ MayEnd L (from_str (P.subscribe_destination f))
      → ¬ L.may_leave j
      → ((ready sys).shared.posts (from_str (P.subscribe_destination f))
          ≡ subscribes j (some (from_str (P.subscribe_id f))) ∷ [])
        × ((ready sys).shared.queues j ≡ [])
        × IsAllowedSystem P L anyone (ready sys)
  ready_lem sys i may lasts stays =
      let d : DestinationId = from_str (P.subscribe_destination f) in
      let c : SubscriptionId = from_str (P.subscribe_id f) in
      let moves : List (Move F) =
        arrives j (asks P quote name j f) ∷ runs (length sys.shared.tasks) ∷ [] in
      let post = subscribes j (some c) in
      let (s, here, same) = still_alive P quote name L d j sys i stays in
      let (made, _, e) =
        run-posted P quote name j f sys s here same (still_open P quote name L d j sys i lasts) in
      cleared-lem P quote name L d j (sys.shared.posts d) (post ∷ []) (run P quote name moves sys)
        (run-IsAllowed P quote name L moves sys (may, (tt, tt)) i) lasts stays
        (ap (λ sys. sys.shared.posts d) e
          ∙ update_self StringId-discrete d (sys.shared.posts d ++ (post ∷ [])) sys.shared.posts)

  -- From the start, after any moves in any order that keep to a policy under which no client can end
  -- the destination, nor the client of the session its own session, and which lets that client
  -- subscribe there under its id: whatever the destination and the session still have to do, a
  -- SUBSCRIBE frame of the client, the task that it spawns, the serving of the actions in front of
  -- the request, the taking of the events of the session, the next action and the next event leave
  -- the subscription with both: the session has the id of its client for the destination and a new
  -- id, and the destination has, under that new id, a subscription that sends to the session under
  -- the id of the client.
  pub run-Subscribes :
      (moves : List (Move F))
      → All (IsAllowedMove P L) moves
      → L.may_subscribe j (from_str (P.subscribe_destination f)) (from_str (P.subscribe_id f))
      → ¬ MayEnd L (from_str (P.subscribe_destination f))
      → ¬ L.may_leave j
      → let now = ready (run P quote name moves begin) in
        IsSubscribed P quote name j f
          (from_str (name now.shared.next))
          (run P quote name (serves (from_str (P.subscribe_destination f)) ∷ receives j ∷ []) now)
  run-Subscribes moves a may lasts stays =
      let d : DestinationId = from_str (P.subscribe_destination f) in
      let now = ready (run P quote name moves begin) in
      let (next, quiet, i) =
        ready_lem (run P quote name moves begin)
          (run-IsAllowed P quote name L moves begin a
            (begin-IsAllowed P quote name L anyone (omega arith)))
          may lasts stays in
      let (s, here, same) = still_alive P quote name L d j now i stays in
      subst (IsSubscribed P quote name j f (from_str (name now.shared.next)))
        (sym (
          run-settled P quote name j f now s here next quiet
            (still_open P quote name L d j now i lasts) (still_heard P quote name L d j now i stays)
            (i.backends d).id_kept))
        (settled-IsSubscribed P quote name j f s now)
