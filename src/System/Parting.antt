-- ===== src/System/Parting.antt =====
-- A SUBSCRIBE and an UNSUBSCRIBE frame in any state of the system that the requests of clients can
-- lead to.
use little_stomper.Prelude.{
  inl, inr, ℕ, ◌≡◌, sym, subst, String, some, List, [], ◌∷◌, true, All, length, arith,
}
use little_stomper.Client.{default_client_methods}
use little_stomper.Ids.{DestinationId, SubscriptionId, from_str}
use little_stomper.Stomp.{Frames, StompParser}
use little_stomper.System.Shared.{Post, subscribes}
use little_stomper.System.Moves.{System, Move, arrives, receives, runs, serves, begin, run}
use little_stomper.System.Policy.{Policy, anyone, MayEnd, IsAllowedMove, IsAllowedSystem}
use little_stomper.System.Invariant.{run-IsAllowed, begin-IsAllowed}
use little_stomper.System.Service.{still_open, still_heard, still_alive}
use little_stomper.System.Ownership.{AreDistinct, IsOwned}
use little_stomper.System.Ownership.Giving.{run-IsOwned, begin-IsOwned}
use little_stomper.System.Ownership.Removal.{next-absent}
use little_stomper.System.Subscribing.{asked, posted}
use little_stomper.System.Subscribed.{asks, subscribing, run-last, run-settled}
use little_stomper.System.Unsubscribed.{IsLeft, unsubscribing, settled-IsLeft}
use little_stomper.System.Known.{IsKnown, run-IsKnown, begin-IsKnown}
use little_stomper.System.Draining.{clearing, clearing-IsAllowed}
use little_stomper.System.Joining.{ready, ready_lem}

module _ {F : Frames} (P : StompParser F) (quote : String → String) (name : ℕ → String)
    (distinct : AreDistinct name) (L : Policy) (j : ℕ) (f : F.SubscribeFrame)
    (g : F.UnsubscribeFrame) where
  -- For a destination with no actions to serve and a session whose channel is empty.
  run-IsLeft :
      (moves : List (Move F))
      → P.unsubscribe_id g ≡ P.subscribe_id f
      → All (IsAllowedMove P L) moves
      → ¬ MayEnd L (from_str (P.subscribe_destination f))
      → ¬ L.may_leave j
      → let sys = run P quote name moves begin in
        let d = from_str (P.subscribe_destination f) in
        sys.shared.posts d ≡ []
        → sys.shared.queues j ≡ []
        → IsLeft P quote name distinct L j f g sys (
            run P quote name
              (unsubscribing P quote name j g d)
              (run P quote name (subscribing P quote name j f (length sys.shared.tasks)) sys))
  run-IsLeft moves same_id a lasts stays no_post no_event =
      let sys = run P quote name moves begin in
      let d : DestinationId = from_str (P.subscribe_destination f) in
      let c : SubscriptionId = from_str (P.unsubscribe_id g) in
      let id : SubscriptionId = from_str (name sys.shared.next) in
      let i =
        run-IsAllowed P quote name L moves begin a
          (begin-IsAllowed P quote name L anyone (omega arith)) in
      let (s, here, as_made) = still_alive P quote name L d j sys i stays in
      let is_open = still_open P quote name L d j sys i lasts in
      let heard = still_heard P quote name L d j sys i stays in
      let (made, is_made, e) =
        run-last P quote name j f sys s here as_made no_post no_event is_open heard
          (i.backends d).id_kept in
      subst
        (λ now.
          IsLeft P quote name distinct L j f g sys
            (run P quote name (unsubscribing P quote name j g d) now))
        (sym e)
        (settled-IsLeft P quote name distinct L j f g s
          (posted j d (from_str (P.subscribe_id f)) sys.shared.tasks made
            (asked j d (from_str (P.subscribe_id f)) s sys))
          same_id as_made is_made is_open heard
          (next-absent P quote name distinct L sys d
            (run-IsOwned P quote name L moves begin a (begin-IsOwned P quote name L))))

  -- A destination with an action to serve is in the registry.
  posts-made :
      (d : DestinationId) (p : Post) (ps : List Post) (sys : System F)
      → IsKnown P quote name L d sys
      → sys.shared.posts d ≡ p ∷ ps
      → sys.shared.made d ≡ true
  posts-made d p ps sys (inl made) posted = made
  posts-made d p ps sys (inr (quiet, none_there)) posted = ground arith

  -- Whatever moves keep to the policy keep, from the start to the request and its way.
  module _ (moves : List (Move F)) (a : All (IsAllowedMove P L) moves)
      (may : L.may_subscribe j
        (from_str (P.subscribe_destination f))
        (from_str (P.subscribe_id f))) where
    abbrev sys : System F
    sys = run P quote name moves begin

    abbrev asking : List (Move F)
    asking = arrives j (asks P quote name j f) ∷ runs (length sys.shared.tasks) ∷ []

    abbrev clear : List (Move F)
    clear =
        let d : DestinationId = from_str (P.subscribe_destination f) in
        clearing P quote name L d j (sys.shared.posts d) (run P quote name asking sys)

    clear-IsAllowed : All (IsAllowedMove P L) clear
    clear-IsAllowed =
        let d : DestinationId = from_str (P.subscribe_destination f) in
        clearing-IsAllowed P quote name L d j (sys.shared.posts d) (run P quote name asking sys)

    start_IsAllowed : IsAllowedSystem P L anyone sys
    start_IsAllowed =
        run-IsAllowed P quote name L moves begin a
          (begin-IsAllowed P quote name L anyone (omega arith))

    ready-IsOwned : IsOwned P name L (ready P quote name L j f sys)
    ready-IsOwned = run-IsOwned P quote name L clear (run P quote name asking sys) clear-IsAllowed (
        run-IsOwned P quote name L asking sys (may, (tt, tt))
          (run-IsOwned P quote name L moves begin a (begin-IsOwned P quote name L)))

    ready-IsKnown :
        IsKnown P quote name L (from_str (P.subscribe_destination f)) (ready P quote name L j f sys)
    ready-IsKnown =
        let d : DestinationId = from_str (P.subscribe_destination f) in
        run-IsKnown P quote name L d clear (run P quote name asking sys) clear-IsAllowed
          (run-IsAllowed P quote name L asking sys (may, (tt, tt)) start_IsAllowed)
          (run-IsKnown P quote name L d asking sys (may, (tt, tt)) start_IsAllowed
            (run-IsKnown P quote name L d moves begin a
              (begin-IsAllowed P quote name L anyone (omega arith))
              (begin-IsKnown P quote name L d)))

  -- Ids are made of distinct texts. From the start, after any moves in any order that keep to a
  -- policy under which no client can end the destination, nor the client of the session its own
  -- session, and which lets that client subscribe there under its id: whatever the destination and
  -- the session still have to do, once the SUBSCRIBE frame of the client has arrived and its task has
  -- run, and the way to the request is clear, the next action and the next event, and an UNSUBSCRIBE
  -- frame for the same id, the next action and the next event again, leave the destination with the
  -- subscriptions that it had before the request, and the session, which lives, with none under that
  -- id.
  pub run-Leaves :
      (moves : List (Move F))
      → P.unsubscribe_id g ≡ P.subscribe_id f
      → All (IsAllowedMove P L) moves
      → L.may_subscribe j (from_str (P.subscribe_destination f)) (from_str (P.subscribe_id f))
      → ¬ MayEnd L (from_str (P.subscribe_destination f))
      → ¬ L.may_leave j
      → let now = ready P quote name L j f (run P quote name moves begin) in
        let d = from_str (P.subscribe_destination f) in
        IsLeft P quote name distinct L j f g now (
          run P quote name
            (unsubscribing P quote name j g d)
            (run P quote name (serves d ∷ receives j ∷ []) now))
  run-Leaves moves same_id a may lasts stays =
      let d : DestinationId = from_str (P.subscribe_destination f) in
      let c : SubscriptionId = from_str (P.subscribe_id f) in
      let now = ready P quote name L j f (run P quote name moves begin) in
      let (next, quiet, i) =
        ready_lem P quote name L j f (run P quote name moves begin) (start_IsAllowed moves a may)
          may lasts stays in
      let (s, here, same) = still_alive P quote name L d j now i stays in
      let is_open = still_open P quote name L d j now i lasts in
      let heard = still_heard P quote name L d j now i stays in
      subst
        (λ after.
          IsLeft P quote name distinct L j f g now
            (run P quote name (unsubscribing P quote name j g d) after))
        (sym
          (run-settled P quote name j f now s here next quiet is_open heard (i.backends d).id_kept))
        (settled-IsLeft P quote name distinct L j f g s now same_id same
          (posts-made d (subscribes j (some c)) [] now (ready-IsKnown moves a may) next) is_open
          heard (next-absent P quote name distinct L now d (ready-IsOwned moves a may)))
