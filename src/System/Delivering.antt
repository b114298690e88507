-- ===== src/System/Delivering.antt =====
-- Messages anywhere in the channel of a destination, and a session with any events to take.
use little_stomper.Prelude.{ℕ, ◌≡◌, String, List, ◌++◌, All, arith}
use little_stomper.Ids.{DestinationId}
use little_stomper.Stomp.{Frames, StompParser}
use little_stomper.System.Shared.{Post}
use little_stomper.System.Moves.{Move, begin, run}
use little_stomper.System.Policy.{Policy, anyone, MayEnd, IsAllowedMove}
use little_stomper.System.Invariant.{run-IsAllowed, begin-IsAllowed}
use little_stomper.System.Broker.{Roster, Represents}
use little_stomper.System.Order.{Sent, posts_of}
use little_stomper.System.Service.{Delivers, IsAllowedSystem-Delivers}
use little_stomper.System.Draining.{cleared, cleared-lem}

module _ {F : Frames} (P : StompParser F) (quote : String → String) (name : ℕ → String) (L : Policy)
    (d : DestinationId) (j : ℕ) where
  -- From the start, after any moves in any order that keep to a policy under which no client can end
  -- the destination, nor the client of the session its own session: if some actions of the
  -- destination in a row are messages, then, once it has served what is in front of them and the
  -- session has taken its events, some roster lists the subscriptions of the destination, and serving
  -- the messages and then taking the events of the session writes to its client a MESSAGE frame for
  -- each message and each of its subscriptions there, in order, behind what it has been sent by then.
  pub run-Delivers :
      (moves : List (Move F)) (ms : List Sent) (ps qs : List Post)
      → All (IsAllowedMove P L) moves
      → ¬ MayEnd L d
      → ¬ L.may_leave j
      → let sys = run P quote name moves begin in
        sys.shared.posts d ≡ ps ++ posts_of ms qs
        → let now = cleared P quote name L d j ps sys in
          (r : Roster) × Represents r (now.backends d).subscriptions
          × Delivers P quote name L d j ms now r
  run-Delivers moves ms ps qs a lasts stays posted =
      let sys = run P quote name moves begin in
      let i =
        run-IsAllowed P quote name L moves begin a
          (begin-IsAllowed P quote name L anyone (omega arith)) in
      let (next, quiet, now) =
        cleared-lem P quote name L d j ps (posts_of ms qs) sys i lasts stays posted in
      IsAllowedSystem-Delivers P quote name L d j (cleared P quote name L d j ps sys) now ms qs
        lasts stays next quiet
