-- ===== src/System/Publishing.antt =====
-- A SEND frame of one client on its way to another.
use little_stomper.Prelude.{
  ℕ, ◌≡◌, refl, sym, subst, ap, ◌∙◌, Bytes, String, none, some, List, [], ◌∷◌, ◌++◌, true, false,
  All, inl, inr, arith,
}
use little_stomper.Prelude.HashMap
use little_stomper.Prelude.Effects.{ok, done}
use little_stomper.Client.{default_client_methods}
use little_stomper.Ids.{SubscriptionId, DestinationId, StringId-discrete, from_str}
use little_stomper.Destinations.{InboundMessage}
use little_stomper.Stomp.{Frames, StompParser, ClientFrame}
use little_stomper.InMemory.Backend.{Subscription, get}
use little_stomper.InMemory.Handle
use little_stomper.AsyncDestinations.Registry
use little_stomper.Timer.Resetter.{reset_timer}
use little_stomper.Session.Events.{ClientEvent, alive}
use little_stomper.Session.Handler
use little_stomper.Session.Handler.{Active, get_active, handle_event}
use little_stomper.Session.Stream.{not_dead}
use little_stomper.System.Family.{update, update_self}
use little_stomper.System.Shared.{Shared, sends}
use little_stomper.System.Moves.{
  System, Session, Move, arrives, begin, step, run, IsAsMade, session_of,
}
use little_stomper.System.Policy.{Policy, anyone, MayEnd, IsAllowedMove, IfAlive}
use little_stomper.System.Invariant.{run-IsAllowed, begin-IsAllowed}
use little_stomper.System.Service.{still_open}
use little_stomper.System.Known.{IsKnown, run-IsKnown, begin-IsKnown}
use little_stomper.System.Ownership.{AreDistinct}
use little_stomper.System.Ownership.Giving.{run-IsOwned, begin-IsOwned, step-IsOwned}
use little_stomper.System.Ownership.Keeping.{HasSubscription, more-HasSubscription}
use little_stomper.System.Reaching.{Reaches, IsBacked-Reaches}
use little_stomper.System.Backing.{run-IsBacked}

module _ {F : Frames} (P : StompParser F) (quote : String → String) (name : ℕ → String) (k : ℕ)
    (f : F.SendFrame) (body : Bytes) where
  abbrev to : DestinationId
  to = from_str (P.send_destination f)

  abbrev pub publishes : Move F
  publishes = arrives k (ClientEvent.client_frame (ok (ClientFrame.send f)))

  abbrev pub published : InboundMessage
  published = record { sender_message_id = none; body = body }

  abbrev pub with_post : Shared F → Shared F
  with_post w = record w {
    posts = update StringId-discrete to (w.posts to ++ (sends k published ∷ [])) w.posts;
  }

  handle_event-published :
      (m : Active) (w : Shared F)
      → P.send_body f ≡ some body
      → w.made to ≡ true
      → w.is_closed to ≡ false
      → let s = record (session_of k) { active_subscriptions_by_client_id = m } in
        handle_event P quote s (ClientEvent.client_frame (ok (ClientFrame.send f))) w
        ≡ (done (s, ok (alive, none)), with_post w)
  unfolding handle_event Handler.client_frame Handler.handle reset_timer Registry.send Handle.send
  handle_event-published m w has made is_open = ground arith

  -- The session of the sender, whoever it is, posts the message behind what the destination has.
  step-published :
      (s : Session F) (sys : System F)
      → sys.sessions k ≡ some s
      → IsAsMade k s
      → P.send_body f ≡ some body
      → sys.shared.made to ≡ true
      → sys.shared.is_closed to ≡ false
      → (step P quote name publishes sys).shared ≡ with_post sys.shared
  unfolding step not_dead
  step-published s sys here same has made is_open = rw here (
      rw
        (subst
          (λ s.
            handle_event P quote s (ClientEvent.client_frame (ok (ClientFrame.send f))) sys.shared
            ≡ (done (s, ok (alive, none)), with_post sys.shared))
          (sym same)
          (handle_event-published s.active_subscriptions_by_client_id sys.shared has made is_open))
        refl)

-- A destination with a subscription is in the registry.
IsKnown-made :
    {F : Frames} (P : StompParser F) (quote : String → String) (name : ℕ → String) (L : Policy)
    (d : DestinationId) (j : ℕ) (i : SubscriptionId) (s : Subscription (Shared F)) (sys : System F)
    → IsKnown P quote name L d sys
    → HasSubscription d j i s sys
    → sys.shared.made d ≡ true
unfolding HashMap.get
IsKnown-made P quote name L d j i s sys (inl made) has = made
IsKnown-made P quote name L d j i s sys (inr (quiet, none_there)) has =
    let absent : none ≡ some s = sym (ap (get i) none_there) ∙ has.0 in ground arith

module _ {F : Frames} (P : StompParser F) (quote : String → String) (name : ℕ → String)
    (distinct : AreDistinct name) (L : Policy) (j : ℕ) (i c : SubscriptionId) (k : ℕ)
    (f : F.SendFrame) (body : Bytes) where
  -- Ids are made of distinct texts. From the start, after any moves in any order that keep to a
  -- policy under which no client can end the destination of a SEND frame that has a body, and the
  -- client of a session neither leaves nor unsubscribes: if that session has the destination in its
  -- map under an id of its client, and any session that still lives gets the frame from its client,
  -- then serving what was in the channel of the destination before, taking the events of the first
  -- session, serving the message and taking events again writes to its client, behind what it had
  -- been sent, the MESSAGE frame of that body under that id.
  pub run-Publishes :
      (moves : List (Move F)) (t u : Session F)
      → All (IsAllowedMove P L) moves
      → ¬ MayEnd L (from_str (P.send_destination f))
      → ¬ L.may_leave j
      → ((b : SubscriptionId) → ¬ L.may_unsubscribe j b)
      → P.send_body f ≡ some body
      → let sys = run P quote name moves begin in
        let d = from_str (P.send_destination f) in
        sys.sessions j ≡ some u
        → get_active c u.active_subscriptions_by_client_id ≡ some (d, i)
        → sys.sessions k ≡ some t
        → Reaches P quote name L d j c
            (sys.shared.posts d)
            (published P quote name k f body)
            (run P quote name (publishes P quote name k f body ∷ []) sys)
  unfolding run
  run-Publishes moves t u h lasts stays keeps filled there has here =
      let d : DestinationId = from_str (P.send_destination f) in
      let move = publishes P quote name k f body in
      let start = begin-IsAllowed P quote name L anyone (omega arith) in
      let sys = run P quote name moves begin in
      let allowed : IsAllowedMove P L move = λ e. ground arith in
      let now = run-IsAllowed P quote name L moves begin h start in
      let then_ = run-IsAllowed P quote name L (move ∷ []) sys (allowed, tt) now in
      let own = run-IsOwned P quote name L moves begin h (begin-IsOwned P quote name L) in
      let (s, mine, named) =
        run-IsBacked P quote name distinct L j stays keeps moves u c d i h there has
          (still_open P quote name L d j sys now lasts) in
      let known =
        run-IsKnown P quote name L d moves begin h start (begin-IsKnown P quote name L d) in
      let posted =
        step-published P quote name k f body t sys here
          (subst (IfAlive P L anyone k) here (now.sessions k)).0 filled
          (IsKnown-made P quote name L d j i s sys known mine)
          (still_open P quote name L d j sys now lasts) in
      let ps = sys.shared.posts d in
      let post = sends k (published P quote name k f body) in
      IsBacked-Reaches P quote name L d j c (step P quote name move sys) k
        (published P quote name k f body) ps [] i distinct
        (step-IsOwned P quote name L move sys allowed own) then_ lasts stays keeps
        (
          s,
          more-HasSubscription P quote name distinct L d j i s (move ∷ []) sys (allowed, tt) stays
              keeps own (still_open P quote name L d j (step P quote name move sys) then_ lasts)
              mine,
          named,
        )
        (ap (λ w. w.posts d) posted
          ∙ update_self StringId-discrete d (ps ++ (post ∷ [])) sys.shared.posts)
