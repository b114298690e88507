-- ===== src/System/Order.antt =====
-- A destination serves messages in the order in which its channel took them, and each client gets
-- them in that order.
use little_stomper.Prelude.{
  ℕ, suc, String, ◌≡◌, refl, subst, sym, ap, ◌∙◌, some, List, [], ◌∷◌, ◌++◌, true, false,
}
use little_stomper.Prelude.Effects.{done, Ensures}
use mathlib.Core.List.{append-nil, append_assoc}
use little_stomper.Ids.{SubscriptionId, DestinationId, StringId-discrete, from_str}
use little_stomper.Destinations.{InboundMessage}
use little_stomper.Stomp.{Frames, StompParser}
use little_stomper.InMemory.Backend.{Subscriptions, handle_action}
use little_stomper.InMemory.Validity
use little_stomper.InMemory.Validity.{IsValid, handle_action-IsValid}
use little_stomper.System.Family.{update, update_self}
use little_stomper.System.Shared.{Shared, Post, sends, new_id, action_of}
use little_stomper.System.Moves.{System, Session, Move, serves, step, run, IsAsMade}
use little_stomper.System.Broker.{Roster, notices, client_ids, told, outbound, reached, Represents}
use little_stomper.System.Broker.Sending.{retain_reached-told, client_ids-reached}
use little_stomper.System.Broker.Refinement.{sent}
use little_stomper.System.Mail.{
  Delivery, events, outputs, under, events-under, receives_each, run-received,
}

-- A message, and who sent it.
abbrev pub Sent : Type 0
Sent = ℕ × InboundMessage

abbrev pub posts_of : List Sent → List Post → List Post
posts_of [] ps = ps
posts_of ((k, m) ∷ ms) ps = sends k m ∷ posts_of ms ps

abbrev pub serves_each : {F : Frames} → DestinationId → List Sent → List (Move F) → List (Move F)
serves_each d [] moves = moves
serves_each d (x ∷ ms) moves = serves d ∷ serves_each d ms moves

-- What a client with these ids should get of the messages, when the next new id is the `n`-th.
abbrev pub deliveries :
    (ℕ → String) → DestinationId → List SubscriptionId → List Sent → ℕ → List Delivery
deliveries name d cs [] n = []
deliveries name d cs ((k, m) ∷ ms) n =
    under (record { destination = d; message_id = from_str (name n); body = m.body }) cs
      (deliveries name d cs ms (suc n))

module _ {F : Frames} (P : StompParser F) (quote : String → String) (name : ℕ → String)
    (d : DestinationId) where
  -- A destination that can serve: its backend stands for the roster.
  pub record IsServing (sys : System F) (r : Roster) : Type 0 where
    pub id_kept : (sys.backends d).id ≡ d
    pub valid : IsValid (sys.backends d)
    pub stands_for : Represents r (sys.backends d).subscriptions
    pub is_open : sys.shared.is_closed d ≡ false

  -- The system after a message.
  abbrev after :
      System F → Roster → InboundMessage → List Post → Subscriptions (Shared F) → System F
  after sys r m ps kept = record sys {
    shared = record sys.shared {
      queues = told (outbound name d m sys.shared) r sys.shared;
      posts = update StringId-discrete d ps sys.shared.posts;
      next = suc sys.shared.next;
    };
    backends =
        update StringId-discrete d (record (sys.backends d) { subscriptions = kept }) sys.backends;
  }

  kept-IsValid :
      (sys : System F) (k : ℕ) (m : InboundMessage) (kept : Subscriptions (Shared F))
      (w v : Shared F)
      → IsValid (sys.backends d)
      → handle_action (new_id name) (sys.backends d) (action_of (sends k m)) w
        ≡ (done (some (record (sys.backends d) { subscriptions = kept })), v)
      → IsValid (record (sys.backends d) { subscriptions = kept })
  kept-IsValid sys k m kept w v h e =
      subst (Ensures Validity.IfGoesOn) (ap (λ r. r.0) e)
        (handle_action-IsValid (new_id name) (sys.backends d) (action_of (sends k m)) w h)

  step-published :
      (sys : System F) (k : ℕ) (m : InboundMessage) (ps : List Post) (r : Roster)
      → IsServing sys r
      → sys.shared.posts d ≡ sends k m ∷ ps
      → (kept : Subscriptions (Shared F)) × (step P quote name (serves d) sys
          ≡ after sys r m ps kept)
        × IsServing (after sys r m ps kept) (reached sys.shared.is_open r)
  unfolding step
  step-published sys k m ps r i posted =
      let b = sys.backends d in
      let w = record sys.shared { posts = update StringId-discrete d ps sys.shared.posts } in
      let (kept, rep, e) =
        retain_reached-told (outbound name d m w) r b.subscriptions (new_id name w).1
          i.stands_for in
      let served = sent name d b r i.id_kept i.stands_for k m w kept i.valid e in
      let now =
        sym (update_self StringId-discrete d (record b { subscriptions = kept }) sys.backends) in
      (
        kept,
        rw (i.is_open, posted, served) refl,
        record {
          id_kept = subst (λ b. b.id ≡ d) now i.id_kept;
          valid = subst (λ b. IsValid b) now (kept-IsValid sys k m kept w _ i.valid served);
          stands_for =
              subst (λ b. Represents (reached sys.shared.is_open r) b.subscriptions) now rep;
          is_open = i.is_open;
        },
      )

  -- Serving messages puts all that they mean for a session with an open channel into it, in order.
  run-served :
      (ms : List Sent) (moves : List (Move F)) (ps : List Post) (sys : System F) (r : Roster)
      (j : ℕ)
      → IsServing sys r
      → sys.shared.posts d ≡ posts_of ms ps
      → sys.shared.is_open j ≡ true
      → (sys' : System F) × (run P quote name (serves_each d ms moves) sys
          ≡ run P quote name moves sys')
        × (sys'.shared.queues j
            ≡ sys.shared.queues j ++ events (deliveries name d (client_ids r j) ms sys.shared.next))
        × (sys'.sessions j ≡ sys.sessions j)
        × (sys'.written j ≡ sys.written j)
  unfolding run
  run-served [] moves ps sys r j i posted heard =
      (sys, refl, sym (append-nil (sys.shared.queues j)), refl, refl)
  run-served ((k, m) ∷ ms) moves ps sys r j i posted heard =
      let (kept, e, i') = step-published sys k m (posts_of ms ps) r i posted in
      let r' = reached sys.shared.is_open r in
      let sys₁ = after sys r m (posts_of ms ps) kept in
      let (sys', e', queued, alive, written) =
        run-served ms moves ps sys₁ r' j i'
          (update_self StringId-discrete d (posts_of ms ps) sys.shared.posts) heard in
      let out = outbound name d m sys.shared in
      let cs = client_ids r j in
      let rest = λ (cs : List SubscriptionId).
        events {F = F} (deliveries name d cs ms (suc sys.shared.next)) in
      let same_ids : client_ids r' j ≡ cs =
        client_ids-reached sys.shared.is_open r j ∙ rw heard refl in
      let now : told out r sys.shared j ≡ sys.shared.queues j ++ notices out cs = rw heard refl in
      (
        sys',
        ap (λ s. run P quote name (serves_each d ms moves) s) e ∙ e',
        queued
            ∙ (λ x. now x ++ rest (same_ids x))
            ∙ append_assoc (sys.shared.queues j) (notices out cs) (rest cs)
            ∙ ap (λ es. sys.shared.queues j ++ es) (sym (events-under out cs _)),
        alive,
        written,
      )

  -- If the next actions of a destination that can serve are messages, and the session of a client
  -- lives, with an open channel that is empty, then, when the destination has served them all, the
  -- next events of the session write a MESSAGE frame for each message and each subscription of the
  -- client, under the id that the client chose, in the order in which the channel took the
  -- messages, behind what the client has been sent.
  pub published-written :
      (ms : List Sent) (ps : List Post) (sys : System F) (r : Roster) (j : ℕ) (s : Session F)
      → IsServing sys r
      → sys.shared.posts d ≡ posts_of ms ps
      → sys.sessions j ≡ some s
      → IsAsMade j s
      → sys.shared.is_open j ≡ true
      → sys.shared.queues j ≡ []
      → let ds = deliveries name d (client_ids r j) ms sys.shared.next in
        (run P quote name (serves_each d ms (receives_each j ds)) sys).written j
        ≡ sys.written j ++ outputs P ds
  published-written ms ps sys r j s i posted alive made heard empty =
      let ds = deliveries name d (client_ids r j) ms sys.shared.next in
      let (sys', e, queued, lives, written) =
        run-served ms (receives_each j ds) ps sys r j i posted heard in
      ap (λ s. s.written j) e
      ∙ run-received P quote name ds sys' j s (lives ∙ alive) made (queued ∙ rw empty refl)
      ∙ ap (λ ws. ws ++ outputs P ds) written
