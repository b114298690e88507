-- ===== src/System/Ownership/Keeping.antt =====
-- How long a subscription stays.
use little_stomper.Prelude.{
  ℕ, ◌≡◌, refl, sym, subst, ap, ◌∙◌, String, some, List, [], ◌∷◌, true, false, if◌then◌else◌,
  Bool-cases, inl, inr, All, arith,
}
use little_stomper.Prelude.HashMap.{get-All}
use little_stomper.Client.{default_client_methods}
use little_stomper.Ids.{SubscriptionId, DestinationId, StringId-discrete}
use little_stomper.Stomp.{Frames, StompParser}
use little_stomper.InMemory.Backend.{Subscription, get, to_send_fn, handle_action}
use little_stomper.Session.Events.{as_subscriber}
use little_stomper.System.Family.{update}
use little_stomper.System.Shared.{
  Shared, Post, subscribes, unsubscribes, sends, closes, proxy, action_of, new_id,
}
use little_stomper.System.Moves.{
  System, Move, arrives, receives, runs, serves, begin, step, run, act, receive, run_taken,
  serve_next, is_external, take_task,
}
use little_stomper.System.Policy.{
  Policy, Ledger, anyone, IsAllowedMove, IsAllowedPost, IsAllowedSub, IsAllowedSystem,
}
use little_stomper.System.Service.{still_heard}
use little_stomper.System.Ending.{was_open}
use little_stomper.System.Ownership.{Owners, owned_by, IsOwned, AreDistinct}
use little_stomper.System.Ownership.Growth.{IsAllowedSystem-grows}
use little_stomper.System.Ownership.Giving.{run-IsOwned, begin-IsOwned, step-IsOwned}
use little_stomper.System.Ownership.Removal.{same_owner, next_is_new}
use little_stomper.System.Ownership.Untouched.{
  settle_backend-IfStays, act-backends, receive-backends, run_taken-backends, serve_next-other,
}
use little_stomper.System.Ownership.Listing.{LeavesAlone, handle_action-IfStays}
use little_stomper.System.Ownership.Proxies.{get-Keyed, to_send_fn-injective}

-- The destination has the subscription under the id, and it sends to the session.
abbrev pub HasSubscription :
    {F : Frames} → DestinationId → ℕ → SubscriptionId → Subscription (Shared F) → System F → Type 0
HasSubscription d k i s sys =
    (get i (sys.backends d).subscriptions ≡ some s)
    × (s.send_fn ≡ to_send_fn (as_subscriber (proxy k)))

module _ {F : Frames} (P : StompParser F) (quote : String → String) (name : ℕ → String)
    (distinct : AreDistinct name) (L : Policy) (d : DestinationId) (k : ℕ) (i : SubscriptionId)
    (s : Subscription (Shared F)) (sys : System F) (own : Owners)
    (a : IsAllowedSystem P L (owned_by name own sys.shared.next) sys) where
  abbrev H : Ledger
  H = owned_by name own sys.shared.next

  held :
      get i (sys.backends d).subscriptions ≡ some s
      → s.send_fn ≡ to_send_fn (as_subscriber (proxy k))
      → (c : SubscriptionId) × H.holds k d c i
  held found mine =
      let b = a.backends d in
      let sub =
        get-All StringId-discrete (IsAllowedSub L H d) i s (sys.backends d).subscriptions
          b.subscriptions found in
      let same = to_send_fn-injective F sub.who k (sym sub.sends ∙ mine) in
      let id = get-Keyed i s (sys.backends d).subscriptions (a.valid d).keyed found in
      (
        sub.client_id,
        subst (λ j. H.holds j d sub.client_id i) same
            (subst (H.holds sub.who d sub.client_id) id sub.held),
      )

  -- The next action leaves the subscription alone, unless it is its session's request to remove it.
  leaves_alone :
      (p : Post)
      → IsAllowedPost L H d p
      → (c : SubscriptionId) × H.holds k d c i
      → ¬ (p ≡ unsubscribes k i)
      → LeavesAlone i name sys.shared.next p
  leaves_alone (subscribes u c) allowed (b, mine) other =
      next_is_new name distinct own sys.shared.next k d b i mine
  leaves_alone (unsubscribes u j) (c, _, _, asked) (b, mine) other = λ e. other (
      ap (λ u. unsubscribes u j)
        (same_owner name distinct own sys.shared.next u k d d c b i (subst (H.holds u d c) e asked)
          mine)
      ∙ ap (unsubscribes k) e)
  leaves_alone (sends u m) allowed mine other = tt
  leaves_alone closes allowed mine other = tt

  serve_next-HasSubscription :
      (ps : List Post)
      → sys.shared.posts d ≡ ps
      → sys.shared.is_open k ≡ true
      → ((qs : List Post) → ¬ (ps ≡ unsubscribes k i ∷ qs))
      → (serve_next P quote name d ps sys).shared.is_closed d ≡ false
      → HasSubscription d k i s sys
      → HasSubscription d k i s (serve_next P quote name d ps sys)
  serve_next-HasSubscription [] e is_open stays goes_on has = has
  serve_next-HasSubscription (p ∷ ps) e is_open stays goes_on (found, mine) =
      let w = record sys.shared { posts = update StringId-discrete d ps sys.shared.posts } in
      let b = sys.backends d in
      let (o, w') = handle_action (new_id name) b (action_of p) w in
      let allowed = subst (All (IsAllowedPost L H d)) e (a.shared.posts d) in
      (
        settle_backend-IfStays name i k s mine d o w' sys
            (handle_action-IfStays name i k s mine L H d b p w (a.backends d) (a.valid d) found
              is_open
              (leaves_alone p allowed.0 (held found mine) (λ e. stays ps (ap (λ p. p ∷ ps) e))))
            goes_on,
        mine,
      )

  untouched :
      (sys' : System F)
      → sys'.backends ≡ sys.backends
      → HasSubscription d k i s sys
      → HasSubscription d k i s sys'
  untouched sys' e (found, mine) =
      (subst (λ b. get i (b d).subscriptions ≡ some s) (sym e) found, mine)

  serves-HasSubscription :
      (e : DestinationId)
      → sys.shared.is_open k ≡ true
      → ((qs : List Post) → ¬ (sys.shared.posts d ≡ unsubscribes k i ∷ qs))
      → (serve_next P quote name e (sys.shared.posts e) sys).shared.is_closed d ≡ false
      → HasSubscription d k i s sys
      → HasSubscription d k i s (serve_next P quote name e (sys.shared.posts e) sys)
  serves-HasSubscription e is_open stays goes_on has = elim (StringId-discrete e d) [
    | yes same ↦
        let now =
          subst
            (λ e. (serve_next P quote name e (sys.shared.posts e) sys).shared.is_closed d ≡ false)
            same goes_on in
        subst (λ e. HasSubscription d k i s (serve_next P quote name e (sys.shared.posts e) sys))
          (sym same) (serve_next-HasSubscription (sys.shared.posts d) refl is_open stays now has)
    | no other ↦ (
      subst (λ b. get i b.subscriptions ≡ some s)
          (sym (serve_next-other P quote name e d (sys.shared.posts e) sys other)) has.0,
      has.1,
    )
  ]

  step-HasSubscription :
      (m : Move F)
      → sys.shared.is_open k ≡ true
      → ((qs : List Post) → ¬ (sys.shared.posts d ≡ unsubscribes k i ∷ qs))
      → (step P quote name m sys).shared.is_closed d ≡ false
      → HasSubscription d k i s sys
      → HasSubscription d k i s (step P quote name m sys)
  unfolding step
  step-HasSubscription (arrives j e) is_open stays goes_on has = elim (Bool-cases (is_external e)) [
    | inl yes_ ↦ rw yes_ (
        untouched (act P quote name j e sys.shared (sys.sessions j) sys)
          (act-backends P quote name j e sys.shared (sys.sessions j) sys) has)
    | inr no_ ↦ rw no_ has
  ]
  step-HasSubscription (receives j) is_open stays goes_on has =
      untouched (receive P quote name j (sys.shared.queues j) sys)
        (receive-backends P quote name j (sys.shared.queues j) sys) has
  step-HasSubscription (runs n) is_open stays goes_on has =
      let t = take_task n sys.shared.tasks in
      untouched (run_taken t sys) (run_taken-backends t sys) has
  step-HasSubscription (serves e) is_open stays goes_on has =
      elim (Bool-cases (sys.shared.is_closed e)) [
        | inl closed ↦ rw closed has
        | inr open_ ↦
            rw open_ (serves-HasSubscription e is_open stays (serving e open_ goes_on) has)
      ]
    where
      serving :
          (e : DestinationId)
          → sys.shared.is_closed e ≡ false
          → (step P quote name (serves e) sys).shared.is_closed d ≡ false
          → (serve_next P quote name e (sys.shared.posts e) sys).shared.is_closed d ≡ false
      serving e open_ goes_on =
          subst
            (λ b.
              (if b
                  then sys
                  else serve_next P quote name e (sys.shared.posts e) sys).shared.is_closed
                d
              ≡ false)
            open_ goes_on

pub IsOwned-IsAllowed :
    {F : Frames} (P : StompParser F) (name : ℕ → String) (L : Policy) (sys : System F)
    → IsOwned P name L sys
    → IsAllowedSystem P L anyone sys
IsOwned-IsAllowed P name L sys (own, a) =
    IsAllowedSystem-grows P L (owned_by name own sys.shared.next) anyone (λ k d c i held. tt) sys
      (omega arith) a

module _ {F : Frames} (P : StompParser F) (quote : String → String) (name : ℕ → String)
    (distinct : AreDistinct name) (L : Policy) (d : DestinationId) (k : ℕ) (i : SubscriptionId)
    (s : Subscription (Shared F)) where
  -- The same along a run, when the policy keeps the session's client from leaving and from
  -- unsubscribing.
  pub more-HasSubscription :
      (ms : List (Move F)) (sys : System F)
      → All (IsAllowedMove P L) ms
      → ¬ L.may_leave k
      → ((c : SubscriptionId) → ¬ L.may_unsubscribe k c)
      → IsOwned P name L sys
      → (run P quote name ms sys).shared.is_closed d ≡ false
      → HasSubscription d k i s sys
      → HasSubscription d k i s (run P quote name ms sys)
  unfolding run
  more-HasSubscription [] sys h stays keeps a goes_on has = has
  more-HasSubscription (m ∷ ms) sys h stays keeps (own, a) goes_on has =
      let H = owned_by name own sys.shared.next in
      let is_open = still_heard P quote name L d k sys a stays in
      let now = step-IsOwned P quote name L m sys h.0 (own, a) in
      let unasked : (qs : List Post) → ¬ (sys.shared.posts d ≡ unsubscribes k i ∷ qs) = λ qs e.
        let (c, _, asked, _) = (subst (All (IsAllowedPost L H d)) e (a.shared.posts d)).0 in
        keeps c asked in
      more-HasSubscription ms (step P quote name m sys) h.1 stays keeps now goes_on (
        step-HasSubscription P quote name distinct L d k i s sys own a m is_open unasked
          (was_open P quote name L d ms (step P quote name m sys) h.1
            (IsOwned-IsAllowed P name L (step P quote name m sys) now) goes_on)
          has)

  -- Ids are made of distinct texts. From the start, after any moves in any order that keep to a
  -- policy under which a session's client neither leaves nor unsubscribes: a subscription under an
  -- id, that sends to the session, is in the map of its destination still, unchanged and under the
  -- same id, after any further moves in any order that keep to the policy, unless the task of that
  -- destination has ended by then.
  pub run-HasSubscription :
      (before after : List (Move F))
      → All (IsAllowedMove P L) before
      → All (IsAllowedMove P L) after
      → ¬ L.may_leave k
      → ((c : SubscriptionId) → ¬ L.may_unsubscribe k c)
      → HasSubscription d k i s (run P quote name before begin)
      → (run P quote name after (run P quote name before begin)).shared.is_closed d ≡ false
      → HasSubscription d k i s (run P quote name after (run P quote name before begin))
  run-HasSubscription before after h g stays keeps has goes_on =
      more-HasSubscription after (run P quote name before begin) g stays keeps
        (run-IsOwned P quote name L before begin h (begin-IsOwned P quote name L)) goes_on has
