-- ===== src/System/Ownership/Listing.antt =====
-- When a backend keeps a subscription: seen on the rosters that stand for its map.
use little_stomper.Prelude.{
  ℕ, ◌≡◌, sym, subst, ap, ◌∙◌, String, Option, none, some, [], ◌∷◌, Bool, true, Option-cases, inl,
  inr, arith,
}
use little_stomper.Prelude.Effects.{Outcome, done, panic, Ensures}
use little_stomper.Prelude.HashMap
use little_stomper.Prelude.HashMap.{get-remove, get-insert}
use little_stomper.Ids.{SubscriptionId, DestinationId, StringId-discrete, from_str}
use little_stomper.Stomp.{Frames}
use little_stomper.InMemory.Backend.{Subscription, Subscriptions, get, to_send_fn, handle_action}
use little_stomper.InMemory.Validity
use little_stomper.InMemory.Validity.{IsValid, Keyed, handle_action-IsValid}
use little_stomper.Session.Events.{as_subscriber}
use little_stomper.System.Shared.{
  Shared, Post, subscribes, unsubscribes, sends, closes, proxy, action_of, new_id,
}
use little_stomper.System.Moves.{Backend}
use little_stomper.System.Policy.{Policy, Ledger, IsAllowedBackend}
use little_stomper.System.Broker.{Roster, broker, without, reached, Represents, IsOf, Matches}
use little_stomper.System.Broker.Refinement.{
  IsAllowedSub-Represents, handle_action-Refines, get-Represents, Found,
}
use little_stomper.System.Ownership.Proxies.{get-Keyed, to_send_fn-injective}

module _ (i : SubscriptionId) where
  -- The action leaves the subscription alone: it does not remove it, and its id is not given again.
  abbrev pub LeavesAlone : (ℕ → String) → ℕ → Post → Type 0
  LeavesAlone name n (subscribes _ _) = ¬ (from_str (name n) ≡ i)
  LeavesAlone name n (unsubscribes _ j) = ¬ (j ≡ i)
  LeavesAlone name n _ = Unit

module _ (i : SubscriptionId) (k : ℕ) (c : SubscriptionId) where
  abbrev pub Lists : Roster → Type 0
  Lists r = HashMap.get StringId-discrete i r ≡ some (k, c)

  reached-Lists :
      (is_open : ℕ → Bool) (r : Roster) → is_open k ≡ true → Lists r → Lists (reached is_open r)
  unfolding HashMap.get
  reached-Lists is_open [] o h = h
  reached-Lists is_open ((j, (u, b)) ∷ r) o h = ground (arith, reached-Lists is_open r o)

  abbrev IfLists : Option Roster → Type 0
  IfLists none = Unit
  IfLists (some r) = Lists r

  without-Lists :
      {F : Frames} (name : ℕ → String) (d : DestinationId) (u : ℕ) (j : SubscriptionId) (r : Roster)
      (o : Option (ℕ × SubscriptionId)) (w : Shared F)
      → ¬ (j ≡ i)
      → Lists r
      → IfLists (without name d u j r o w).0
  without-Lists name d u j r none w other h = tt
  without-Lists name d u j r (some (owner, b)) w other h =
      ground (arith, get-remove StringId-discrete j i r)

  broker-Lists :
      {F : Frames} (name : ℕ → String) (d : DestinationId) (p : Post) (r : Roster) (w : Shared F)
      → LeavesAlone i name w.next p
      → w.is_open k ≡ true
      → Lists r
      → IfLists (broker name d p r w).0
  unfolding broker
  broker-Lists name d (subscribes u none) r w other o h = tt
  broker-Lists name d (subscribes u (some b)) r w other o h =
      ground (arith, get-insert StringId-discrete (from_str (name w.next)) i (u, b) r)
  broker-Lists name d (unsubscribes u j) r w other o h = without-Lists name d u j r _ w other h
  broker-Lists name d (sends u m) r w other o h = reached-Lists w.is_open r o h
  broker-Lists name d closes r w other o h = tt

module _ {F : Frames} (i : SubscriptionId) (k : ℕ) where
  -- A subscription of the session is listed as such by each roster that stands for the map.
  pub found-Lists :
      (s : Subscription (Shared F)) (r : Roster) (m : Subscriptions (Shared F))
      → s.send_fn ≡ to_send_fn (as_subscriber (proxy k))
      → Represents r m
      → get i m ≡ some s
      → (c : SubscriptionId) × (s.subscriber_sub_id ≡ some c) × Lists i k c r
  found-Lists s r m mine a e =
      let h = subst (Found (HashMap.get StringId-discrete i r)) e (get-Represents i r m a) in
      elim (Option-cases (HashMap.get StringId-discrete i r)) [
        | inl no_ ↦ absurd (subst (λ o. Found o (some s)) no_ h)
        | inr ((u, c), yes_) ↦
            let owned = subst (λ o. Found o (some s)) yes_ h in
            (
              c,
              owned.1,
              yes_ ∙ ap (λ u. some (u, c)) (to_send_fn-injective F u k (sym owned.0 ∙ mine)),
            )
      ]

  -- And what a roster so lists is that subscription.
  Lists-found :
      (c : SubscriptionId) (s : Subscription (Shared F)) (r : Roster) (m : Subscriptions (Shared F))
      → s.id ≡ i
      → IsOf k c s
      → Represents r m
      → Keyed m
      → Lists i k c r
      → get i m ≡ some s
  Lists-found c s r m id owned a keyed h =
      let f = subst (λ o. Found o (get i m)) h (get-Represents i r m a) in
      elim (Option-cases (get i m)) [
        | inl no_ ↦ absurd (subst (Found (some (k, c))) no_ f)
        | inr (t, yes_) ↦
            let also = subst (Found (some (k, c))) yes_ f in
            let id' = get-Keyed i t m keyed yes_ in
            yes_ ∙ (λ x. some (record {
              id = (id' ∙ sym id) x;
              subscriber_sub_id = (also.1 ∙ sym owned.1) x;
              send_fn = (also.0 ∙ sym owned.0) x;
            }))
      ]

module _ {F : Frames} (name : ℕ → String) (i : SubscriptionId) (k : ℕ) (s : Subscription (Shared F))
    (mine : s.send_fn ≡ to_send_fn (as_subscriber (proxy k))) where
  abbrev pub IfStays : Option (Backend F) → Type 0
  IfStays none = Unit
  IfStays (some b) = get i b.subscriptions ≡ some s

  matched :
      (d : DestinationId) (c : SubscriptionId) (r : Option Roster)
      (o : Outcome (Option (Backend F)))
      → s.id ≡ i
      → s.subscriber_sub_id ≡ some c
      → Matches d r o
      → Ensures Validity.IfGoesOn o
      → IfLists i k c r
      → Ensures IfStays o
  matched d c (some r) (done (some b)) id named a v h =
      Lists-found i k c s r b.subscriptions id (mine, named) a.1 v.keyed h
  matched d c none (done none) id named a v h = tt
  matched d c r (panic why) id named a v h = tt
  matched d c none (done (some b)) id named a v h = absurd a
  matched d c (some r) (done none) id named a v h = absurd a

  -- An action that leaves a subscription of an open channel alone keeps it.
  pub handle_action-IfStays :
      (L : Policy) (H : Ledger) (d : DestinationId) (b : Backend F) (p : Post) (w : Shared F)
      → IsAllowedBackend L H d b
      → IsValid b
      → get i b.subscriptions ≡ some s
      → w.is_open k ≡ true
      → LeavesAlone i name w.next p
      → Ensures IfStays (handle_action (new_id name) b (action_of p) w).0
  handle_action-IfStays L H d b p w h v found o alone =
      let (r, stands_for) = IsAllowedSub-Represents L H d b.subscriptions h.subscriptions in
      let (c, named, listed) = found-Lists i k s r b.subscriptions mine stands_for found in
      let (_, a) = handle_action-Refines name d b r h.id_kept stands_for p w v in
      matched d c (broker name d p r w).0 (handle_action (new_id name) b (action_of p) w).0
        (get-Keyed i s b.subscriptions v.keyed found) named a
        (handle_action-IsValid (new_id name) b (action_of p) w v)
        (broker-Lists i k c name d p r w alone o listed)
