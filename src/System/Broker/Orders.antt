-- ===== src/System/Broker/Orders.antt =====
-- Rosters with the same members in different orders.
use little_stomper.Prelude.{
  ℕ, ◌≡◌, refl, subst, String, Option, none, some, List, [], ◌∷◌, ◌++◌, Bool, if◌then◌else◌, ite,
  ℕ_discrete, Bool-cases, inl, inr,
}
use mathlib.Core.List.{Perm, Permᴰ}
use mathlib.Core.List.Perm
use little_stomper.Prelude.HashMap
use little_stomper.Prelude.HashMap.{Distinct}
use little_stomper.Prelude.Orders.{entries-Perm, get-Perm, remove-Perm}
use little_stomper.Ids.{SubscriptionId, DestinationId, StringId-discrete, from_str}
use little_stomper.Destinations.{OutboundMessage}
use little_stomper.Stomp.{Frames}
use little_stomper.Session.Events.{ClientEvent}
use little_stomper.System.Shared.{Shared, Post, subscribes, unsubscribes, sends, closes, new_id}
use little_stomper.System.Broker.{
  Roster, client_ids, reached, notices, told, outbound, broker, without,
}

abbrev reached_one : (ℕ → Bool) → SubscriptionId × (ℕ × SubscriptionId) → Roster
reached_one is_open (i, (k, c)) = if is_open k then (i, (k, c)) ∷ [] else []

reached-Perm :
    (is_open : ℕ → Bool) {r r' : Roster}
    → Permᴰ r r'
    → Perm (reached is_open r) (reached is_open r')
reached-Perm is_open = entries-Perm (reached is_open) (reached_one is_open) by_entry
  where
    by_entry :
        (e : SubscriptionId × (ℕ × SubscriptionId)) (r : Roster)
        → reached is_open (e ∷ r) ≡ reached_one is_open e ++ reached is_open r
    by_entry (i, (k, c)) r = elim (Bool-cases (is_open k)) [
      | inl open_ ↦ rw open_ refl
      | inr closed ↦ rw closed refl
    ]

module _ {F : Frames} (out : OutboundMessage) (j : ℕ) where
  abbrev notice_one : SubscriptionId × (ℕ × SubscriptionId) → List (ClientEvent F)
  notice_one (i, (k, c)) = ite (ℕ_discrete k j) (notices out (c ∷ [])) []

  notices-Perm :
      {r r' : Roster}
      → Permᴰ r r'
      → Perm (notices {F = F} out (client_ids r j)) (notices out (client_ids r' j))
  notices-Perm = entries-Perm (λ r. notices out (client_ids r j)) notice_one by_entry
    where
      by_entry :
          (e : SubscriptionId × (ℕ × SubscriptionId)) (r : Roster)
          → notices {F = F} out (client_ids (e ∷ r) j)
            ≡ notice_one e ++ notices out (client_ids r j)
      by_entry (i, (k, c)) r =
          elim (ℕ_discrete k j)
            as (λ x.
              notices {F = F} out (ite x (c ∷ client_ids r j) (client_ids r j))
              ≡ ite x (notices out (c ∷ [])) [] ++ notices out (client_ids r j)) [
                | yes e ↦ refl
                | no n ↦ refl
              ]

abbrev pub AreSameRosters : Option Roster → Option Roster → Type 0
AreSameRosters none none = Unit
AreSameRosters (some r) (some r') = Perm r r'
AreSameRosters _ _ = ⊥

module _ {F : Frames} where
  -- The same world, but for the order of the events in each session's channel.
  abbrev pub IsSameWorld : Shared F → Shared F → Type 0
  IsSameWorld w w' =
      ((j : ℕ) → Perm (w.queues j) (w'.queues j)) × (record w { queues = w'.queues } ≡ w')

  same_world : (w : Shared F) → IsSameWorld w w
  same_world w = ((λ j. Perm.refl (w.queues j)), refl)

  abbrev pub SameResult : Option Roster × Shared F → Option Roster × Shared F → Type 0
  SameResult y y' = AreSameRosters y.0 y'.0 × IsSameWorld y.1 y'.1

  told-Perm :
      (out : OutboundMessage) {r r' : Roster} (w : Shared F) (j : ℕ)
      → Permᴰ r r'
      → Perm (told out r w j) (told out r' w j)
  told-Perm out w j p = elim (Bool-cases (w.is_open j)) [
    | inl open_ ↦ rw open_ (Perm.append_left (w.queues j) (notices-Perm out j p))
    | inr closed ↦ rw closed (Perm.refl (w.queues j))
  ]

module _ {F : Frames} (name : ℕ → String) (d : DestinationId) where
  without-Perm :
      (k : ℕ) (i : SubscriptionId) {r r' : Roster} (o : Option (ℕ × SubscriptionId)) (w : Shared F)
      → Permᴰ r r'
      → SameResult (without name d k i r o w) (without name d k i r' o w)
  without-Perm k i none w p = (tt, same_world w)
  without-Perm k i (some (owner, c)) w p =
      (remove-Perm StringId-discrete i p, same_world (without name d k i [] (some (owner, c)) w).1)

  pub broker-Perm :
      (p : Post) {r r' : Roster} (w : Shared F)
      → Permᴰ r r'
      → Distinct StringId-discrete r
      → SameResult (broker name d p r w) (broker name d p r' w)
  unfolding broker HashMap.insert
  broker-Perm (subscribes k none) w p distinct = (tt, same_world (new_id name w).1)
  broker-Perm (subscribes k (some c)) w p distinct =
      let id : SubscriptionId = from_str (name w.next) in
      (
        Perm.cons (id, (k, c)) (remove-Perm StringId-discrete id p),
        same_world (broker name d (subscribes k (some c)) [] w).1,
      )
  broker-Perm (unsubscribes k i) {r} {r'} w p distinct =
      subst
        (λ o.
          SameResult (without name d k i r (HashMap.get StringId-discrete i r) w)
            (without name d k i r' o w))
        (get-Perm StringId-discrete i p distinct)
        (without-Perm k i (HashMap.get StringId-discrete i r) w p)
  broker-Perm (sends k m) w p distinct =
      (reached-Perm w.is_open p, ((λ j. told-Perm (outbound name d m w) w j p), refl))
  broker-Perm closes w p distinct = (tt, same_world w)
