-- ===== src/System/Ownership/Removal.antt =====
-- Who can remove a subscription: the session that it was made for.
use little_stomper.Prelude.{
  none, Option-cases, inl, inr, ℕ, ◌≡◌, sym, ap, ◌∙◌, String, List, [], ◌∷◌, All, arith,
}
use little_stomper.Prelude.Effects.{ok, err}
use little_stomper.Prelude.HashMap.{get-All}
use little_stomper.Ids.{SubscriptionId, DestinationId, StringId-discrete, from_str}
use little_stomper.Stomp.{Frames, StompParser, ClientFrame}
use little_stomper.InMemory.Backend.{get}
use little_stomper.Session.Events.{ClientEvent}
use little_stomper.System.Shared.{Shared}
use little_stomper.System.Moves.{System, Move, arrives}
use little_stomper.System.Policy.{Policy, anyone, IsAllowed, IsAllowedMove, IsAllowedSub}
use little_stomper.System.Ownership.{Owners, owned_by, IsOwned, AreDistinct}
use little_stomper.System.Ownership.Proxies.{get-Keyed}

-- Clients may do anything.
abbrev pub everything : Policy
everything = record {
  may_subscribe = λ k d c. Unit;
  may_unsubscribe = λ k c. Unit;
  may_leave = λ k. Unit;
}

module _ {F : Frames} (P : StompParser F) where
  any_event : (k : ℕ) (e : ClientEvent F) → IsAllowed P everything anyone k e
  any_event k (ClientEvent.client_frame (ok (ClientFrame.send f))) = λ _. tt
  any_event k (ClientEvent.client_frame (ok frame)) = ground arith
  any_event k (ClientEvent.client_frame (err x)) = tt
  any_event k (ClientEvent.subscribed d c r) = (tt, ground arith)
  any_event k e = ground arith

  pub any_moves : (ms : List (Move F)) → All (IsAllowedMove P everything) ms
  any_moves [] = tt
  any_moves (arrives k e ∷ ms) = (any_event k e, any_moves ms)
  any_moves (m ∷ ms) = (tt, any_moves ms)

module _ (name : ℕ → String) (distinct : AreDistinct name) (own : Owners) (n : ℕ) where
  -- An id has one owner.
  pub same_owner :
      (j k : ℕ) (d e : DestinationId) (b c i : SubscriptionId)
      → (owned_by name own n).holds j d b i
      → (owned_by name own n).holds k e c i
      → j ≡ k
  same_owner j k d e b c i (m, _, made, mine) (m', _, made', mine') =
      let same = distinct m m' (ap (λ i. i.text) (sym made ∙ made')) in
      ap (λ o. o.0) (sym mine ∙ ap own same ∙ mine')

  -- The next id is none that anyone holds.
  pub next_is_new :
      (k : ℕ) (d : DestinationId) (c i : SubscriptionId)
      → (owned_by name own n).holds k d c i
      → ¬ (from_str (name n) ≡ i)
  next_is_new k d c i (m, less, made, mine) e =
      let same = distinct n m (ap (λ i. i.text) (e ∙ made)) in omega (arith, less, same)

module _ {F : Frames} (P : StompParser F) (quote : String → String) (name : ℕ → String)
    (distinct : AreDistinct name) where
  -- No destination has a subscription under the next id.
  pub next-absent :
      (L : Policy) (sys : System F) (d : DestinationId)
      → IsOwned P name L sys
      → get (from_str (name sys.shared.next)) (sys.backends d).subscriptions ≡ none
  next-absent L sys d (own, a) =
      let id : SubscriptionId = from_str (name sys.shared.next) in
      let H = owned_by name own sys.shared.next in
      let m = (sys.backends d).subscriptions in
      elim (Option-cases (get id m)) [
        | inl absent ↦ absent
        | inr (s, found) ↦
            let mine : IsAllowedSub L H d s =
              get-All StringId-discrete (IsAllowedSub L H d) id s m (a.backends d).subscriptions
                found in
            absurd (
              next_is_new name distinct own sys.shared.next mine.who d mine.client_id s.id mine.held
                (sym (get-Keyed id s m (a.valid d).keyed found)))
      ]
