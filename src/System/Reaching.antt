-- ===== src/System/Reaching.antt =====
-- Whom a message of a destination reaches.
use little_stomper.Prelude.{
  ℕ, ◌≡◌, refl, sym, ap, ◌∙◌, String, Option, some, List, [], ◌∷◌, ◌++◌, ite, ℕ_discrete, arith,
}
use mathlib.Core.List.{append_assoc}
use little_stomper.Prelude.HashMap
use little_stomper.Ids.{SubscriptionId, DestinationId, StringId-discrete}
use little_stomper.Destinations.{InboundMessage, OutboundMessage}
use little_stomper.Stomp.{Frames, StompParser}
use little_stomper.Session.Events.{ServerMessage}
use little_stomper.Session.Handler.{server_message}
use little_stomper.System.Shared.{Post, sends}
use little_stomper.System.Moves.{System, serves, run, output}
use little_stomper.System.Policy.{Policy, anyone, MayEnd, IsAllowedSystem}
use little_stomper.System.Broker.{Roster, client_ids, outbound}
use little_stomper.System.Mail.{Delivery, outputs, under, receives_each}
use little_stomper.System.Written.{run-SendsMore}
use little_stomper.System.Draining.{clearing, cleared, clearing-IsAllowed, cleared-lem}
use little_stomper.System.Service.{still_open, IsAllowedSystem-Delivers}
use little_stomper.System.Ownership.{AreDistinct, IsOwned}
use little_stomper.System.Ownership.Listing.{Lists, found-Lists}
use little_stomper.System.Ownership.Keeping.{more-HasSubscription}
use little_stomper.System.Backing.{IsBacked}

own_id : {o : Option SubscriptionId} {b c : SubscriptionId} → o ≡ some b → o ≡ some c → b ≡ c
own_id e f = ground arith

-- A subscription that a roster lists for a client is among those of the client.
abbrev IsAmong : SubscriptionId → List SubscriptionId → Type 0
IsAmong c cs = (xs ys : List SubscriptionId) × (cs ≡ xs ++ (c ∷ ys))

IsAmong-ite :
    {u j : ℕ} (same : Dec (u ≡ j)) (c b : SubscriptionId) (cs : List SubscriptionId)
    → IsAmong c cs
    → IsAmong c (ite same (b ∷ cs) cs)
IsAmong-ite (yes e) c b cs (xs, ys, at) = (b ∷ xs, ys, ap (λ cs. b ∷ cs) at)
IsAmong-ite (no n) c b cs among = among

Lists-IsAmong :
    (i : SubscriptionId) (j : ℕ) (c : SubscriptionId) (r : Roster)
    → Lists i j c r
    → IsAmong c (client_ids r j)
unfolding HashMap.get
Lists-IsAmong i j c [] h = ground arith
Lists-IsAmong i j c ((q, (u, b)) ∷ r) h =
    elim (StringId-discrete q i)
        as (λ x.
          ite x (some (u, b)) (HashMap.get StringId-discrete i r) ≡ some (j, c)
          → IsAmong c (client_ids ((q, (u, b)) ∷ r) j)) [
            | yes e ↦ λ h. ([], client_ids r j, ground arith)
            | no n ↦
                λ h. IsAmong-ite (ℕ_discrete u j) c b (client_ids r j) (Lists-IsAmong i j c r h)
          ]
      h

module _ {F : Frames} (P : StompParser F) (out : OutboundMessage) where
  outputs-under :
      (xs : List SubscriptionId) (c : SubscriptionId) (ys : List SubscriptionId)
      → outputs P (under out (xs ++ (c ∷ ys)) [])
        ≡ outputs P (under out xs [])
          ++ (output (server_message P c out) ++ outputs P (under out ys []))
  outputs-under [] c ys = refl
  outputs-under (x ∷ xs) c ys =
      ap (λ o. output (server_message P x out) ++ o) (outputs-under xs c ys)
      ∙ sym (
          append_assoc (output (server_message P x out)) (outputs P (under out xs []))
            (output (server_message P c out) ++ outputs P (under out ys [])))

module _ {F : Frames} (P : StompParser F) (quote : String → String) (name : ℕ → String) (L : Policy)
    (d : DestinationId) (j : ℕ) (c : SubscriptionId) where
  -- Serving the next action and then taking events of the session writes, behind what the client
  -- has been sent, the MESSAGE frame of the message under the id of the client, among others.
  abbrev pub IsReached : InboundMessage → System F → Type 0
  IsReached m sys =
      (ds : List Delivery) × (xs ys : List (ServerMessage F)) × ((run P quote name
            (serves d ∷ receives_each j ds) sys).written
          j
        ≡ sys.written j
          ++ (xs ++ (output (server_message P c (outbound name d m sys.shared)) ++ ys)))

  -- For a message that is the next action, and a session whose channel is empty.
  next-IsReached :
      (sys : System F) (k : ℕ) (m : InboundMessage) (ps : List Post) (i : SubscriptionId)
      → IsAllowedSystem P L anyone sys
      → ¬ MayEnd L d
      → ¬ L.may_leave j
      → IsBacked j d c i sys
      → sys.shared.posts d ≡ sends k m ∷ ps
      → sys.shared.queues j ≡ []
      → IsReached m sys
  next-IsReached sys k m ps i now lasts stays (s, (found, mine), named) posted empty =
      let out = outbound name d m sys.shared in
      let (r, stands_for, written) =
        IsAllowedSystem-Delivers P quote name L d j sys now ((k, m) ∷ []) ps lasts stays posted
          empty in
      let (b, also, listed) =
        found-Lists i j s r (sys.backends d).subscriptions mine stands_for found in
      let (xs, ys, among) = Lists-IsAmong i j b r listed in
      (
        under out (client_ids r j) [],
        outputs P (under out xs []),
        outputs P (under out ys []),
        written
            ∙ ap (λ o. sys.written j ++ o)
                (ap (λ cs. outputs P (under out cs [])) among
                  ∙ outputs-under P out xs b ys
                  ∙ ap
                      (λ a.
                        outputs P (under out xs [])
                        ++ (output (server_message P a out) ++ outputs P (under out ys [])))
                      (own_id also named)),
      )

  -- Once the given actions are served and the events taken, serving the next action and taking
  -- events writes the MESSAGE frame behind what the client had been sent before all that.
  abbrev pub Reaches : List Post → InboundMessage → System F → Type 0
  Reaches ps m sys =
      let now = cleared P quote name L d j ps sys in
      (ds : List Delivery) × (xs ys : List (ServerMessage F)) × ((run P quote name
            (serves d ∷ receives_each j ds) now).written
          j
        ≡ sys.written j
          ++ (xs ++ (output (server_message P c (outbound name d m now.shared)) ++ ys)))

  IsReached-Reaches :
      (ps : List Post) (m : InboundMessage) (sys : System F)
      → IsReached m (cleared P quote name L d j ps sys)
      → Reaches ps m sys
  IsReached-Reaches ps m sys (ds, xs, ys, written) =
      let now = cleared P quote name L d j ps sys in
      let frame = output (server_message P c (outbound name d m now.shared)) in
      let (more, e) = run-SendsMore P quote name j (clearing P quote name L d j ps sys) sys in
      (
        ds,
        more ++ xs,
        ys,
        written
            ∙ ap (λ zs. zs ++ (xs ++ (frame ++ ys))) e
            ∙ append_assoc (sys.written j) more (xs ++ (frame ++ ys))
            ∙ ap (λ zs. sys.written j ++ zs) (sym (append_assoc more xs (frame ++ ys))),
      )

  -- For a message anywhere in the channel of the destination, and a session with any events.
  pub IsBacked-Reaches :
      (sys : System F) (k : ℕ) (m : InboundMessage) (ps qs : List Post) (i : SubscriptionId)
      → AreDistinct name
      → IsOwned P name L sys
      → IsAllowedSystem P L anyone sys
      → ¬ MayEnd L d
      → ¬ L.may_leave j
      → ((b : SubscriptionId) → ¬ L.may_unsubscribe j b)
      → IsBacked j d c i sys
      → sys.shared.posts d ≡ ps ++ (sends k m ∷ qs)
      → Reaches ps m sys
  IsBacked-Reaches sys k m ps qs i distinct own now lasts stays keeps (s, has, named) posted =
      let moves = clearing P quote name L d j ps sys in
      let (next, quiet, then_) =
        cleared-lem P quote name L d j ps (sends k m ∷ qs) sys now lasts stays posted in
      let still =
        more-HasSubscription P quote name distinct L d j i s moves sys
          (clearing-IsAllowed P quote name L d j ps sys) stays keeps own
          (still_open P quote name L d j (run P quote name moves sys) then_ lasts) has in
      IsReached-Reaches ps m sys (
        next-IsReached (run P quote name moves sys) k m qs i then_ lasts stays (s, still, named)
          next quiet)
