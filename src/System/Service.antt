-- ===== src/System/Service.antt =====
-- What clients can count on, from the start and whatever the others do.
use little_stomper.Prelude.{
  ℕ, String, ◌≡◌, subst, Option-cases, Bool-cases, some, List, [], ◌++◌, true, false, inl, inr,
}
use little_stomper.Ids.{DestinationId}
use little_stomper.Stomp.{Frames, StompParser}
use little_stomper.System.Shared.{Post}
use little_stomper.System.Moves.{System, Session, IsAsMade, run}
use little_stomper.System.Policy.{Ledger, Policy, MayEnd, IsAllowedSystem, IfAlive}
use little_stomper.System.Broker.{Roster, client_ids, Represents}
use little_stomper.System.Broker.Refinement.{IsAllowedSub-Represents}
use little_stomper.System.Mail.{outputs, receives_each}
use little_stomper.System.Order.{
  IsServing, Sent, posts_of, serves_each, deliveries, published-written,
}

module _ {F : Frames} (P : StompParser F) (quote : String → String) (name : ℕ → String) (L : Policy)
    (d : DestinationId) (j : ℕ) where
  -- The messages of a list, served by the destination and then received by the session, reach the
  -- client.
  abbrev pub Delivers : List Sent → System F → Roster → Type 0
  Delivers ms sys r =
      let ds = deliveries name d (client_ids r j) ms sys.shared.next in
      (run P quote name (serves_each d ms (receives_each j ds)) sys).written j
      ≡ sys.written j ++ outputs P ds

  module _ {H : Ledger} (sys : System F) (i : IsAllowedSystem P L H sys) where
    pub still_open : ¬ MayEnd L d → sys.shared.is_closed d ≡ false
    still_open lasts = elim (Bool-cases (sys.shared.is_closed d)) [
      | inl closed ↦ absurd (lasts (i.shared.closed d closed))
      | inr open_ ↦ open_
    ]

    pub still_heard : ¬ L.may_leave j → sys.shared.is_open j ≡ true
    still_heard stays = elim (Bool-cases (sys.shared.is_open j)) [
      | inl open_ ↦ open_
      | inr closed ↦ absurd (stays (i.shared.heard j closed))
    ]

    pub still_alive : ¬ L.may_leave j → (s : Session F) × (sys.sessions j ≡ some s) × IsAsMade j s
    still_alive stays = elim (Option-cases (sys.sessions j)) [
      | inl ended ↦ absurd (stays (subst (IfAlive P L H j) ended (i.sessions j)))
      | inr (s, alive) ↦ (s, alive, (subst (IfAlive P L H j) alive (i.sessions j)).0)
    ]

    pub IsAllowedSystem-Delivers :
        (ms : List Sent) (ps : List Post)
        → ¬ MayEnd L d
        → ¬ L.may_leave j
        → sys.shared.posts d ≡ posts_of ms ps
        → sys.shared.queues j ≡ []
        → (r : Roster) × Represents r (sys.backends d).subscriptions × Delivers ms sys r
    IsAllowedSystem-Delivers ms ps lasts stays posted empty =
        let b = i.backends d in
        let (r, stands_for) =
          IsAllowedSub-Represents L H d (sys.backends d).subscriptions b.subscriptions in
        let (s, alive, made) = still_alive stays in
        let serving : IsServing P quote name d sys r = record {
          id_kept = b.id_kept;
          valid = i.valid d;
          stands_for = stands_for;
          is_open = still_open lasts;
        } in
        (
          r,
          stands_for,
          published-written P quote name d ms ps sys r j s serving posted alive made
              (still_heard stays) empty,
        )
