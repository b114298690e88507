-- ===== src/System/Leaving.antt =====
-- A session ends only by what its own client does.
use little_stomper.Prelude.{ℕ, String, ◌≡◌, subst, sym, false, Option-cases, inl, inr, arith}
use little_stomper.Prelude.Effects.{Outcome, done, panic, ok, err}
use little_stomper.Client.{default_client_methods}
use little_stomper.InMemory.Handle
use little_stomper.AsyncDestinations.Registry
use little_stomper.Stomp.{Frames, StompParser, ClientFrame}
use little_stomper.Session.Events.{ClientEvent, Response}
use little_stomper.Session.Handler.{Active, handle_event, server_message}
use little_stomper.Session.Stream.{not_dead}
use little_stomper.System.Shared.{Shared}
use little_stomper.System.Moves.{Session}
use little_stomper.System.Sessions.{session_with}
use little_stomper.System.Policy.{Ledger, Policy, IsAllowed, IsSessionOf}

module _ {F : Frames} (L : Policy) (k : ℕ) where
  -- If the session ends, its client may do what ends it.
  abbrev pub IfEnds : Outcome (Session F × Response F) → Type 0
  IfEnds (panic why) = L.may_leave k
  IfEnds (done (s, r)) = not_dead r ≡ false → L.may_leave k

  excused : (o : Outcome (Session F × Response F)) → L.may_leave k → IfEnds o
  excused (panic why) a = a
  excused (done (s, r)) a = λ _. a

module _ {F : Frames} (P : StompParser F) (L : Policy) (H : Ledger) (quote : String → String)
    (k : ℕ) where
  made-IfEnds :
      (m : Active) (e : ClientEvent F) (w : Shared F)
      → IsAllowed P L H k e
      → IfEnds L k (handle_event P quote (session_with P L H quote k m) e w).0
  unfolding handle_event server_message not_dead Registry.send Handle.send
  made-IfEnds m (ClientEvent.client_frame (ok (ClientFrame.unsubscribe f))) w a =
      let e = ClientEvent.client_frame (ok (ClientFrame.unsubscribe f)) in
      excused {F = F} L k (handle_event P quote (session_with P L H quote k m) e w).0 a.1
  made-IfEnds m (ClientEvent.client_frame (ok (ClientFrame.send f))) w a =
      elim (Option-cases (P.send_body f)) [ inl e ↦ rw e (a e) | inr (body, e) ↦ ground arith ]
  made-IfEnds m (ClientEvent.client_frame (ok frame)) w a = ground arith
  made-IfEnds m (ClientEvent.client_frame (err x)) w a = λ _. a
  made-IfEnds m (ClientEvent.error x) w a = λ _. a
  made-IfEnds m ClientEvent.close w a = λ _. a
  made-IfEnds m e w a = ground arith

  pub handle_event-IfEnds :
      (s : Session F) (e : ClientEvent F) (w : Shared F)
      → IsSessionOf P L H k s
      → IsAllowed P L H k e
      → IfEnds L k (handle_event P quote s e w).0
  handle_event-IfEnds s e w (same, act) a =
      subst (λ s. IfEnds L k (handle_event P quote s e w).0) (sym same)
        (made-IfEnds s.active_subscriptions_by_client_id e w a)
