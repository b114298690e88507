-- ===== src/System/Ownership/Growth.antt =====
-- What is within the policy stays so when sessions hold more ids.
use little_stomper.Prelude.{ℕ, ◌≤◌, Option, none, some, All-map}
use little_stomper.Prelude.Effects.{ok}
use little_stomper.Ids.{SubscriptionId, DestinationId}
use little_stomper.Stomp.{Frames, StompParser}
use little_stomper.InMemory.Backend.{Subscription}
use little_stomper.Session.Events.{ClientEvent}
use little_stomper.System.Shared.{Shared, Post, unsubscribes}
use little_stomper.System.Moves.{System, Session, Backend}
use little_stomper.System.Policy.{
  Ledger, Policy, IsAllowed, IsAllowedPost, IsAllowedSub, IsAllowedBackend, IsAllowedShared,
  IsAllowedEntry, IfAlive, IsAllowedSystem,
}

module _ {F : Frames} (P : StompParser F) (L : Policy) (H H' : Ledger)
    (grows : (k : ℕ) (d : DestinationId) (c i : SubscriptionId)
      → H.holds k d c i
      → H'.holds k d c i) where
  event-grows : (k : ℕ) (e : ClientEvent F) → IsAllowed P L H k e → IsAllowed P L H' k e
  event-grows k (ClientEvent.subscribed d c (ok i)) a = (a.0, grows k d c i a.1)
  event-grows k e a = a

  post-grows : (d : DestinationId) (p : Post) → IsAllowedPost L H d p → IsAllowedPost L H' d p
  post-grows d (unsubscribes k i) (c, a, b, held) = (c, a, b, grows k d c i held)
  post-grows d p a = a

  sub-grows :
      (d : DestinationId) (s : Subscription (Shared F))
      → IsAllowedSub L H d s
      → IsAllowedSub L H' d s
  sub-grows d s a = record {
    who = a.who;
    client_id = a.client_id;
    sends = a.sends;
    named = a.named;
    allowed = a.allowed;
    held = grows a.who d a.client_id s.id a.held;
  }

  backend-grows :
      (d : DestinationId) (b : Backend F) → IsAllowedBackend L H d b → IsAllowedBackend L H' d b
  backend-grows d b a = record {
    id_kept = a.id_kept;
    subscriptions = All-map (λ e. sub-grows d e.1) b.subscriptions a.subscriptions;
  }

  entry-grows :
      (k : ℕ) (c : SubscriptionId) (o : Option (DestinationId × SubscriptionId))
      → IsAllowedEntry P L H k c o
      → IsAllowedEntry P L H' k c o
  entry-grows k c none a = tt
  entry-grows k c (some (d, i)) a = (a.0, grows k d c i a.1)

  alive-grows : (k : ℕ) (o : Option (Session F)) → IfAlive P L H k o → IfAlive P L H' k o
  alive-grows k none a = a
  alive-grows k (some s) (made, act) = (made, λ c. entry-grows k c _ (act c))

  shared-grows :
      (w : Shared F) → H'.from ≤ w.next → IsAllowedShared P L H w → IsAllowedShared P L H' w
  shared-grows w n i = record {
    queues = λ k. All-map (λ e a. (event-grows k e a.0, a.1)) (w.queues k) (i.queues k);
    tasks = i.tasks;
    posts = λ d. All-map (post-grows d) (w.posts d) (i.posts d);
    closed = i.closed;
    heard = i.heard;
    grown = n;
  }

  pub IsAllowedSystem-grows :
      (sys : System F)
      → H'.from ≤ sys.shared.next
      → IsAllowedSystem P L H sys
      → IsAllowedSystem P L H' sys
  IsAllowedSystem-grows sys n i = record {
    shared = shared-grows sys.shared n i.shared;
    sessions = λ k. alive-grows k (sys.sessions k) (i.sessions k);
    backends = λ d. backend-grows d (sys.backends d) (i.backends d);
    valid = i.valid;
    written = i.written;
  }
