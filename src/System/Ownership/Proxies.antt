-- ===== src/System/Ownership/Proxies.antt =====
-- Whose a subscription is: the closures of two sessions differ.
use little_stomper.Prelude.{ℕ, ◌≡◌, ap, some, [], ◌∷◌, Bool, true, false, ite, ℕ_discrete, arith}
use little_stomper.Prelude.Effects.{Outcome, Result, ok, done, Unit₀}
use little_stomper.Prelude.HashMap
use little_stomper.Ids.{SubscriptionId, from_str}
use little_stomper.Error.{StomperError}
use little_stomper.Destinations.{OutboundMessage}
use little_stomper.Stomp.{Frames}
use little_stomper.InMemory.Backend.{Subscription, Subscriptions, SendFn, get, to_send_fn}
use little_stomper.InMemory.Validity.{Keyed}
use little_stomper.Session.Events
use little_stomper.Session.Events.{as_subscriber}
use little_stomper.System.Shared.{Shared, proxy}

abbrev any_id : SubscriptionId
any_id = from_str ""

abbrev any_message : OutboundMessage
any_message = record { destination = from_str ""; message_id = from_str ""; body = [] }

abbrev is_sent : Outcome (Result Unit₀ StomperError) → Bool
is_sent (done (ok u)) = true
is_sent _ = false

module _ (F : Frames) where
  -- A world in which only one channel is open.
  abbrev only : ℕ → Shared F
  only k = record {
    queues = λ j. [];
    is_open = λ j. ite (ℕ_discrete j k) true false;
    tasks = [];
    made = λ d. false;
    posts = λ d. [];
    is_closed = λ d. false;
    next = 0;
  }

  abbrev tried : SendFn (Shared F) → ℕ → Bool
  tried f k = is_sent (f any_id (some any_id) any_message (only k)).0

  tried-proxy :
      (j k : ℕ) → tried (to_send_fn (as_subscriber (proxy j))) k ≡ ite (ℕ_discrete j k) true false
  unfolding Events.send
  tried-proxy j k = ground arith

  pub to_send_fn-injective :
      (j k : ℕ)
      → to_send_fn (as_subscriber (proxy {F = F} j)) ≡ to_send_fn (as_subscriber (proxy k))
      → j ≡ k
  to_send_fn-injective j k e =
      ground (arith, ap (λ f. tried f k) e, tried-proxy j k, tried-proxy k k)

-- What a map finds under a key has that id.
pub get-Keyed :
    {W : Type 0} (i : SubscriptionId) (s : Subscription W) (m : Subscriptions W)
    → Keyed m
    → get i m ≡ some s
    → s.id ≡ i
unfolding HashMap.get
get-Keyed i s [] h e = ground arith
get-Keyed i s ((j, t) ∷ m) h e = ground (arith, get-Keyed i s m h.1, h.0)
