-- ===== src/Samples/Owners.antt =====
-- Two clients with a subscription each at one destination.
use Prim.Native.String.{◌∷◌ as prepend, count}
use text.Mathlib.TextLemmas.{length-nil, length-cons}
use little_stomper.Prelude.{
  false, arith, ℕ, zero, suc, ℕ_discrete, String-discrete, String, ◌≡◌, refl, sym, ap, ◌∙◌, some,
  List, [], ◌∷◌,
}
use little_stomper.Prelude.Effects.{ok}
use little_stomper.Prelude.HashMap
use little_stomper.Ids.{StringId-discrete, from_str}
use little_stomper.Stomp.{ClientFrame}
use little_stomper.InMemory.Backend
use little_stomper.InMemory.Backend.{Subscription, get, to_send_fn}
use little_stomper.InMemory.Handle
use little_stomper.AsyncDestinations.Registry
use little_stomper.Session.Events
use little_stomper.Session.Events.{ClientEvent, as_subscriber}
use little_stomper.Session.Handler
use little_stomper.Session.Stream
use little_stomper.Timer.Resetter.{reset_timer}
use little_stomper.System.Moves.{Move, arrives, receives, runs, serves, begin, run, step}
use little_stomper.System.Shared.{Shared, proxy}
use little_stomper.System.Policy.{Policy}
use little_stomper.System.Ownership.{AreDistinct}
use little_stomper.System.Subscribed.{IsSubscribed}
use little_stomper.System.Joining.{ready, run-Subscribes}
use little_stomper.System.Parting.{run-Leaves}
use little_stomper.System.Unsubscribed.{IsLeft, unsubscribing}
use little_stomper.System.Ownership.Keeping.{HasSubscription, run-HasSubscription}
use little_stomper.Samples.Protocol.{frames, parser}
use little_stomper.Samples.World.{news, my_id}

abbrev pub quote : String → String
quote s = s

-- Names of distinct lengths.
abbrev pub name : ℕ → String
name zero = ""
name (suc n) = prepend "u" (name n)

count-name : (n : ℕ) → count (name n) ≡ n
count-name zero = length-nil
count-name (suc n) = length-cons "u" (name n) ∙ ap suc (count-name n)

pub name-AreDistinct : AreDistinct name
name-AreDistinct m n e = sym (count-name m) ∙ ap count e ∙ count-name n

abbrev pub ask : ℕ → ClientFrame frames → Move frames
ask k f = arrives k (ClientEvent.client_frame (ok f))

-- Clients 1 and 2 subscribe to "news", both under "mine".
abbrev pub both_subscribe : List (Move frames)
both_subscribe =
    ask 1 (ClientFrame.subscribe ("news", "mine"))
    ∷ ask 2 (ClientFrame.subscribe ("news", "mine"))
    ∷ runs 0
    ∷ runs 0
    ∷ serves news
    ∷ serves news
    ∷ receives 1
    ∷ receives 2
    ∷ []

-- And client 2 then asks to unsubscribe.
abbrev asking : List (Move frames)
asking =
    ask 1 (ClientFrame.subscribe ("news", "mine"))
    ∷ ask 2 (ClientFrame.subscribe ("news", "mine"))
    ∷ runs 0
    ∷ runs 0
    ∷ serves news
    ∷ serves news
    ∷ receives 2
    ∷ ask 2 (ClientFrame.unsubscribe "mine")
    ∷ []

abbrev pub subscription_of : ℕ → String → Subscription (Shared frames)
subscription_of k id = record {
  id = from_str id;
  subscriber_sub_id = some my_id;
  send_fn = to_send_fn (as_subscriber (proxy k));
}

-- Client 1 may subscribe and no more; the others may do anything.
abbrev policy : Policy
policy = record {
  may_subscribe = λ k d c. Unit;
  may_unsubscribe = λ k c. ¬ (k ≡ 1);
  may_leave = λ k. ¬ (k ≡ 1);
}

-- Client 2 unsubscribes and leaves.
abbrev leaving : List (Move frames)
leaving =
    ask 2 (ClientFrame.unsubscribe "mine")
    ∷ serves news
    ∷ receives 2
    ∷ ask 2 (ClientFrame.disconnect tt)
    ∷ []

pub has-both_subscribe :
    HasSubscription news 1
      (from_str "")
      (subscription_of 1 "")
      (run parser quote name both_subscribe begin)
unfolding run begin step Handler.handle_event Stream.not_dead Registry.subscribe_task
    Handle.subscribe StringId-discrete Backend.handle_action Backend.add_subscription HashMap.get
    HashMap.insert HashMap.remove Events.subscribe_callback ℕ_discrete Events.send_event
    Backend.start Handler.handle Handler.subscribed reset_timer String-discrete Handler.client_frame
has-both_subscribe = (refl, refl)

after_leaving-is_closed :
    (run parser quote name leaving (run parser quote name both_subscribe begin)).shared.is_closed
      news
    ≡ false
unfolding run begin step Handler.handle_event Stream.not_dead Registry.subscribe_task
    Handle.subscribe StringId-discrete Backend.handle_action Backend.add_subscription HashMap.get
    HashMap.insert HashMap.remove Events.subscribe_callback ℕ_discrete Events.send_event
    Backend.start Handler.handle Handler.subscribed reset_timer String-discrete Handler.client_frame
    Registry.unsubscribe Handle.unsubscribe Handler.unsubscribe Backend.remove_subscription
    Events.unsubscribe_callback Handler.unsubscribed
after_leaving-is_closed = refl

run-HasSubscription_example :
    HasSubscription news 1
      (from_str "")
      (subscription_of 1 "")
      (run parser quote name leaving (run parser quote name both_subscribe begin))
run-HasSubscription_example =
    run-HasSubscription parser quote name name-AreDistinct policy news 1 (from_str "")
      (subscription_of 1 "") both_subscribe leaving
      (tt, (tt, (tt, (tt, (tt, (tt, (tt, (tt, tt))))))))
      (((λ e. ground arith), (λ e. ground arith)), (tt, (tt, ((λ e. ground arith), tt))))
      (λ may. may refl) (λ c may. may refl) has-both_subscribe after_leaving-is_closed

-- Under this policy clients only subscribe.
abbrev pub calm_policy : Policy
calm_policy = record policy { may_unsubscribe = λ k c. ⊥; may_leave = λ k. ⊥ }

-- Client 2 asks to subscribe, its task runs, and the destination has not served the request yet; nor
-- has the task of a second request run.
abbrev one_asks : List (Move frames)
one_asks =
    ask 2 (ClientFrame.subscribe ("news", "mine"))
    ∷ ask 2 (ClientFrame.subscribe ("news", "mine"))
    ∷ runs 0
    ∷ []

run-Subscribes_example :
    IsSubscribed parser quote name 1
      ("news", "mine")
      (from_str (
        name
          (ready parser quote name calm_policy 1
            ("news", "mine")
            (run parser quote name one_asks begin)).shared.next))
      (run parser quote name (serves news ∷ receives 1 ∷ []) (
        ready parser quote name calm_policy 1
          ("news", "mine")
          (run parser quote name one_asks begin)))
run-Subscribes_example =
    run-Subscribes parser quote name calm_policy 1 ("news", "mine") one_asks (tt, (tt, (tt, tt))) tt
      (λ m. m.3) (λ may. may)

run-Leaves_example :
    IsLeft parser quote name name-AreDistinct calm_policy 1
      ("news", "mine")
      "mine"
      (ready parser quote name calm_policy 1
        ("news", "mine")
        (run parser quote name one_asks begin))
      (run parser quote name (unsubscribing parser quote name 1 "mine" news) (
        run parser quote name (serves news ∷ receives 1 ∷ []) (
          ready parser quote name calm_policy 1
            ("news", "mine")
            (run parser quote name one_asks begin))))
run-Leaves_example =
    run-Leaves parser quote name name-AreDistinct calm_policy 1 ("news", "mine") "mine" one_asks
      refl (tt, (tt, (tt, tt))) tt (λ m. m.3) (λ may. may)
