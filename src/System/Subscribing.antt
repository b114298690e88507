-- ===== src/System/Subscribing.antt =====
-- A SUBSCRIBE frame on its way: from the client through its session, the spawned task and the
-- destination, and back to the map of the session.
use little_stomper.Prelude.{
  ℕ, suc, ◌≡◌, refl, sym, subst, String, none, some, List, [], ◌∷◌, ◌++◌, Bool, true, false,
  Bool-cases, inl, inr, ℕ_discrete, length,
}
use little_stomper.Prelude.Effects.{ok, done}
use little_stomper.Client.{default_client_methods}
use little_stomper.Ids.{SubscriptionId, DestinationId, StringId-discrete, from_str}
use little_stomper.Stomp.{Frames, StompParser, ClientFrame}
use little_stomper.InMemory.Backend.{
  Subscription, insert, to_send_fn, to_subscribe_callback, handle_action,
}
use little_stomper.InMemory.Handle
use little_stomper.InMemory.Actions.{add_subscription_lem}
use little_stomper.AsyncDestinations.Registry.{subscribe_task}
use little_stomper.Timer.Resetter.{reset_timer}
use little_stomper.Session.Events
use little_stomper.Session.Events.{ClientEvent, alive, as_subscriber}
use little_stomper.Session.Handler
use little_stomper.Session.Handler.{get_active, handle_event, subscribed}
use little_stomper.Session.Stream.{not_dead}
use little_stomper.System.Family.{update, update_self}
use little_stomper.System.Shared.{Shared, Post, SubscribeTask, subscribes, proxy, new_id}
use little_stomper.System.Moves.{
  System, Session, arrives, receives, runs, serves, step, take_task, IsAsMade,
}

abbrev pub task : ℕ → DestinationId → SubscriptionId → SubscribeTask
task j d c = record { who = j; destination = d; client_id = some c }

-- The system after each step.
module _ {F : Frames} (j : ℕ) (d : DestinationId) (c : SubscriptionId) where
  abbrev pub asked : Session F → System F → System F
  asked s sys = record sys {
    shared = record sys.shared { tasks = sys.shared.tasks ++ (task j d c ∷ []) };
    sessions = update ℕ_discrete j (some s) sys.sessions;
    written = update ℕ_discrete j (sys.written j ++ []) sys.written;
  }

  abbrev pub posted : List SubscribeTask → (DestinationId → Bool) → System F → System F
  posted ts made sys = record sys {
    shared = record sys.shared {
      tasks = ts;
      made = made;
      posts =
          update StringId-discrete d (sys.shared.posts d ++ (subscribes j (some c) ∷ []))
            sys.shared.posts;
    };
  }

  abbrev pub sub_of : SubscriptionId → Subscription (Shared F)
  sub_of id = record {
    id = id;
    subscriber_sub_id = some c;
    send_fn = to_send_fn (as_subscriber (proxy j));
  }

  abbrev pub confirmed : SubscriptionId → ClientEvent F
  confirmed id = ClientEvent.subscribed d c (ok id)

  abbrev pub entered : SubscriptionId → List (ClientEvent F) → Session F → System F → System F
  entered id es s sys = record sys {
    shared = record sys.shared { queues = update ℕ_discrete j es sys.shared.queues };
    sessions = update ℕ_discrete j (some (subscribed s d c (ok id))) sys.sessions;
    written = update ℕ_discrete j (sys.written j ++ []) sys.written;
  }

module _ {F : Frames} (name : ℕ → String) (j : ℕ) (d : DestinationId) (c : SubscriptionId) where
  abbrev pub served : List Post → System F → System F
  served ps sys =
      let id = from_str (name sys.shared.next) in
      let b = sys.backends d in
      record sys {
        shared = record sys.shared {
          posts = update StringId-discrete d ps sys.shared.posts;
          queues =
              update ℕ_discrete j (sys.shared.queues j ++ (confirmed j d c id ∷ []))
                sys.shared.queues;
          next = suc sys.shared.next;
        };
        backends =
            update StringId-discrete d
              (record b { subscriptions = insert id (sub_of j d c id) b.subscriptions })
              sys.backends;
      }

module _ {F : Frames} (P : StompParser F) (quote : String → String) (name : ℕ → String) (j : ℕ)
    (f : F.SubscribeFrame) where
  abbrev d : DestinationId
  d = from_str (P.subscribe_destination f)

  abbrev c : SubscriptionId
  c = from_str (P.subscribe_id f)

  abbrev asks : ClientEvent F
  asks = ClientEvent.client_frame (ok (ClientFrame.subscribe f))

  handle_event-asks :
      (s : Session F) (w : Shared F)
      → IsAsMade j s
      → handle_event P quote s asks w
        ≡ (done (s, ok (alive, none)), record w { tasks = w.tasks ++ (task j d c ∷ []) })
  unfolding handle_event Handler.client_frame Handler.handle reset_timer
  handle_event-asks s w same =
      subst
        (λ s.
          handle_event P quote s asks w
          ≡ (done (s, ok (alive, none)), record w { tasks = w.tasks ++ (task j d c ∷ []) }))
        (sym same) refl

  -- The session spawns the task.
  pub step-asked :
      (s : Session F) (sys : System F)
      → sys.sessions j ≡ some s
      → IsAsMade j s
      → step P quote name (arrives j asks) sys ≡ asked j d c s sys
  unfolding step not_dead
  step-asked s sys here same = rw here (rw (handle_event-asks s sys.shared same) refl)

module _ {F : Frames} (P : StompParser F) (quote : String → String) (name : ℕ → String) (j : ℕ)
    (d : DestinationId) (c : SubscriptionId) where
  take_task-length :
      (ts : List SubscribeTask) (t : SubscribeTask)
      → take_task (length ts) (ts ++ (t ∷ [])) ≡ some (t, ts)
  take_task-length [] t = refl
  take_task-length (u ∷ ts) t = rw (take_task-length ts t) refl

  -- The task finds the destination, or makes it, and posts the request.
  pub step-posted :
      (ts : List SubscribeTask) (sys : System F)
      → sys.shared.tasks ≡ ts ++ (task j d c ∷ [])
      → sys.shared.is_closed d ≡ false
      → (made : DestinationId → Bool) × (made d ≡ true)
        × (step P quote name (runs (length ts)) sys ≡ posted j d c ts made sys)
  unfolding step subscribe_task Handle.subscribe
  step-posted ts sys last is_open = elim (Bool-cases (sys.shared.made d)) [
    | inl old ↦
        (sys.shared.made, old, rw (last, take_task-length ts (task j d c), old, is_open) refl)
    | inr new ↦ (
      update StringId-discrete d true sys.shared.made,
      update_self StringId-discrete d true sys.shared.made,
      rw (last, take_task-length ts (task j d c), new, is_open) refl,
    )
  ]

  -- The destination enters the subscription under the next id, and confirms it.
  pub step-served :
      (ps : List Post) (sys : System F)
      → sys.shared.posts d ≡ subscribes j (some c) ∷ ps
      → sys.shared.is_closed d ≡ false
      → sys.shared.is_open j ≡ true
      → (sys.backends d).id ≡ d
      → step P quote name (serves d) sys ≡ served name j d c ps sys
  unfolding step handle_action Events.subscribe_callback
  step-served ps sys posted is_open heard same =
      let b = sys.backends d in
      let w = record sys.shared { posts = update StringId-discrete d ps sys.shared.posts } in
      rw (is_open, posted)
        (rw
          (
            (add_subscription_lem (new_id name) b (some c)
                (to_subscribe_callback (as_subscriber (proxy j)))
                (to_send_fn (as_subscriber (proxy j))) w).0,
            heard,
            same,
          )
          refl)

  -- The session enters it into its map.
  pub step-confirmed :
      (id : SubscriptionId) (es : List (ClientEvent F)) (s : Session F) (sys : System F)
      → sys.shared.queues j ≡ confirmed j d c id ∷ es
      → sys.sessions j ≡ some s
      → step P quote name (receives j) sys ≡ entered j d c id es s sys
  unfolding step handle_event not_dead
  step-confirmed id es s sys queued here = rw (queued, here) refl
