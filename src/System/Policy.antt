-- ===== src/System/Policy.antt =====
-- A policy says which subscriptions clients ask for, which ids they unsubscribe, and which of them
-- may do what can end their session; what the system holds then goes back to such requests.
use little_stomper.Prelude.{
  ◌≤◌, String, false, true, ℕ, ◌≡◌, Option, none, some, [], ◌∷◌, ◌++◌, All, All-append, ℕ_discrete,
  Bool-cases, inl, inr,
}
use little_stomper.Prelude.Effects.{Result, ok, err}
use little_stomper.Error.{StomperError}
use little_stomper.Ids.{SubscriptionId, DestinationId, StringId-discrete, from_str}
use little_stomper.Stomp.{Frames, StompParser, ClientFrame, ServerFrame}
use little_stomper.InMemory.Backend.{Subscription, to_send_fn}
use little_stomper.InMemory.Validity.{IsValid}
use little_stomper.Session.Events.{ClientEvent, ServerMessage, as_subscriber}
use little_stomper.Session.Handler.{server_message, frame_result, Active, get_active}
use little_stomper.Destinations.{OutboundMessage}
use little_stomper.System.Family.{update, update-all}
use little_stomper.System.Shared.{
  Shared, SubscribeTask, Post, subscribes, unsubscribes, sends, closes, proxy, events_to,
}
use little_stomper.System.Moves.{System, Session, Backend, Move, arrives, IsAsMade}

pub record Policy : Type 1 where
  pub may_subscribe : ℕ → DestinationId → SubscriptionId → Type 0
  pub may_unsubscribe : ℕ → SubscriptionId → Type 0
  pub may_leave : ℕ → Type 0

-- Which session holds, under which id of its client, which id at which destination, and the number
-- of ids given out so far, at least.
pub record Ledger : Type 1 where
  pub holds : ℕ → DestinationId → SubscriptionId → SubscriptionId → Type 0
  pub from : ℕ

-- Any session may hold any id.
abbrev pub anyone : Ledger
anyone = record { holds = λ k d c i. Unit; from = 0 }

abbrev pub IfHeld :
    Ledger → ℕ → DestinationId → SubscriptionId → Result SubscriptionId StomperError → Type 0
IfHeld H k d c (ok i) = H.holds k d c i
IfHeld H k d c (err e) = Unit

-- A request to subscribe is served under an id that its session may hold: `n` is the number of ids
-- given out so far.
abbrev pub IfGranted : Ledger → (ℕ → String) → ℕ → DestinationId → Post → Type 0
IfGranted H name n d (subscribes k (some c)) = H.holds k d c (from_str (name n))
IfGranted H name n d _ = Unit

-- Some session may subscribe to the destination under an id of its client, and may unsubscribe that
-- id.
abbrev pub MayEnd : Policy → DestinationId → Type 0
MayEnd L d = (k : ℕ) × (c : SubscriptionId) × L.may_subscribe k d c × L.may_unsubscribe k c

module _ {F : Frames} (P : StompParser F) (L : Policy) (H : Ledger) where
  -- What a session may be told: frames that ask for what the policy admits, and messages of
  -- subscriptions that it admits.
  abbrev pub IsAllowed : ℕ → ClientEvent F → Type 0
  IsAllowed k (ClientEvent.client_frame (ok (ClientFrame.subscribe f))) =
      L.may_subscribe k (from_str (P.subscribe_destination f)) (from_str (P.subscribe_id f))
  IsAllowed k (ClientEvent.client_frame (ok (ClientFrame.unsubscribe f))) =
      L.may_unsubscribe k (from_str (P.unsubscribe_id f)) × L.may_leave k
  IsAllowed k (ClientEvent.client_frame (ok (ClientFrame.send f))) =
      P.send_body f ≡ none → L.may_leave k
  IsAllowed k (ClientEvent.client_frame _) = L.may_leave k
  IsAllowed k (ClientEvent.error _) = L.may_leave k
  IsAllowed k ClientEvent.close = L.may_leave k
  IsAllowed k (ClientEvent.server_message c m) = L.may_subscribe k m.destination c
  IsAllowed k (ClientEvent.subscribed d c r) = L.may_subscribe k d c × IfHeld H k d c r
  IsAllowed k _ = Unit

-- What code posts to a session's channel.
abbrev pub IsInternal : {F : Frames} → ClientEvent F → Type 0
IsInternal (ClientEvent.server_message _ _) = Unit
IsInternal (ClientEvent.subscribed _ _ _) = Unit
IsInternal (ClientEvent.unsubscribed _ _) = Unit
IsInternal ClientEvent.close = Unit
IsInternal _ = ⊥

-- The clients keep to the policy.
abbrev pub IsAllowedMove : {F : Frames} → StompParser F → Policy → Move F → Type 0
IsAllowedMove P L (arrives k e) = IsAllowed P L anyone k e
IsAllowedMove P L _ = Unit

module _ (L : Policy) where
  abbrev pub IsAllowedTask : SubscribeTask → Type 0
  IsAllowedTask t =
      (c : SubscriptionId) × (t.client_id ≡ some c) × L.may_subscribe t.who t.destination c

module _ (L : Policy) (H : Ledger) where
  abbrev pub IsAllowedPost : DestinationId → Post → Type 0
  IsAllowedPost d (subscribes k i) = (c : SubscriptionId) × (i ≡ some c) × L.may_subscribe k d c
  IsAllowedPost d (unsubscribes k i) =
      (c : SubscriptionId) × L.may_subscribe k d c × L.may_unsubscribe k c × H.holds k d c i
  IsAllowedPost d (sends k m) = Unit
  IsAllowedPost d closes = ⊥

  module _ {F : Frames} where
    -- A subscription of a backend: some session made it, under an id of its client.
    pub record IsAllowedSub (d : DestinationId) (s : Subscription (Shared F)) : Type 0 where
      pub who : ℕ
      pub client_id : SubscriptionId
      pub sends : s.send_fn ≡ to_send_fn (as_subscriber (proxy who))
      pub named : s.subscriber_sub_id ≡ some client_id
      pub allowed : L.may_subscribe who d client_id
      pub held : H.holds who d client_id s.id

    pub record IsAllowedBackend (d : DestinationId) (b : Backend F) : Type 0 where
      pub id_kept : b.id ≡ d
      pub subscriptions : All (λ e. IsAllowedSub d e.1) b.subscriptions

module _ {F : Frames} (P : StompParser F) (L : Policy) where
  -- What a client is sent: a MESSAGE frame is one that the session makes of a message of a
  -- subscription that the policy admits.
  abbrev pub IsAllowedOutput : ℕ → ServerMessage F → Type 0
  IsAllowedOutput k (inl (ServerFrame.message frame)) =
      (c : SubscriptionId) × (m : OutboundMessage) × (server_message P c m
        ≡ frame_result (ServerFrame.message frame))
      × L.may_subscribe k m.destination c
  IsAllowedOutput k _ = Unit

module _ {F : Frames} (P : StompParser F) (L : Policy) (H : Ledger) where
  abbrev pub IsAllowedNotice : ℕ → ClientEvent F → Type 0
  IsAllowedNotice k e = IsAllowed P L H k e × IsInternal e

  pub record IsAllowedShared (w : Shared F) : Type 0 where
    pub queues : (k : ℕ) → All (IsAllowedNotice k) (w.queues k)
    pub tasks : All (IsAllowedTask L) w.tasks
    pub posts : (d : DestinationId) → All (IsAllowedPost L H d) (w.posts d)
    pub closed : (d : DestinationId) → w.is_closed d ≡ true → MayEnd L d
    pub heard : (k : ℕ) → w.is_open k ≡ false → L.may_leave k
    pub grown : H.from ≤ w.next

  -- The map of active subscriptions has what the policy admits.
  abbrev pub IsAllowedEntry : ℕ → SubscriptionId → Option (DestinationId × SubscriptionId) → Type 0
  IsAllowedEntry k c none = Unit
  IsAllowedEntry k c (some (d, i)) = L.may_subscribe k d c × H.holds k d c i

  abbrev pub IsAllowedActive : ℕ → Active → Type 0
  IsAllowedActive k m = (c : SubscriptionId) → IsAllowedEntry k c (get_active c m)

  abbrev pub IsSessionOf : ℕ → Session F → Type 0
  IsSessionOf k s = IsAsMade k s × IsAllowedActive k s.active_subscriptions_by_client_id

  abbrev pub IfAlive : ℕ → Option (Session F) → Type 0
  IfAlive k none = L.may_leave k
  IfAlive k (some s) = IsSessionOf k s

  pub record IsAllowedSystem (sys : System F) : Type 0 where
    pub shared : IsAllowedShared sys.shared
    pub sessions : (k : ℕ) → IfAlive k (sys.sessions k)
    pub backends : (d : DestinationId) → IsAllowedBackend L H d (sys.backends d)
    pub valid : (d : DestinationId) → IsValid (sys.backends d)
    pub written : (k : ℕ) → All (IsAllowedOutput P L k) (sys.written k)

  -- The changes of the world that code makes: each keeps it within the policy.
  pub push_event :
      (k : ℕ) (e : ClientEvent F) (w : Shared F)
      → IsAllowed P L H k e
      → IsInternal e
      → IsAllowedShared w
      → IsAllowedShared ((events_to k).send e w).1
  push_event k e w a n h = elim (Bool-cases (w.is_open k)) [
    | inl is_open ↦ rw is_open (record {
      queues =
          update-all ℕ_discrete (λ j. All (IsAllowedNotice j)) k _ w.queues
            (All-append (IsAllowedNotice k) (w.queues k) (e ∷ []) (h.queues k) ((a, n), tt))
            h.queues;
      tasks = h.tasks;
      posts = h.posts;
      closed = h.closed;
      heard = h.heard;
      grown = h.grown;
    })
    | inr is_closed ↦ rw is_closed h
  ]

  pub push_post :
      (d : DestinationId) (p : Post) (w : Shared F)
      → IsAllowedPost L H d p
      → IsAllowedShared w
      → IsAllowedShared
          (record w { posts = update StringId-discrete d (w.posts d ++ (p ∷ [])) w.posts })
  push_post d p w a h = record {
    queues = h.queues;
    tasks = h.tasks;
    posts =
        update-all StringId-discrete (λ d. All (IsAllowedPost L H d)) d _ w.posts
          (All-append (IsAllowedPost L H d) (w.posts d) (p ∷ []) (h.posts d) (a, tt)) h.posts;
    closed = h.closed;
    heard = h.heard;
    grown = h.grown;
  }

  pub push_task :
      (t : SubscribeTask) (w : Shared F)
      → IsAllowedTask L t
      → IsAllowedShared w
      → IsAllowedShared (record w { tasks = w.tasks ++ (t ∷ []) })
  push_task t w a h = record {
    queues = h.queues;
    tasks = All-append (IsAllowedTask L) w.tasks (t ∷ []) h.tasks (a, tt);
    posts = h.posts;
    closed = h.closed;
    heard = h.heard;
    grown = h.grown;
  }
