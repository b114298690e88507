-- ===== src/System/Subscribed.antt =====
-- What a SUBSCRIBE frame leads to, once the session, the spawned task, the destination and then the
-- session again have done their parts.
use little_stomper.Prelude.{
  Bool, ℕ, ◌≡◌, refl, ap, ◌∙◌, String, some, List, [], ◌∷◌, ◌++◌, true, false, ℕ_discrete, length,
}
use little_stomper.Prelude.Effects.{ok}
use little_stomper.Prelude.HashMap.{get-insert_self}
use little_stomper.Client.{default_client_methods}
use little_stomper.Ids.{SubscriptionId, DestinationId, StringId-discrete, from_str}
use little_stomper.Stomp.{Frames, StompParser, ClientFrame}
use little_stomper.InMemory.Backend.{Subscription, get, insert}
use little_stomper.Session.Events.{ClientEvent}
use little_stomper.Session.Handler.{get_active, subscribed}
use little_stomper.System.Family.{update_self}
use little_stomper.System.Shared.{Shared, subscribes}
use little_stomper.System.Moves.{
  System, Session, Move, arrives, receives, runs, serves, run, IsAsMade,
}
use little_stomper.System.Subscribing.{
  asked, posted, entered, served, sub_of, confirmed, step-asked, step-posted, step-served,
  step-confirmed,
}
use little_stomper.System.Ownership.Keeping.{HasSubscription}

module _ {F : Frames} (P : StompParser F) (quote : String → String) (name : ℕ → String) (j : ℕ)
    (f : F.SubscribeFrame) where
  abbrev d : DestinationId
  d = from_str (P.subscribe_destination f)

  abbrev c : SubscriptionId
  c = from_str (P.subscribe_id f)

  abbrev pub asks : ClientEvent F
  asks = ClientEvent.client_frame (ok (ClientFrame.subscribe f))

  -- The frame, and then the moves that take it to the destination and back.
  abbrev pub subscribing : ℕ → List (Move F)
  subscribing n = arrives j asks ∷ runs n ∷ serves d ∷ receives j ∷ []

  -- The session has the subscription under the id of its client, and the destination under the
  -- same id as the session.
  abbrev pub IsSubscribed : SubscriptionId → System F → Type 0
  IsSubscribed id sys =
      (t : Session F) × (s : Subscription (Shared F)) × (sys.sessions j ≡ some t)
      × (get_active c t.active_subscriptions_by_client_id ≡ some (d, id))
      × HasSubscription d j id s sys
      × (s.subscriber_sub_id ≡ some c)

  -- The system after the destination and then the session have done their parts.
  abbrev pub settled : Session F → System F → System F
  settled s sys = entered j d c (from_str (name sys.shared.next)) [] s (served name j d c [] sys)

  pub run-settled :
      (sys : System F) (s : Session F)
      → sys.sessions j ≡ some s
      → sys.shared.posts d ≡ subscribes j (some c) ∷ []
      → sys.shared.queues j ≡ []
      → sys.shared.is_closed d ≡ false
      → sys.shared.is_open j ≡ true
      → (sys.backends d).id ≡ d
      → run P quote name (serves d ∷ receives j ∷ []) sys ≡ settled s sys
  unfolding run
  run-settled sys s here posted no_event is_open heard kept =
      let id : SubscriptionId = from_str (name sys.shared.next) in
      ap (run P quote name (receives j ∷ []))
        (step-served P quote name j d c [] sys posted is_open heard kept)
      ∙ step-confirmed P quote name j d c id [] s (served name j d c [] sys)
          (update_self ℕ_discrete j (sys.shared.queues j ++ (confirmed j d c id ∷ []))
              sys.shared.queues
            ∙ ap (λ es. es ++ (confirmed j d c id ∷ [])) no_event)
          here

  -- The system after all of it; the registry then has the destination.
  abbrev pub last : (DestinationId → Bool) → Session F → System F → System F
  last made s sys = settled s (posted j d c sys.shared.tasks made (asked j d c s sys))

  -- The frame and the task leave the request behind the other actions of the destination.
  pub run-posted :
      (sys : System F) (s : Session F)
      → sys.sessions j ≡ some s
      → IsAsMade j s
      → sys.shared.is_closed d ≡ false
      → (made : DestinationId → Bool) × (made d ≡ true)
        × (run P quote name (arrives j asks ∷ runs (length sys.shared.tasks) ∷ []) sys
            ≡ posted j d c sys.shared.tasks made (asked j d c s sys))
  unfolding run
  run-posted sys s here same is_open =
      let ts = sys.shared.tasks in
      let (made, is_made, e) = step-posted P quote name j d c ts (asked j d c s sys) refl is_open in
      (
        made,
        is_made,
        ap (run P quote name (runs (length ts) ∷ [])) (step-asked P quote name j f s sys here same)
            ∙ e,
      )

  pub run-last :
      (sys : System F) (s : Session F)
      → sys.sessions j ≡ some s
      → IsAsMade j s
      → sys.shared.posts d ≡ []
      → sys.shared.queues j ≡ []
      → sys.shared.is_closed d ≡ false
      → sys.shared.is_open j ≡ true
      → (sys.backends d).id ≡ d
      → (made : DestinationId → Bool) × (made d ≡ true)
        × (run P quote name (subscribing (length sys.shared.tasks)) sys ≡ last made s sys)
  unfolding run
  run-last sys s here same no_post no_event is_open heard kept =
      let post = subscribes j (some c) in
      let (made, is_made, e) = run-posted sys s here same is_open in
      (
        made,
        is_made,
        ap (run P quote name (serves d ∷ receives j ∷ [])) e
            ∙ run-settled (posted j d c sys.shared.tasks made (asked j d c s sys)) s
                (update_self ℕ_discrete j (some s) sys.sessions)
                (update_self StringId-discrete d (sys.shared.posts d ++ (post ∷ []))
                    sys.shared.posts
                  ∙ ap (λ ps. ps ++ (post ∷ [])) no_post)
                no_event is_open heard kept,
      )

  pub settled-found :
      (s : Session F) (sys : System F)
      → let id = from_str (name sys.shared.next) in
        ((settled s sys).backends d).subscriptions
        ≡ insert id (sub_of j d c id) (sys.backends d).subscriptions
  settled-found s sys = ap (λ b. b.subscriptions) (update_self StringId-discrete d _ sys.backends)

  pub settled-entered :
      (s : Session F) (sys : System F)
      → (settled s sys).sessions j ≡ some (subscribed s d c (ok (from_str (name sys.shared.next))))
  settled-entered s sys = update_self ℕ_discrete j _ (served name j d c [] sys).sessions

  pub settled-quiet :
      (s : Session F) (sys : System F)
      → ((settled s sys).shared.posts d ≡ []) × ((settled s sys).shared.queues j ≡ [])
  settled-quiet s sys = (
    update_self StringId-discrete d [] sys.shared.posts,
    update_self ℕ_discrete j [] (served name j d c [] sys).shared.queues,
  )

  pub get-subscribed :
      (s : Session F) (id : SubscriptionId)
      → get_active c (subscribed s d c (ok id)).active_subscriptions_by_client_id ≡ some (d, id)
  unfolding subscribed
  get-subscribed s id =
      get-insert_self StringId-discrete c (d, id) s.active_subscriptions_by_client_id

  pub settled-IsSubscribed :
      (s : Session F) (sys : System F)
      → IsSubscribed (from_str (name sys.shared.next)) (settled s sys)
  settled-IsSubscribed s sys =
      let id : SubscriptionId = from_str (name sys.shared.next) in
      (
        subscribed s d c (ok id),
        sub_of j d c id,
        settled-entered s sys,
        get-subscribed s id,
        (
          ap (get id) (settled-found s sys)
              ∙ get-insert_self StringId-discrete id (sub_of j d c id)
                  (sys.backends d).subscriptions,
          refl,
        ),
        refl,
      )
