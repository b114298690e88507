-- ===== src/System/Unsubscribed.antt =====
-- What an UNSUBSCRIBE frame leads to after a SUBSCRIBE frame for the same id.
use little_stomper.Prelude.{
  ℕ, ◌≡◌, sym, subst, ap, ◌∙◌, String, none, some, List, [], ◌∷◌, ◌++◌, true, false, ℕ_discrete,
  arith,
}
use little_stomper.Prelude.Effects.{ok}
use little_stomper.Prelude.HashMap.{get-remove, remove-insert_self, get-insert_self}
use little_stomper.Ids.{SubscriptionId, DestinationId, StringId-discrete, from_str}
use little_stomper.Stomp.{Frames, StompParser, ClientFrame}
use little_stomper.InMemory.Backend.{Subscription, get, remove, insert}
use little_stomper.Session.Events.{ClientEvent}
use little_stomper.Session.Handler.{get_active, subscribed, unsubscribed}
use little_stomper.System.Family.{update_self}
use little_stomper.System.Shared.{Shared, unsubscribes}
use little_stomper.System.Moves.{System, Session, Move, arrives, receives, serves, run, IsAsMade}
use little_stomper.System.Policy.{Policy}
use little_stomper.System.Ownership.{AreDistinct}
use little_stomper.System.Subscribing.{sub_of}
use little_stomper.System.Subscribed.{
  settled, settled-found, settled-entered, settled-quiet, get-subscribed,
}
use little_stomper.System.Unsubscribing.{
  asked, confirmed, served, left, step-asked, step-served, step-confirmed,
}

module _ {F : Frames} (P : StompParser F) (quote : String → String) (name : ℕ → String) (j : ℕ)
    (g : F.UnsubscribeFrame) where
  abbrev c : SubscriptionId
  c = from_str (P.unsubscribe_id g)

  -- The frame, and then the moves that take it to the destination and back.
  abbrev pub unsubscribing : DestinationId → List (Move F)
  unsubscribing d =
      arrives j (ClientEvent.client_frame (ok (ClientFrame.unsubscribe g)))
      ∷ serves d
      ∷ receives j
      ∷ []

  run-left :
      (d : DestinationId) (i : SubscriptionId) (s : Session F) (t : Subscription (Shared F))
      (sys : System F)
      → sys.sessions j ≡ some s
      → IsAsMade j s
      → get_active c s.active_subscriptions_by_client_id ≡ some (d, i)
      → get i (sys.backends d).subscriptions ≡ some t
      → t.subscriber_sub_id ≡ some c
      → sys.shared.made d ≡ true
      → sys.shared.posts d ≡ []
      → sys.shared.queues j ≡ []
      → sys.shared.is_closed d ≡ false
      → sys.shared.is_open j ≡ true
      → run P quote name (unsubscribing d) sys
        ≡ left j d i c [] s (served j d i c [] (asked j d i s sys))
  unfolding run
  run-left d i s t sys here same has found named made no_post no_event is_open heard =
      let sys₁ = asked j d i s sys in
      let post = unsubscribes j i in
      let sys₂ = served j d i c [] sys₁ in
      let e₂ =
        step-served P quote name j d i c [] t sys₁
          (update_self StringId-discrete d (sys.shared.posts d ++ (post ∷ [])) sys.shared.posts
            ∙ ap (λ ps. ps ++ (post ∷ [])) no_post)
          is_open heard found named in
      let e₃ =
        step-confirmed P quote name j d i c [] s sys₂
          (update_self ℕ_discrete j (sys.shared.queues j ++ (confirmed j d i c ∷ []))
              sys.shared.queues
            ∙ ap (λ es. es ++ (confirmed j d i c ∷ [])) no_event)
          (update_self ℕ_discrete j (some s) sys.sessions) in
      ap (run P quote name (serves d ∷ receives j ∷ []))
        (step-asked P quote name j g d i s sys here same has made is_open)
      ∙ ap (run P quote name (receives j ∷ [])) e₂
      ∙ e₃

-- A session that enters a subscription is as it was made, but for its map.
subscribed-IsAsMade :
    {F : Frames} (j : ℕ) (d : DestinationId) (c i : SubscriptionId) (s : Session F)
    → IsAsMade j s
    → IsAsMade j (subscribed s d c (ok i))
unfolding subscribed
subscribed-IsAsMade j d c i s same = λ x. record (same x) {
  active_subscriptions_by_client_id = (subscribed s d c (ok i)).active_subscriptions_by_client_id;
}

get-unsubscribed :
    {F : Frames} (c i : SubscriptionId) (s : Session F)
    → get_active c (unsubscribed s c (ok i)).active_subscriptions_by_client_id ≡ none
unfolding unsubscribed
get-unsubscribed c i s =
    ground (arith, get-remove StringId-discrete c c s.active_subscriptions_by_client_id)

module _ {F : Frames} (P : StompParser F) (quote : String → String) (name : ℕ → String)
    (distinct : AreDistinct name) (L : Policy) (j : ℕ) (f : F.SubscribeFrame)
    (g : F.UnsubscribeFrame) where
  -- The destination has what it had, and the session has nothing under the id.
  abbrev pub IsLeft : System F → System F → Type 0
  IsLeft old sys =
      let d = from_str (P.subscribe_destination f) in
      ((sys.backends d).subscriptions ≡ (old.backends d).subscriptions)
      × ((t : Session F) × (sys.sessions j ≡ some t)
          × (get_active (from_str (P.unsubscribe_id g)) t.active_subscriptions_by_client_id ≡ none))

  pub settled-IsLeft :
      (s : Session F) (sys : System F)
      → P.unsubscribe_id g ≡ P.subscribe_id f
      → IsAsMade j s
      → sys.shared.made (from_str (P.subscribe_destination f)) ≡ true
      → sys.shared.is_closed (from_str (P.subscribe_destination f)) ≡ false
      → sys.shared.is_open j ≡ true
      → get
          (from_str (name sys.shared.next))
          (sys.backends (from_str (P.subscribe_destination f))).subscriptions
        ≡ none
      → IsLeft sys (
          run P quote name
            (unsubscribing P quote name j g (from_str (P.subscribe_destination f)))
            (settled P quote name j f s sys))
  settled-IsLeft s sys same_id as_made is_made is_open heard absent =
      let d : DestinationId = from_str (P.subscribe_destination f) in
      let c : SubscriptionId = from_str (P.subscribe_id f) in
      let c' : SubscriptionId = from_str (P.unsubscribe_id g) in
      let id : SubscriptionId = from_str (name sys.shared.next) in
      let same : c ≡ c' = ap from_str (sym same_id) in
      let now = settled P quote name j f s sys in
      let s' = subscribed s d c (ok id) in
      let t = sub_of j d c id in
      let old = (sys.backends d).subscriptions in
      let filed : (now.backends d).subscriptions ≡ insert id t old =
        settled-found P quote name j f s sys in
      let (no_post, no_event) = settled-quiet P quote name j f s sys in
      let path =
        run-left P quote name j g d id s' t now (settled-entered P quote name j f s sys)
          (subscribed-IsAsMade j d c id s as_made)
          (subst (λ c. get_active c s'.active_subscriptions_by_client_id ≡ some (d, id)) same
            (get-subscribed P quote name j f s id))
          (ap (get id) filed ∙ get-insert_self StringId-discrete id t old) (ap some same) is_made
          no_post no_event is_open heard in
      subst (IsLeft sys) (sym path) (
        ap (λ b. b.subscriptions)
              (update_self StringId-discrete d
                (record (now.backends d) {
                  subscriptions = remove id (now.backends d).subscriptions;
                })
                now.backends)
            ∙ ap (remove id) filed
            ∙ remove-insert_self StringId-discrete id t old absent,
        (
          unsubscribed s' c' (ok id),
          update_self ℕ_discrete j (some (unsubscribed s' c' (ok id)))
              (asked j d id s' now).sessions,
          get-unsubscribed c' id s',
        ),
      )
