-- ===== src/Session/Ending.antt =====
-- The end of the stream of a session in src/asynchronous/client.rs.
use little_stomper.Prelude.{String, ◌≡◌, fun_ext, List, [], ◌∷◌, ◌++◌, true, arith}
use little_stomper.Prelude.Effects.{◌>>=◌}
use little_stomper.Client.{Client}
use little_stomper.Stomp.{Frames, StompParser}
use little_stomper.Session.Events.{ClientEvent}
use little_stomper.Session.Handler.{ClientSession, handle_event}
use little_stomper.Session.Connect.{Runtime}
use little_stomper.Session.Stream.{Sink, linger, respond, after_event}
use little_stomper.Session.Behaviour.{ends}

module _ {W C : Type 0} ⦃methods : Client C⦄ {F : Frames} (P : StompParser F)
    (quote : String → String) (rt : Runtime W F) (sink : Sink W) where
  -- Only what follows the first event depends on the rest.
  respond-tail :
      (s : ClientSession W C F) (x : (W → W) × ClientEvent F)
      (xs ys : List ((W → W) × ClientEvent F))
      → ((s' : ClientSession W C F) → respond P quote rt sink s' xs ≡ respond P quote rt sink s' ys)
      → respond P quote rt sink s (x ∷ xs) ≡ respond P quote rt sink s (x ∷ ys)
  unfolding respond
  respond-tail s (others, e) xs ys h =
      let next = fun_ext h in
      λ i w. (handle_event P quote s e >>= after_event P quote rt sink (next i)) (others w)

  -- Close and DISCONNECT: the handler is done, the session dead, and the stream lingers.
  respond-ends :
      (s : ClientSession W C F) (others : W → W) (e : ClientEvent F)
      (xs : List ((W → W) × ClientEvent F)) (w : W)
      → ends e ≡ true
      → respond P quote rt sink s ((others, e) ∷ xs) w
        ≡ (handle_event P quote s e >>= λ _. linger rt sink) (others w)
  unfolding respond handle_event
  respond-ends s others e xs w h = ground arith

  -- Nothing behind a `Close` or a DISCONNECT is read: whatever comes before it, what comes after it
  -- changes neither the client's bytes nor anything else in the world.
  pub respond-append-ends :
      (before after : List ((W → W) × ClientEvent F)) (others : W → W) (e : ClientEvent F)
      (s : ClientSession W C F)
      → ends e ≡ true
      → respond P quote rt sink s (before ++ ((others, e) ∷ after))
        ≡ respond P quote rt sink s (before ++ ((others, e) ∷ []))
  respond-append-ends [] after others e s h =
      fun_ext λ w. ground (arith, respond-ends s others e after w h, respond-ends s others e [] w h)
  respond-append-ends (x ∷ before) after others e s h =
      respond-tail s x (before ++ ((others, e) ∷ after)) (before ++ ((others, e) ∷ []))
        (λ s'. respond-append-ends before after others e s' h)
