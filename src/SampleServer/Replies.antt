-- ===== src/SampleServer/Replies.antt =====
-- What src/bin/sample_server.rs answers on a WebSocket, and what it passes on to the session.
use little_stomper.Prelude.{
  String, ◌<>◌, sym, ap, ◌∙◌, ◌≡◌, refl, Option, none, List, [], ◌∷◌, ◌++◌, Bool, true, false,
  Bytes, arith, All,
}
use little_stomper.Prelude.Effects.{Act, Result, ok, err, done, pure, Unit₀, ◌>>=◌}
use little_stomper.Error
use little_stomper.Error.{StomperError}
use little_stomper.Tokio.{UnboundedSender, IsChannel}
use mathlib.Core.List.{append-nil, append_assoc}
use little_stomper.SampleServer.WebSocket.{
  Message, text, binary, ping, pong, close, frame, handle_message, is_close, outgoing, Incoming,
  with_item, bytes_item, bytes_stream, response_task,
}

module _ {X Y E : Type 0} (into_bytes : String → Bytes) (display : E → String) where
  -- What goes back on the socket: a pong for a ping, and a close for a close.
  abbrev pub replies : Result (Message X Y) E → List (Message X Y)
  replies (ok (ping bytes)) = pong bytes ∷ []
  replies (ok (close reason)) = close reason ∷ []
  replies _ = []

  -- What the session gets: texts and binaries, and an error for a close or a failure.
  abbrev pub passes_on : Result (Message X Y) E → List (Result Bytes StomperError)
  passes_on (ok (text t)) = ok (into_bytes t) ∷ []
  passes_on (ok (binary bytes)) = ok bytes ∷ []
  passes_on (ok (close _)) = err (Error.new "WebSocketChannel closed") ∷ []
  passes_on (err e) = err (Error.new ("Websocket error: " <> display e)) ∷ []
  passes_on _ = []

  abbrev pub passes_all : {W : Type 0} → Incoming W X Y E → List (Result Bytes StomperError)
  passes_all [] = []
  passes_all ((_, item) ∷ rest) = passes_on item ++ passes_all rest

  -- The messages for the socket: for each item, what other tasks post before it, and its replies.
  abbrev pub for_socket :
      {W : Type 0} → Incoming W X Y E → List (List (Message X Y)) → List (Message X Y)
  for_socket ((_, item) ∷ rest) (posted ∷ ps) = posted ++ (replies item ++ for_socket rest ps)
  for_socket _ _ = []

module _ {W X Y E : Type 0} (into_bytes : String → Bytes) (display : E → String)
    (channel : UnboundedSender W (Message X Y)) (queue : W → List (Message X Y))
    (is_open : W → Bool) where
  -- While the channel of the socket is open, other tasks only post to it: these messages.
  abbrev Posts : (W → W) → List (Message X Y) → Type 0
  Posts others posted =
      (w : W)
      → is_open w ≡ true
      → (queue (others w) ≡ queue w ++ posted) × (is_open (others w) ≡ true)

  abbrev pub AllPost : Incoming W X Y E → List (List (Message X Y)) → Type 0
  AllPost [] [] = Unit
  AllPost ((others, _) ∷ rest) (posted ∷ ps) = Posts others posted × AllPost rest ps
  AllPost _ _ = ⊥

  -- An item is answered: what it yields, and the world after it.
  abbrev IsAnswered : Result (Message X Y) E → W → Type 0
  IsAnswered item w =
      (r : Option (Result Bytes StomperError)) × (v : W) × (bytes_item into_bytes display channel
          item w
        ≡ (done r, v))
      × ((later : List (Result Bytes StomperError))
          → with_item r later ≡ passes_on into_bytes display item ++ later)
      × (queue v ≡ queue w ++ replies into_bytes display item)
      × (is_open v ≡ true)

  bytes_item-IsAnswered :
      (item : Result (Message X Y) E) (w : W)
      → IsChannel channel queue is_open
      → is_open w ≡ true
      → IsAnswered item w
  unfolding bytes_item handle_message
  bytes_item-IsAnswered (err e) w law o =
      (_, w, refl, (λ later. refl), sym (append-nil (queue w)), o)
  bytes_item-IsAnswered (ok (text t)) w law o =
      (_, w, refl, (λ later. refl), sym (append-nil (queue w)), o)
  bytes_item-IsAnswered (ok (binary bytes)) w law o =
      (_, w, refl, (λ later. refl), sym (append-nil (queue w)), o)
  bytes_item-IsAnswered (ok (pong bytes)) w law o =
      (_, w, refl, (λ later. refl), sym (append-nil (queue w)), o)
  bytes_item-IsAnswered (ok (frame x)) w law o =
      (_, w, refl, (λ later. refl), sym (append-nil (queue w)), o)
  bytes_item-IsAnswered (ok (close reason)) w law o =
      let (_, queued, still) = law.send_open (close reason) w o in
      (_, _, refl, (λ later. refl), queued, still)
  bytes_item-IsAnswered (ok (ping bytes)) w law o =
      let (sent, queued, still) = law.send_open (pong bytes) w o in
      (none, (channel.send (pong bytes) w).1, rw sent refl, (λ later. refl), queued, still)

  -- While the channel of the socket is open and other tasks only post to it: of the messages of a
  -- client, the session gets the payloads of texts and binaries, and an error for each close and
  -- failure, in order; and the channel gets what the others post, a pong for each ping and the
  -- close for each close, in order, behind what was there, and nothing else.
  pub bytes_stream-replies :
      (incoming : Incoming W X Y E) (ps : List (List (Message X Y))) (w : W)
      → IsChannel channel queue is_open
      → AllPost incoming ps
      → is_open w ≡ true
      → ((bytes_stream into_bytes display channel incoming w).0
          ≡ done (passes_all into_bytes display incoming))
        × (queue (bytes_stream into_bytes display channel incoming w).1
            ≡ queue w ++ for_socket into_bytes display incoming ps)
  unfolding bytes_stream
  bytes_stream-replies [] [] w law a o = (refl, sym (append-nil (queue w)))
  bytes_stream-replies ((others, item) ∷ rest) (posted ∷ ps) w law (posts, a) o =
      let (before, still) = posts w o in
      let (r, v, e, same, queued, on) = bytes_item-IsAnswered item (others w) law still in
      let (yields, behind) = bytes_stream-replies rest ps v law a on in
      rw (e, yields)
        (
          ap done (same (passes_all into_bytes display rest)),
          behind
              ∙ ap (λ q. q ++ for_socket into_bytes display rest ps)
                  (queued ∙ ap (λ q. q ++ replies into_bytes display item) before)
              ∙ append_assoc (queue w ++ posted) (replies into_bytes display item)
                  (for_socket into_bytes display rest ps)
              ∙ append_assoc (queue w) posted
                  (replies into_bytes display item ++ for_socket into_bytes display rest ps),
        )
  bytes_stream-replies [] (p ∷ ps) w law a o = absurd a
  bytes_stream-replies (x ∷ rest) [] w law a o = absurd a

regroup :
    {A : Type 0} (q s p : List A) (c : A) (t later : List A)
    → (q ++ (s ++ (p ++ (c ∷ t)))) ++ later ≡ (q ++ (s ++ p)) ++ (c ∷ (t ++ later))
regroup q s p c t later = simp append_assoc

module _ {X Y : Type 0} where
  -- The socket gets the messages before the first close, whatever stands behind it.
  pub outgoing-close :
      (before after : List (Message X Y)) (reason : Option X)
      → All (λ m. is_close m ≡ false) before
      → outgoing (before ++ (close reason ∷ after)) ≡ before
  unfolding outgoing
  outgoing-close [] after reason h = refl
  outgoing-close (m ∷ before) after reason h =
      ground (arith, outgoing-close before after reason h.1)

module _ {W X Y E : Type 0} (into_bytes : String → Bytes) (display : E → String)
    (channel : UnboundedSender W (Message X Y)) (queue : W → List (Message X Y))
    (is_open : W → Bool) where
  AllPost-append :
      (before after : Incoming W X Y E) (ps qs : List (List (Message X Y)))
      → AllPost into_bytes display channel queue is_open before ps
      → AllPost into_bytes display channel queue is_open after qs
      → AllPost into_bytes display channel queue is_open (before ++ after) (ps ++ qs)
        × (for_socket into_bytes display (before ++ after) (ps ++ qs)
            ≡ for_socket into_bytes display before ps ++ for_socket into_bytes display after qs)
  AllPost-append [] after [] qs a b = (b, refl)
  AllPost-append ((others, item) ∷ before) after (p ∷ ps) qs (h, a) b =
      let (more, e) = AllPost-append before after ps qs a b in
      let sent = for_socket into_bytes display before ps in
      let later = for_socket into_bytes display after qs in
      (
        (h, more),
        ap (λ m. p ++ (replies into_bytes display item ++ m)) e
            ∙ ap (λ m. p ++ m) (sym (append_assoc (replies into_bytes display item) sent later))
            ∙ sym (append_assoc p (replies into_bytes display item ++ sent) later),
      )
  AllPost-append [] after (p ∷ ps) qs a b = absurd a
  AllPost-append (x ∷ before) after [] qs a b = absurd a

  -- While the channel of the socket is open and other tasks only post to it: if no close is in the
  -- channel, nor comes from the client or another task before the client's close, the socket gets
  -- what was in the channel, and what was posted and answered before that close. Nothing that any
  -- task posts later reaches the socket.
  pub response_task-close :
      {D : Type 0} (forward : List (Message X Y) → Act W (Result Unit₀ D))
      (before after : Incoming W X Y E) (others : W → W) (reason : Option X)
      (ps qs : List (List (Message X Y))) (p later : List (Message X Y)) (w v : W)
      → IsChannel channel queue is_open
      → AllPost into_bytes display channel queue is_open before ps
      → AllPost into_bytes display channel queue is_open
          ((others, ok (close reason)) ∷ after)
          (p ∷ qs)
      → All (λ m. is_close m ≡ false) (queue w ++ (for_socket into_bytes display before ps ++ p))
      → is_open w ≡ true
      → let incoming = before ++ ((others, ok (close reason)) ∷ after) in
        let w' = (bytes_stream into_bytes display channel incoming w).1 in
        response_task forward (queue w' ++ later) v
        ≡ (forward (queue w ++ (for_socket into_bytes display before ps ++ p)) >>= λ _. pure tt) v
  unfolding response_task
  response_task-close forward before after others reason ps qs p later w v law a b calm o =
      let rest = (others, ok (close reason)) ∷ after in
      let (all, sent) = AllPost-append before rest ps (p ∷ qs) a b in
      let (_, queued) =
        bytes_stream-replies into_bytes display channel queue is_open (before ++ rest)
          (ps ++ (p ∷ qs)) w law all o in
      let kept = queue w ++ (for_socket into_bytes display before ps ++ p) in
      let tail = for_socket into_bytes display after qs in
      let together =
        ap (λ ms. ms ++ later) (queued ∙ ap (λ ms. queue w ++ ms) sent)
        ∙ regroup (queue w) (for_socket into_bytes display before ps) p (close reason) tail later in
      ap (λ ms. (forward ms >>= λ _. pure tt) v)
        (ap outgoing together ∙ outgoing-close kept (tail ++ later) reason calm)
