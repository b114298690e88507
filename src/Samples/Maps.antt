-- ===== src/Samples/Maps.antt =====
-- A registry of destinations, and the map of nonlockingmap.rs.
use little_stomper.Prelude.{
  ℕ_discrete, arith, ℕ, ◌≡◌, refl, String, Option, none, some, List, [], ◌∷◌, arith, ite,
  String-discrete,
}
use little_stomper.Prelude.Effects.{Act, err, Unit₀, pure, done, panic, ◌>>=◌}
use little_stomper.Error
use little_stomper.Prelude.HashMap
use little_stomper.Ids.{DestinationId, from_str, StringId-discrete}
use little_stomper.Client.{DefaultClient, default_client}
use little_stomper.Destinations.{Subscriber, Sender, Destination}
use little_stomper.AsyncDestinations.Registry.{
  VersionedMap, IsVersionedMap, AsyncDestinations, AsyncFactory, subscribe_task,
}
use little_stomper.AsyncDestinations.Reuse.{subscribe_task-creates}
use little_stomper.NonLockingMap.Map.{
  Maps, MapAction, MapReturnFuture, get_or_create, get, new, poll, get_sync,
}
use little_stomper.NonLockingMap.Map.{or_same, create_if_necessary}
use little_stomper.NonLockingMap.Pointer.{
  Memory, Holds, new_memory, deref, serve_create, serve_create-Holds, deref-freed,
}
use little_stomper.NonLockingMap.Agreement.{poll-again}

-- The ids that have a destination: each has the same one, which counts nothing.
abbrev Known : Type 0
Known = List DestinationId

abbrev hall : Destination Known DefaultClient
hall = record {
  subscribe = λ i s c. pure tt;
  unsubscribe = λ i s c. pure tt;
  send = λ m s c. pure tt;
  close = pure tt;
}

abbrev known : DestinationId → Known → Option (Destination Known DefaultClient)
known k [] = none
known k (j ∷ w) = ite (StringId-discrete j k) (some hall) (known k w)

abbrev factory : AsyncFactory Known DestinationId (Destination Known DefaultClient)
factory k = pure hall

abbrev present_or_made :
    DestinationId
    → AsyncFactory Known DestinationId (Destination Known DefaultClient)
    → Option (Destination Known DefaultClient)
    → Act Known (Destination Known DefaultClient)
present_or_made k f (some v) = pure v
present_or_made k f none = f k >>= λ v u. (done v, k ∷ u)

abbrev map : VersionedMap Known DestinationId (Destination Known DefaultClient)
map = record { get = λ k f w. present_or_made k f (known k w) w; get_if_present = known }

map_get_present :
    (k : DestinationId) (v : Destination Known DefaultClient) (w : Known)
    → known k w ≡ some v
    → map.get k factory w ≡ (done v, w)
map_get_present k v w h = ground arith

map_get_absent :
    (k : DestinationId) (w : Known) → known k w ≡ none → map.get k factory w ≡ (done hall, k ∷ w)
map_get_absent k w h = ground arith

map_get-store :
    (k q : DestinationId) (v : Destination Known DefaultClient) (w u : Known)
    → factory k w ≡ (done v, u)
    → known q (k ∷ u) ≡ ite (StringId-discrete k q) (some v) (known q u)
map_get-store k q v w u e = ground arith

abbrev map-IsVersionedMap : IsVersionedMap map factory
map-IsVersionedMap = record {
  store = λ k v w. k ∷ w;
  get_present = map_get_present;
  get_absent = map_get_absent;
  get_if_present-store = map_get-store;
}

abbrev registry : AsyncDestinations Known DefaultClient
registry = record { destinations = map; destination_factory = factory }

abbrev room : DestinationId
room = from_str "room"

abbrev silent : Subscriber Known
silent = record {
  subscribe_callback = λ d i r. pure tt;
  unsubscribe_callback = λ i r. pure tt;
  send = λ i j m. pure (err (Error.new "silent"));
}

abbrev mute : Sender Known
mute = record { send_callback = λ i r. pure tt }

hall_created :
    (subscribe_task registry room none silent default_client []
      ≡ hall.subscribe none silent default_client (room ∷ []))
    × ((q : DestinationId)
        → known q (room ∷ []) ≡ ite (StringId-discrete room q) (some hall) (known q []))
unfolding StringId-discrete
hall_created =
    subscribe_task-creates registry map-IsVersionedMap room none silent default_client hall [] []
      refl refl

abbrev empty : Maps String ℕ Unit₀
empty = new

abbrev create_a : MapAction String ℕ Unit₀
create_a = get_or_create "a" (λ k. 1) tt

abbrev create_b : MapAction String ℕ Unit₀
create_b = get_or_create "b" (λ k. 2) tt

abbrev asked : MapReturnFuture String ℕ Unit₀
asked = get "a" (λ k. 1)

abbrev waiting : MapReturnFuture String ℕ Unit₀
waiting = record asked { factory = none }

abbrev with_a : Maps String ℕ Unit₀
with_a = record { published = ("a", 1) ∷ []; owned = ("a", 1) ∷ []; woken = [] }

first_box : Holds String-discrete (new_memory String-discrete) empty
unfolding ℕ_discrete
first_box = record { same_box = refl; same_map = refl; allocated = refl; fresh = omega arith }

serve_create-Holds_example :
    ((q : String)
      → deref String-discrete (new_memory String-discrete) 0 q
        ≡ some (get_sync String-discrete empty q))
    × Holds String-discrete
        (serve_create String-discrete (new_memory String-discrete) "a" (λ k. 1))
        (or_same empty (create_if_necessary String-discrete empty "a" (λ k. 1)))
serve_create-Holds_example =
    serve_create-Holds String-discrete (new_memory String-discrete) empty first_box "a" (λ k. 1)

abbrev first_memory : Memory String ℕ
first_memory = new_memory String-discrete

deref-freed_example :
    deref String-discrete (serve_create String-discrete first_memory "a" (λ k. 1)) 0 "a" ≡ none
unfolding get_sync HashMap.get
deref-freed_example =
    deref-freed String-discrete (new_memory String-discrete) empty first_box "a" "a" (λ k. 1) refl

poll-again_example :
    poll String-discrete empty waiting tt ≡ panic "called `Option::unwrap()` on a `None` value"
unfolding poll HashMap.get get_sync
poll-again_example = poll-again String-discrete empty empty asked waiting tt tt create_a refl refl
