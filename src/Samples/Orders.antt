-- ===== src/Samples/Orders.antt =====
-- One map of two subscriptions, in its two orders.
use little_stomper.Prelude.{String-discrete, refl, none, [], ◌∷◌}
use mathlib.Core.List.{Permᴰ}
use little_stomper.Prelude.HashMap
use little_stomper.Ids.{StringId-discrete, from_str}
use little_stomper.InMemory.Backend.{handle_action}
use little_stomper.InMemory.Validity.{IsValid}
use little_stomper.System.Moves.{Backend, begin}
use little_stomper.System.Shared.{Post, sends, new_id, action_of}
use little_stomper.System.Broker.Orders.{IsSameWorld}
use little_stomper.System.Broker.Iteration.{SameOutcome, handle_action-SameOutcome}
use little_stomper.Samples.Protocol.{frames}
use little_stomper.Samples.World.{news, my_id}
use little_stomper.Samples.Owners.{name, subscription_of}

abbrev one_way : Backend frames
one_way = record {
  id = news;
  subscriptions =
      (from_str "a", subscription_of 1 "a") ∷ (from_str "b", subscription_of 2 "b") ∷ [];
}

abbrev other_way : Backend frames
other_way = record {
  id = news;
  subscriptions =
      (from_str "b", subscription_of 2 "b") ∷ (from_str "a", subscription_of 1 "a") ∷ [];
}

one_way-IsValid : IsValid one_way
unfolding HashMap.get StringId-discrete String-discrete
one_way-IsValid = record { distinct = (refl, (refl, tt)); keyed = (refl, (refl, tt)) }

other_way-IsValid : IsValid other_way
unfolding HashMap.get StringId-discrete String-discrete
other_way-IsValid = record { distinct = (refl, (refl, tt)); keyed = (refl, (refl, tt)) }

abbrev a_message : Post
a_message = sends 3 (record { sender_message_id = none; body = 7 ∷ [] })

handle_action-SameOutcome_example :
    SameOutcome
      (handle_action (new_id name) one_way (action_of a_message) begin.shared).0
      (handle_action (new_id name) other_way (action_of a_message) begin.shared).0
    × IsSameWorld
        (handle_action (new_id name) one_way (action_of a_message) begin.shared).1
        (handle_action (new_id name) other_way (action_of a_message) begin.shared).1
handle_action-SameOutcome_example =
    handle_action-SameOutcome name news one_way other_way
      ((from_str "a", (1, my_id)) ∷ (from_str "b", (2, my_id)) ∷ []) a_message begin.shared refl
      refl one_way-IsValid other_way-IsValid (refl, (refl, refl), (refl, (refl, refl), tt))
      (Permᴰ.swap refl refl)
