-- ===== src/Bridge/Routing/Laws.antt =====
-- The table is a map from keys to lists of queues.
use ros2_modular_edge_offloa.Common.{
  ℕ, ◌≡◌, refl, Option, none, some, arith, List, [], ◌∷◌, ◌++◌, append-nil, if◌then◌else◌,
}
use ros2_modular_edge_offloa.Common.Maps.{find-insert, find-erase}
use ros2_modular_edge_offloa.Wire.Parse.{RoutingKey, key_eq, key_beq, key_beq_iff}
use ros2_modular_edge_offloa.Bridge.Routing.{
  RoutingTable, get_destinations, add_route, remove_routes_for_key,
}

-- What a sequence of calls promises of one key: a queue is added behind the others, a null pointer
-- changes nothing, and a removal clears the key.
pub data Change : Type 0 where
  add : RoutingKey → Option ℕ → Change
  remove : RoutingKey → Change

abbrev pub apply : RoutingTable → Change → RoutingTable
unfolding add_route remove_routes_for_key
apply t (add key queue) = add_route t key queue
apply t (remove key) = remove_routes_for_key t key

abbrev pub queue_list : Option ℕ → List ℕ
queue_list none = []
queue_list (some q) = q ∷ []

-- The specification of one change, for the list of one key.
abbrev pub promised : RoutingKey → List ℕ → Change → List ℕ
promised k queues (add key queue) = if key_beq key k then queues ++ queue_list queue else queues
promised k queues (remove key) = if key_beq key k then [] else queues

-- Every call changes the destinations of its own key as promised, and those of no other.
pub get_destinations-apply :
    (t : RoutingTable) (c : Change) (k : RoutingKey)
    → get_destinations (apply t c) k ≡ promised k (get_destinations t k) c
unfolding get_destinations apply
get_destinations-apply t (add key none) k = ground (arith, append-nil (get_destinations t k))
get_destinations-apply t (add key (some q)) k =
    ground
      (arith, find-insert key k (get_destinations t key ++ q ∷ []) t.actual_map, key_beq_iff key k)
get_destinations-apply t (remove key) k = ground (arith, find-erase key k t.actual_map)

pub get_destinations-add_route :
    (t : RoutingTable) (key k : RoutingKey) (q : ℕ)
    → get_destinations (add_route t key (some q)) k
      ≡ (if key_beq key k then get_destinations t k ++ q ∷ [] else get_destinations t k)
unfolding apply
get_destinations-add_route t key k q = get_destinations-apply t (add key (some q)) k

pub get_destinations-remove :
    (t : RoutingTable) (key k : RoutingKey)
    → get_destinations (remove_routes_for_key t key) k
      ≡ (if key_beq key k then [] else get_destinations t k)
unfolding apply
get_destinations-remove t key k = get_destinations-apply t (remove key) k

pub apply_all : RoutingTable → List Change → RoutingTable
unfolding apply
apply_all t [] = t
apply_all t (c ∷ cs) = apply_all (apply t c) cs

pub promised_all : RoutingKey → List ℕ → List Change → List ℕ
promised_all k queues [] = queues
promised_all k queues (c ∷ cs) = promised_all k (promised k queues c) cs

-- Any sequence of calls gives each key the list that the specification computes for that key alone: a queue
-- is added behind the others, a null pointer changes nothing, a removal clears the key.
pub get_destinations-apply_all :
    (t : RoutingTable) (cs : List Change) (k : RoutingKey)
    → get_destinations (apply_all t cs) k ≡ promised_all k (get_destinations t k) cs
unfolding apply_all promised_all
get_destinations-apply_all t [] k = refl
get_destinations-apply_all t (c ∷ cs) k =
    rw (← get_destinations-apply t c k) (get_destinations-apply_all (apply t c) cs k)
