-- ===== src/Bridge/Routing.antt =====
-- bridge/src/RoutingTable.cpp. A queue is named by a number, a shared pointer to one is an Option.
-- The calls hold the table's mutex, so each is one step.
pub mod Laws
mod Tests
use ros2_modular_edge_offloa.Common.{ℕ, Option, none, some, List, [], ◌∷◌, ◌++◌}
use ros2_modular_edge_offloa.Common.Maps.{find, insert, erase}
use ros2_modular_edge_offloa.Wire.Parse.{RoutingKey, key_eq}

pub record RoutingTable : Type 0 where
  pub actual_map : List (RoutingKey × List ℕ)
  pub max_expected_routes : ℕ

pub empty_table : ℕ → RoutingTable
empty_table max_expected_routes = record {
  actual_map = [];
  max_expected_routes = max_expected_routes;
}

abbrev or_empty : Option (List ℕ) → List ℕ
or_empty none = []
or_empty (some queues) = queues

unfoldable pub get_destinations : RoutingTable → RoutingKey → List ℕ
get_destinations t key = or_empty (find key t.actual_map)

-- `actual_map_[key].push_back(destination_queue)`, unless the pointer is null.
unfoldable pub add_route : RoutingTable → RoutingKey → Option ℕ → RoutingTable
add_route t key none = t
add_route t key (some queue) = record t {
  actual_map = insert key (or_empty (find key t.actual_map) ++ queue ∷ []) t.actual_map;
}

unfoldable pub remove_routes_for_key : RoutingTable → RoutingKey → RoutingTable
remove_routes_for_key t key = record t { actual_map = erase key t.actual_map }
