-- ===== src/Bridge/Routing/Tests.antt =====
-- Runs of the routing table, and its theorem at a concrete input.
use ros2_modular_edge_offloa.Common.{◌≡◌, refl, some, [], ◌∷◌}
use ros2_modular_edge_offloa.Common.Maps.{find}
use ros2_modular_edge_offloa.Wire.Parse.{RoutingKey}
use ros2_modular_edge_offloa.Bridge.Routing.{empty_table, get_destinations}
use ros2_modular_edge_offloa.Bridge.Routing.Laws.{
  add, remove, apply_all, promised_all, get_destinations-apply_all,
}

abbrev key : RoutingKey
key = record { source_id = 15365; message_type = 1 }

empty : get_destinations (empty_table 8) key ≡ []
unfolding empty_table get_destinations find
empty = refl

get_destinations-apply_all_example :
    get_destinations
      (apply_all (empty_table 8) (add key (some 4) ∷ remove key ∷ add key (some 7) ∷ []))
      key
    ≡ promised_all key
        (get_destinations (empty_table 8) key)
        (add key (some 4) ∷ remove key ∷ add key (some 7) ∷ [])
get_destinations-apply_all_example =
    get_destinations-apply_all (empty_table 8)
      (add key (some 4) ∷ remove key ∷ add key (some 7) ∷ []) key
