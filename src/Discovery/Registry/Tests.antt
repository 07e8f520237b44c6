-- ===== src/Discovery/Registry/Tests.antt =====
-- Runs of the registry, and its theorems at concrete inputs.
use ros2_modular_edge_offloa.Common.{
  List, All, length, ℕ, true, ◌≡◌, refl, ◌↔◌, arith, none, some, [], ◌∷◌, map,
}
use ros2_modular_edge_offloa.Common.Eq.{nat_eq}
use ros2_modular_edge_offloa.Common.Maps.{find, insert}
use ros2_modular_edge_offloa.Discovery.Protocol.{ComponentType}
use ros2_modular_edge_offloa.Discovery.Registry.{
  is_bridge, id_eq, ComponentInfo, id_of, ComponentRegistry, empty_registry, find_by_client_id,
  is_id_taken, register_component, unregister_component,
}
use ros2_modular_edge_offloa.Discovery.Registry.Consistent.{IsConsistent, elem, has_type}
use ros2_modular_edge_offloa.Discovery.Registry.Reached.{Reached, Reached-IsConsistent}
use ros2_modular_edge_offloa.Common.{codes}
use ros2_modular_edge_offloa.Discovery.Registry.{get_all_client_ids, get_all_components}
use ros2_modular_edge_offloa.Discovery.Registry.Reached.{
  start, register, unregister, Reached-IsConsistent,
}
use ros2_modular_edge_offloa.Discovery.Registry.Lookup.{is_id_taken_iff, picks}
use ros2_modular_edge_offloa.Discovery.Registry.Rounds.{NoRepeat, find_available_bridge_round}
use ros2_modular_edge_offloa.Discovery.Registry.Stale.{unregister_component_stale}

abbrev a_bridge : ComponentInfo
a_bridge = record {
  client_id = 3;
  component_type = ComponentType.bridge;
  group_id = 10;
  id_in_group = 1;
  component_subtype = 0;
  name = codes "bridge";
  listen_address = codes "10.0.0.2";
  listen_port = 9000;
  last_seen = 0;
}

abbrev other_bridge : ComponentInfo
other_bridge = record a_bridge { client_id = 4; id_in_group = 2 }

abbrev first_registry : ComponentRegistry
first_registry = (register_component empty_registry a_bridge).0

abbrev two_bridges : ComponentRegistry
two_bridges = (register_component first_registry other_bridge).0

ids : get_all_client_ids two_bridges ≡ 3 ∷ 4 ∷ []
unfolding get_all_client_ids register_component is_id_taken find insert
ids = refl

components : get_all_components two_bridges ≡ a_bridge ∷ other_bridge ∷ []
unfolding get_all_components register_component is_id_taken find insert
components = refl

one_bridge : Reached first_registry
unfolding find_by_client_id find
one_bridge = register a_bridge refl start

Reached-IsConsistent_example : IsConsistent (unregister_component first_registry 3)
Reached-IsConsistent_example =
    Reached-IsConsistent (unregister_component first_registry 3) (unregister 3 one_bridge)

is_id_taken_iff_example : (is_id_taken first_registry (id_of a_bridge) ≡ true) ↔ (
    (c : ℕ) × (info : ComponentInfo) × (find_by_client_id first_registry c ≡ some info)
    × (id_of info ≡ id_of a_bridge))
is_id_taken_iff_example = is_id_taken_iff first_registry (id_of a_bridge) one_bridge

both_bridges : Reached two_bridges
unfolding find_by_client_id find insert register_component is_id_taken
both_bridges = register other_bridge refl one_bridge

find_available_bridge_round_example :
    (infos : List ComponentInfo) × (picks (length two_bridges.bridge_client_ids) two_bridges
      ≡ map some infos)
    × NoRepeat (map (λ i. i.client_id) infos)
    × All (λ i. find_by_client_id two_bridges i.client_id ≡ some i) infos
    × ((c : ℕ)
        → elem c (map (λ i. i.client_id) infos)
          ≡ has_type is_bridge (find_by_client_id two_bridges c))
unfolding register_component is_id_taken find insert
find_available_bridge_round_example = find_available_bridge_round two_bridges both_bridges refl

unregister_component_stale_example :
    (is_id_taken
        (unregister_component
          (register_component first_registry (record a_bridge { id_in_group = 7 })).0
          3)
        (id_of a_bridge)
      ≡ true)
    × (find_by_client_id
          (unregister_component
            (register_component first_registry (record a_bridge { id_in_group = 7 })).0
            3)
          3
        ≡ none)
unfolding is_id_taken find
unregister_component_stale_example =
    unregister_component_stale empty_registry a_bridge (record a_bridge { id_in_group = 7 }) refl
      (ground arith) refl refl
