-- ===== src/Discovery/Registry/Consistent.antt =====
-- What ties the maps and lists of the registry together.
use ros2_modular_edge_offloa.Common.{
  ℕ, zero, suc, ◌<◌, Bool, true, false, ◌||◌, ◌≡◌, refl, arith, Option, none, some, List, [], ◌∷◌,
  length, get_or, ◌==◌,
}
use ros2_modular_edge_offloa.Common.Eq.{nat_eq}
use ros2_modular_edge_offloa.Common.Maps.{find}
use ros2_modular_edge_offloa.Discovery.Protocol.{ComponentType}
use ros2_modular_edge_offloa.Discovery.Registry.{
  ComponentId, id_eq, ComponentInfo, id_of, ComponentRegistry, empty_registry, is_bridge, is_om,
}

abbrev pub elem : ℕ → List ℕ → Bool
elem x [] = false
elem x (y ∷ ys) = (y == x) || elem x ys

abbrev pub has_type : (ComponentType → Bool) → Option ComponentInfo → Bool
has_type p none = false
has_type p (some info) = p info.component_type

-- Both maps know the same components, and the lists are those of the registered bridges and managers.
pub record IsConsistent (r : ComponentRegistry) : Type 0 where
  pub own :
      (c : ℕ) (info : ComponentInfo)
      → find c r.registry_by_client_id ≡ some info
      → (info.client_id ≡ c) × (find (id_of info) r.client_id_by_component_id ≡ some c)
  pub back :
      (k : ComponentId) (c : ℕ)
      → find k r.client_id_by_component_id ≡ some c
      → (info : ComponentInfo) × (find c r.registry_by_client_id ≡ some info) × (id_of info ≡ k)
  pub bridges :
      (c : ℕ) → elem c r.bridge_client_ids ≡ has_type is_bridge (find c r.registry_by_client_id)
  pub oms : (c : ℕ) → elem c r.om_client_ids ≡ has_type is_om (find c r.registry_by_client_id)

pub empty_registry-IsConsistent : IsConsistent empty_registry
unfolding find
empty_registry-IsConsistent = record {
  own = λ c info e. absurd (cc);
  back = λ k c e. absurd (cc);
  bridges = λ c. refl;
  oms = λ c. refl;
}

pub get_or-elem : (xs : List ℕ) (i : ℕ) → i < length xs → elem (get_or xs i 0) xs ≡ true
get_or-elem [] i h = absurd (omega arith)
get_or-elem (x ∷ xs) zero h = ground arith
get_or-elem (x ∷ xs) (suc i) h = ground (arith, get_or-elem xs i)
