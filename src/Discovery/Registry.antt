-- ===== src/Discovery/Registry.antt =====
-- DiscoveryService/src/component_registry.cpp: the registered components, with the maps and lists that find
-- them by component id, and the bridges and offloading managers for the round robin. `last_seen` is a tick
-- of the steady clock.
pub mod Consistent
pub mod Register
pub mod Reached
pub mod Lookup
pub mod Rounds
pub mod Stale
mod Tests
use ros2_modular_edge_offloa.Common.{
  ℕ, suc, ◌+◌, Bool, true, false, ◌&&◌, ◌≡◌, ◌↔◌, arith, Option, none, some, List, [], ◌∷◌, ◌++◌,
  Bytes, map, length, get_or, leb, ◌==◌, if◌then◌else◌,
}
use ros2_modular_edge_offloa.Common.Eq.{Eq, nat_eq}
use ros2_modular_edge_offloa.Common.Maps.{find, insert, erase, update}
use ros2_modular_edge_offloa.Discovery.Protocol.{
  ComponentType, vehicle, mec, bridge, offload_manager, test,
}

-- The pair (group_id, id_in_group).
pub record ComponentId : Type 0 where
  pub group : ℕ
  pub id : ℕ

abbrev pub id_beq : ComponentId → ComponentId → Bool
id_beq a b = a.group == b.group && a.id == b.id

pub id_beq_iff : (a b : ComponentId) → (id_beq a b ≡ true) ↔ (a ≡ b)
id_beq_iff a b = ground arith

instance abbrev pub id_eq : Eq ComponentId
id_eq = record { beq = id_beq; beq_iff = id_beq_iff }

pub record ComponentInfo : Type 0 where
  pub client_id : ℕ
  pub component_type : ComponentType
  pub group_id : ℕ
  pub id_in_group : ℕ
  pub component_subtype : ℕ
  pub name : Bytes
  pub listen_address : Bytes
  pub listen_port : ℕ
  pub last_seen : ℕ

abbrev pub id_of : ComponentInfo → ComponentId
id_of info = record { group = info.group_id; id = info.id_in_group }

pub record ComponentRegistry : Type 0 where
  pub registry_by_client_id : List (ℕ × ComponentInfo)
  pub client_id_by_component_id : List (ComponentId × ℕ)
  pub bridge_client_ids : List ℕ
  pub next_bridge_idx : ℕ
  pub om_client_ids : List ℕ
  pub next_om_idx : ℕ

abbrev pub empty_registry : ComponentRegistry
empty_registry = record {
  registry_by_client_id = [];
  client_id_by_component_id = [];
  bridge_client_ids = [];
  next_bridge_idx = 0;
  om_client_ids = [];
  next_om_idx = 0;
}

abbrev pub is_bridge : ComponentType → Bool
is_bridge bridge = true
is_bridge _ = false

abbrev pub is_om : ComponentType → Bool
is_om offload_manager = true
is_om _ = false

abbrev pub some? {ℓ} : {A : Type ℓ} → Option A → Bool
some? none = false
some? (some a) = true

unfoldable pub is_id_taken : ComponentRegistry → ComponentId → Bool
is_id_taken r k = some? (find k r.client_id_by_component_id)

abbrev pub push_if : Bool → ℕ → List ℕ → List ℕ
push_if c x xs = if c then xs ++ x ∷ [] else xs

unfoldable pub register_component : ComponentRegistry → ComponentInfo → ComponentRegistry × Bool
unfolding is_id_taken
register_component r info = if is_id_taken r (id_of info) then (r, false) else (
  record r {
    registry_by_client_id = insert info.client_id info r.registry_by_client_id;
    client_id_by_component_id = insert (id_of info) info.client_id r.client_id_by_component_id;
    bridge_client_ids = push_if (is_bridge info.component_type) info.client_id r.bridge_client_ids;
    om_client_ids = push_if (is_om info.component_type) info.client_id r.om_client_ids;
  },
  true,
)

-- The erase-remove idiom.
abbrev pub erase_all : ℕ → List ℕ → List ℕ
erase_all x [] = []
erase_all x (y ∷ ys) = let rest = erase_all x ys in if y == x then rest else y ∷ rest

abbrev pub erase_if : Bool → ℕ → List ℕ → List ℕ
erase_if c x xs = if c then erase_all x xs else xs

unfoldable pub unregister_component : ComponentRegistry → ℕ → ComponentRegistry
unregister_component r client_id = elim (find client_id r.registry_by_client_id) [
  | none ↦ r
  | some info ↦ record r {
    registry_by_client_id = erase client_id r.registry_by_client_id;
    client_id_by_component_id = erase (id_of info) r.client_id_by_component_id;
    bridge_client_ids = erase_if (is_bridge info.component_type) client_id r.bridge_client_ids;
    om_client_ids = erase_if (is_om info.component_type) client_id r.om_client_ids;
  }
]

unfoldable pub find_by_client_id : ComponentRegistry → ℕ → Option ComponentInfo
find_by_client_id r client_id = find client_id r.registry_by_client_id

-- The index at which the round robin looks.
abbrev pub wrap_index : ℕ → List ℕ → ℕ
wrap_index idx ids = if leb (length ids) idx then 0 else idx

unfoldable pub find_available_bridge : ComponentRegistry → ComponentRegistry × Option ComponentInfo
unfolding find_by_client_id
find_available_bridge r =
    let idx = wrap_index r.next_bridge_idx r.bridge_client_ids in
    if length r.bridge_client_ids == 0 then (r, none) else (
      record r { next_bridge_idx = suc idx },
      find_by_client_id r (get_or r.bridge_client_ids idx 0),
    )

unfoldable pub find_available_om : ComponentRegistry → ComponentRegistry × Option ComponentInfo
unfolding find_by_client_id
find_available_om r =
    let idx = wrap_index r.next_om_idx r.om_client_ids in
    if length r.om_client_ids == 0
    then (r, none)
    else (record r { next_om_idx = suc idx }, find_by_client_id r (get_or r.om_client_ids idx 0))

unfoldable pub get_all_client_ids : ComponentRegistry → List ℕ
get_all_client_ids r = map (λ p. p.0) r.registry_by_client_id

unfoldable pub get_all_components : ComponentRegistry → List ComponentInfo
get_all_components r = map (λ p. p.1) r.registry_by_client_id

unfoldable pub update_keepalive : ComponentRegistry → ComponentId → ℕ → ComponentRegistry × Bool
update_keepalive r k now = elim (find k r.client_id_by_component_id) [
  | none ↦ (r, false)
  | some client_id ↦ elim (find client_id r.registry_by_client_id) [
    | none ↦ (r, false)
    | some info ↦ (
      record r {
        registry_by_client_id =
            update client_id (λ i. record i { last_seen = now }) r.registry_by_client_id;
      },
      true,
    )
  ]
]
