-- ===== src/Discovery/Registry/Reached.antt =====
-- The registries that the calls can make, and what the look-ups answer in them.
use ros2_modular_edge_offloa.Common.{
  ℕ, ◌≡◌, inl, inr, arith, none, some, length, ◌==◌, if◌then◌else◌, Option-cases, Bool-cases,
  ==_iff,
}
use ros2_modular_edge_offloa.Common.Eq.{nat_eq}
use ros2_modular_edge_offloa.Common.Maps.{find, update, find-update_self, find-update_ne}
use ros2_modular_edge_offloa.Discovery.Registry.{
  ComponentId, id_eq, ComponentInfo, id_of, ComponentRegistry, empty_registry,
  find_available_bridge, find_available_om, find_by_client_id, register_component,
  unregister_component, update_keepalive,
}
use ros2_modular_edge_offloa.Discovery.Registry.Consistent.{
  IsConsistent, empty_registry-IsConsistent,
}
use ros2_modular_edge_offloa.Discovery.Registry.Register.{
  register_component-IsConsistent, unregister_component-IsConsistent,
}

module _ (r : ComponentRegistry) (c now : ℕ) (info : ComponentInfo) (v : IsConsistent r)
    (known : find c r.registry_by_client_id ≡ some info) where
  touch : ComponentInfo → ComponentInfo
  touch i = record i { last_seen = now }

  touched : ComponentRegistry
  touched = record r { registry_by_client_id = update c touch r.registry_by_client_id }

  find-touched :
      (d : ℕ)
      → find d touched.registry_by_client_id
        ≡ (if c == d then some (touch info) else find d r.registry_by_client_id)
  unfolding touched
  find-touched d = ground (
    arith,
    find-update_self c touch info r.registry_by_client_id,
    find-update_ne c d touch r.registry_by_client_id,
    ==_iff c d,
  )

  touched-own :
      (d : ℕ) (i : ComponentInfo)
      → find d touched.registry_by_client_id ≡ some i
      → (i.client_id ≡ d) × (find (id_of i) touched.client_id_by_component_id ≡ some d)
  unfolding touched touch
  touched-own d i e = ground (arith, find-touched d, ==_iff c d, v.own d i, v.own c info)

  touched-back :
      (k : ComponentId) (d : ℕ)
      → find k touched.client_id_by_component_id ≡ some d
      → (i : ComponentInfo) × (find d touched.registry_by_client_id ≡ some i) × (id_of i ≡ k)
  unfolding touched touch
  touched-back k d e =
      let w = v.back k d e in
      elim (Bool-cases (c == d)) [
        | inl same ↦
            (touch info, ground (arith, find-touched d), ground (arith, ==_iff c d, w.1, w.2))
        | inr other ↦ (w.0, ground (arith, find-touched d, w.1), w.2)
      ]

  touched-IsConsistent : IsConsistent touched
  unfolding touched touch
  touched-IsConsistent = record {
    own = touched-own;
    back = touched-back;
    bridges = λ d. ground (arith, find-touched d, ==_iff c d, v.bridges d);
    oms = λ d. ground (arith, find-touched d, ==_iff c d, v.oms d);
  }

update_keepalive-IsConsistent :
    (r : ComponentRegistry) (k : ComponentId) (now : ℕ)
    → IsConsistent r
    → IsConsistent (update_keepalive r k now).0
unfolding update_keepalive
update_keepalive-IsConsistent r k now v = elim (Option-cases (find k r.client_id_by_component_id)) [
  | inl missing ↦ rw (missing, update_keepalive) v
  | inr (c, found) ↦ elim (Option-cases (find c r.registry_by_client_id)) [
    | inl gone ↦ rw (found, gone, update_keepalive) v
    | inr (info, known) ↦
        rw (found, known, update_keepalive)
          (unfold touched touch in touched-IsConsistent r c now info v known)
  ]
]

module _ (r : ComponentRegistry) (v : IsConsistent r) where
  pub find_available_bridge-IsConsistent : IsConsistent (find_available_bridge r).0
  unfolding find_available_bridge
  find_available_bridge-IsConsistent = elim (Bool-cases (length r.bridge_client_ids == 0)) [
    | inl none_there ↦ rw none_there v
    | inr some_there ↦
        rw some_there (record { own = v.own; back = v.back; bridges = v.bridges; oms = v.oms })
  ]

  pub find_available_om-IsConsistent : IsConsistent (find_available_om r).0
  unfolding find_available_om
  find_available_om-IsConsistent = elim (Bool-cases (length r.om_client_ids == 0)) [
    | inl none_there ↦ rw none_there v
    | inr some_there ↦
        rw some_there (record { own = v.own; back = v.back; bridges = v.bridges; oms = v.oms })
  ]

-- The registries after any sequence of calls in which no client registers while it is registered.
pub data Reached : ComponentRegistry → Type 0 where
  start : Reached empty_registry
  register :
      {r : ComponentRegistry} (info : ComponentInfo)
      → find_by_client_id r info.client_id ≡ none
      → Reached r
      → Reached (register_component r info).0
  unregister : {r : ComponentRegistry} (c : ℕ) → Reached r → Reached (unregister_component r c)
  keepalive :
      {r : ComponentRegistry} (k : ComponentId) (now : ℕ)
      → Reached r
      → Reached (update_keepalive r k now).0
  next_bridge : {r : ComponentRegistry} → Reached r → Reached (find_available_bridge r).0
  next_om : {r : ComponentRegistry} → Reached r → Reached (find_available_om r).0

-- In every registry that the calls can make, if no client registers while it is registered, the map from
-- clients and the map from ids agree, and the two lists hold the registered bridges and managers.
pub Reached-IsConsistent : (r : ComponentRegistry) → Reached r → IsConsistent r
unfolding find_by_client_id
Reached-IsConsistent _ start = empty_registry-IsConsistent
Reached-IsConsistent _ (register {r} info new before) =
    register_component-IsConsistent r info (Reached-IsConsistent r before) new
Reached-IsConsistent _ (unregister {r} c before) =
    unregister_component-IsConsistent r c (Reached-IsConsistent r before)
Reached-IsConsistent _ (keepalive {r} k now before) =
    update_keepalive-IsConsistent r k now (Reached-IsConsistent r before)
Reached-IsConsistent _ (next_bridge {r} before) =
    find_available_bridge-IsConsistent r (Reached-IsConsistent r before)
Reached-IsConsistent _ (next_om {r} before) =
    find_available_om-IsConsistent r (Reached-IsConsistent r before)
