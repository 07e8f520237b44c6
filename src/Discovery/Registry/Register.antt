-- ===== src/Discovery/Registry/Register.antt =====
-- The calls keep the registry consistent.
use ros2_modular_edge_offloa.Common.{
  ℕ, Bool, true, false, ◌||◌, ◌≡◌, inl, inr, arith, none, some, List, [], ◌∷◌, ◌==◌, if◌then◌else◌,
  Option-cases, Bool-cases, ==_iff,
}
use ros2_modular_edge_offloa.Common.Eq.{nat_eq}
use ros2_modular_edge_offloa.Common.Maps.{find, insert, erase, find-insert, find-erase}
use ros2_modular_edge_offloa.Discovery.Registry.{
  ComponentId, id_beq, id_beq_iff, id_eq, ComponentInfo, id_of, ComponentRegistry, is_bridge, is_om,
  is_id_taken, register_component, unregister_component, push_if, erase_if, erase_all,
}
use ros2_modular_edge_offloa.Discovery.Registry.Consistent.{IsConsistent, elem}

pub elem-push :
    (b : Bool) (c x : ℕ) (xs : List ℕ)
    → elem c (push_if b x xs) ≡ (elem c xs || (if b then x == c else false))
elem-push true c x [] = ground arith
elem-push false c x [] = ground arith
elem-push true c x (y ∷ ys) = ground (arith, elem-push true c x ys)
elem-push false c x (y ∷ ys) = ground arith

pub elem-erase_all :
    (c x : ℕ) (xs : List ℕ) → elem c (erase_all x xs) ≡ (if x == c then false else elem c xs)
elem-erase_all c x [] = ground arith
elem-erase_all c x (y ∷ ys) = ground (arith, elem-erase_all c x ys)

module _ (r : ComponentRegistry) (info : ComponentInfo) (v : IsConsistent r)
    (new : find info.client_id r.registry_by_client_id ≡ none)
    (free : is_id_taken r (id_of info) ≡ false) where
  registered : ComponentRegistry
  registered = record r {
    registry_by_client_id = insert info.client_id info r.registry_by_client_id;
    client_id_by_component_id = insert (id_of info) info.client_id r.client_id_by_component_id;
    bridge_client_ids = push_if (is_bridge info.component_type) info.client_id r.bridge_client_ids;
    om_client_ids = push_if (is_om info.component_type) info.client_id r.om_client_ids;
  }

  registered-own :
      (c : ℕ) (i : ComponentInfo)
      → find c registered.registry_by_client_id ≡ some i
      → (i.client_id ≡ c) × (find (id_of i) registered.client_id_by_component_id ≡ some c)
  unfolding registered is_id_taken
  registered-own c i e = ground (
    arith,
    find-insert info.client_id c info r.registry_by_client_id,
    find-insert (id_of info) (id_of i) info.client_id r.client_id_by_component_id,
    id_beq_iff (id_of info) (id_of i),
    ==_iff info.client_id c,
    v.own c i,
  )

  registered-back :
      (k : ComponentId) (c : ℕ)
      → find k registered.client_id_by_component_id ≡ some c
      → (i : ComponentInfo) × (find c registered.registry_by_client_id ≡ some i) × (id_of i ≡ k)
  unfolding registered
  registered-back k c e = elim (Bool-cases (id_beq (id_of info) k)) [
    | inl same ↦ (
      info,
      ground (
        arith,
        find-insert info.client_id c info r.registry_by_client_id,
        find-insert (id_of info) k info.client_id r.client_id_by_component_id,
      ),
      (id_beq_iff (id_of info) k).0 same,
    )
    | inr other ↦
        let old : find k r.client_id_by_component_id ≡ some c =
          ground (arith, find-insert (id_of info) k info.client_id r.client_id_by_component_id) in
        let w = v.back k c old in
        (w.0, ground (arith, find-insert info.client_id c info r.registry_by_client_id, w.1), w.2)
  ]

  registered-IsConsistent : IsConsistent registered
  unfolding registered
  registered-IsConsistent = record {
    own = registered-own;
    back = registered-back;
    bridges = λ c. ground (
      arith,
      find-insert info.client_id c info r.registry_by_client_id,
      elem-push (is_bridge info.component_type) c info.client_id r.bridge_client_ids,
      v.bridges c,
      ==_iff info.client_id c,
    );
    oms = λ c. ground (
      arith,
      find-insert info.client_id c info r.registry_by_client_id,
      elem-push (is_om info.component_type) c info.client_id r.om_client_ids,
      v.oms c,
      ==_iff info.client_id c,
    );
  }

-- A registration keeps the registry consistent, if the client has none yet.
pub register_component-IsConsistent :
    (r : ComponentRegistry) (info : ComponentInfo)
    → IsConsistent r
    → find info.client_id r.registry_by_client_id ≡ none
    → IsConsistent (register_component r info).0
unfolding register_component
register_component-IsConsistent r info v new = elim (Bool-cases (is_id_taken r (id_of info))) [
  | inl taken ↦ rw taken v
  | inr free ↦ rw free (unfold registered in registered-IsConsistent r info v new free)
]

module _ (r : ComponentRegistry) (c : ℕ) (info : ComponentInfo) (v : IsConsistent r)
    (known : find c r.registry_by_client_id ≡ some info) where
  removed : ComponentRegistry
  removed = record r {
    registry_by_client_id = erase c r.registry_by_client_id;
    client_id_by_component_id = erase (id_of info) r.client_id_by_component_id;
    bridge_client_ids = erase_if (is_bridge info.component_type) c r.bridge_client_ids;
    om_client_ids = erase_if (is_om info.component_type) c r.om_client_ids;
  }

  removed-own :
      (d : ℕ) (i : ComponentInfo)
      → find d removed.registry_by_client_id ≡ some i
      → (i.client_id ≡ d) × (find (id_of i) removed.client_id_by_component_id ≡ some d)
  unfolding removed
  removed-own d i e = ground (
    arith,
    find-erase c d r.registry_by_client_id,
    find-erase (id_of info) (id_of i) r.client_id_by_component_id,
    id_beq_iff (id_of info) (id_of i),
    ==_iff c d,
    v.own d i,
    v.own c info,
  )

  removed-back :
      (k : ComponentId) (d : ℕ)
      → find k removed.client_id_by_component_id ≡ some d
      → (i : ComponentInfo) × (find d removed.registry_by_client_id ≡ some i) × (id_of i ≡ k)
  unfolding removed
  removed-back k d e =
      let old : find k r.client_id_by_component_id ≡ some d =
        ground (arith, find-erase (id_of info) k r.client_id_by_component_id) in
      let w = v.back k d old in
      (
        w.0,
        ground (
          arith,
          find-erase c d r.registry_by_client_id,
          find-erase (id_of info) k r.client_id_by_component_id,
          id_beq_iff (id_of info) k,
          ==_iff c d,
          w.1,
          w.2,
        ),
        w.2,
      )

  removed-IsConsistent : IsConsistent removed
  unfolding removed
  removed-IsConsistent = record {
    own = removed-own;
    back = removed-back;
    bridges = λ d. ground (
      arith,
      find-erase c d r.registry_by_client_id,
      elem-erase_all d c r.bridge_client_ids,
      v.bridges d,
      ==_iff c d,
    );
    oms = λ d. ground (
      arith,
      find-erase c d r.registry_by_client_id,
      elem-erase_all d c r.om_client_ids,
      v.oms d,
      ==_iff c d,
    );
  }

pub unregister_component-IsConsistent :
    (r : ComponentRegistry) (c : ℕ) → IsConsistent r → IsConsistent (unregister_component r c)
unfolding unregister_component
unregister_component-IsConsistent r c v = elim (Option-cases (find c r.registry_by_client_id)) [
  | inl missing ↦ rw (missing, unregister_component) v
  | inr (info, known) ↦
      rw (known, unregister_component) (unfold removed in removed-IsConsistent r c info v known)
]
