-- ===== src/Discovery/Service/Registration/Consistency.antt =====
-- What a registration does to the registry and to the configuration.
use ros2_modular_edge_offloa.Common.{ℕ, true, ◌||◌, Option, none, some, Bytes, codes}
use ros2_modular_edge_offloa.Common.Eq.{nat_eq}
use ros2_modular_edge_offloa.Common.Int.{u16}
use ros2_modular_edge_offloa.Common.Decimal.{stoi}
use ros2_modular_edge_offloa.Discovery.Protocol.{success, RegistrationRequest, RegistrationResponse}
use ros2_modular_edge_offloa.Discovery.Registry.{
  ComponentInfo, ComponentRegistry, is_bridge, is_om, is_id_taken, find_available_bridge,
  find_available_om, get_all_components,
}
use ros2_modular_edge_offloa.Discovery.Service.{DiscoveryService, Blank, new_response, answer}
use ros2_modular_edge_offloa.Common.{◌≡◌, inl, inr, arith, Bool-cases, Option-cases, inl}
use ros2_modular_edge_offloa.Discovery.Registry.{find_by_client_id, id_eq}
use ros2_modular_edge_offloa.Discovery.Service.Registration.{
  requested_id, networked_phase, target_phase, with_target, common_phase, register_phase,
  registration, info_of, is_set, is_vehicle, is_mec, connect_to, after_phase,
}
use ros2_modular_edge_offloa.Discovery.Registry.Consistent.{IsConsistent}
use ros2_modular_edge_offloa.Discovery.Registry.Register.{register_component-IsConsistent}
use ros2_modular_edge_offloa.Discovery.Registry.Reached.{
  find_available_bridge-IsConsistent, find_available_om-IsConsistent,
}
use ros2_modular_edge_offloa.Discovery.Service.Registration.{p2p_phase, find_mec}
use ros2_modular_edge_offloa.Discovery.Service.Registration.Outcome.{
  register_flag, bridge_same, om_same, registration_networked,
}

-- The client is not registered, and the registry is consistent.
pub record IsOpen (c : ℕ) (r : ComponentRegistry) : Type 0 where
  pub consistent : IsConsistent r
  pub unknown : find_by_client_id r c ≡ none

common_phase-IsConsistent :
    (s : DiscoveryService) (c : ℕ) (req : RegistrationRequest) (resp : RegistrationResponse)
    (now : ℕ)
    → IsOpen c s.registry
    → IsConsistent (common_phase s c req resp now).0.registry
unfolding common_phase register_phase find_by_client_id
common_phase-IsConsistent s c req resp now v =
    elim (Bool-cases (is_id_taken s.registry (requested_id req))) [
      | inl taken ↦ rw taken v.consistent
      | inr free ↦ elim (Option-cases (stoi req.listen_port)) [
        | inl bad ↦ rw (free, bad) v.consistent
        | inr (port, good) ↦
            let info = info_of s c req (u16 port) now in
            rw (free, good)
              (rw (register_flag s.registry info free)
                (register_component-IsConsistent s.registry info v.consistent v.unknown))
      ]
    ]

module _ (s : DiscoveryService) (c : ℕ) (req : RegistrationRequest) (resp : RegistrationResponse)
    (now : ℕ) where
  with_target-IsConsistent :
      (text : Bytes) (r : ComponentRegistry) (o : Option ComponentInfo)
      → IsOpen c r
      → IsConsistent (after_phase c req now (with_target s resp text (r, o))).0.registry
  unfolding after_phase
  with_target-IsConsistent text r none v = v.consistent
  with_target-IsConsistent text r (some info) v =
      common_phase-IsConsistent (record s { registry = r }) c req (connect_to resp info) now v

  bridge-IsOpen : IsOpen c s.registry → IsOpen c (find_available_bridge s.registry).0
  unfolding find_by_client_id
  bridge-IsOpen v = record {
    consistent = find_available_bridge-IsConsistent s.registry v.consistent;
    unknown = ground (arith, bridge_same s.registry, v.unknown);
  }

  om-IsOpen : IsOpen c s.registry → IsOpen c (find_available_om s.registry).0
  unfolding find_by_client_id
  om-IsOpen v = record {
    consistent = find_available_om-IsConsistent s.registry v.consistent;
    unknown = ground (arith, om_same s.registry, v.unknown);
  }

target_phase-IsConsistent :
    (s : DiscoveryService) (c : ℕ) (req : RegistrationRequest) (resp : RegistrationResponse)
    (now : ℕ)
    → IsOpen c s.registry
    → IsConsistent (after_phase c req now (target_phase s req resp)).0.registry
unfolding target_phase after_phase
target_phase-IsConsistent s c req resp now v =
    elim (Bool-cases (is_id_taken s.registry (requested_id req))) [
      | inl taken ↦ rw taken v.consistent
      | inr free ↦ elim (Bool-cases (is_vehicle req.component_type || is_mec req.component_type)) [
        | inl gateway ↦
            let b = find_available_bridge s.registry in
            rw (free, gateway)
              (with_target-IsConsistent s c req resp now
                (codes "No Bridge component is currently available.") b.0 b.1
                (bridge-IsOpen s c req resp now v))
        | inr no_gateway ↦ elim (Bool-cases (is_bridge req.component_type)) [
          | inl a_bridge ↦
              let o = find_available_om s.registry in
              rw (free, no_gateway, a_bridge)
                (with_target-IsConsistent s c req resp now
                  (codes "No Offloading Manager is currently available.") o.0 o.1
                  (om-IsOpen s c req resp now v))
          | inr other ↦ rw (free, no_gateway, other) (common_phase-IsConsistent s c req resp now v)
        ]
      ]
    ]

networked_phase-IsConsistent :
    (s : DiscoveryService) (c : ℕ) (req : RegistrationRequest) (resp : RegistrationResponse)
    (now : ℕ)
    → IsOpen c s.registry
    → IsConsistent (after_phase c req now (networked_phase s req resp)).0.registry
unfolding networked_phase after_phase
networked_phase-IsConsistent s c req resp now v = elim (Bool-cases (is_om req.component_type)) [
  | inl om ↦ rw om (
      target_phase-IsConsistent
        (record s { global_configuration = some req.human_readable_message }) c req resp now v)
  | inr other ↦ elim (Bool-cases (is_set s.global_configuration)) [
    | inl set ↦ rw (other, set) (target_phase-IsConsistent s c req resp now v)
    | inr unset ↦ rw (other, unset) v.consistent
  ]
]

p2p_phase-IsConsistent :
    (s : DiscoveryService) (c : ℕ) (req : RegistrationRequest) (resp : RegistrationResponse)
    (now : ℕ)
    → IsOpen c s.registry
    → IsConsistent (after_phase c req now (p2p_phase s c req resp)).0.registry
unfolding p2p_phase after_phase
p2p_phase-IsConsistent s c req resp now v = elim (Bool-cases (is_vehicle req.component_type)) [
  | inl a_vehicle ↦ elim (Option-cases (find_mec req (get_all_components s.registry))) [
    | inl missing ↦ rw (a_vehicle, missing) v.consistent
    | inr (comp, found) ↦ rw (a_vehicle, found) v.consistent
  ]
  | inr other ↦ elim (Bool-cases (is_mec req.component_type)) [
    | inl a_mec ↦
        rw (other, a_mec)
          (common_phase-IsConsistent s c req
            (answer resp success (codes "MEC registered in P2P mode.")) now v)
    | inr neither ↦ rw (other, neither) v.consistent
  ]
]

registration_p2p :
    (s : DiscoveryService) (c : ℕ) (req : RegistrationRequest) (blank : Blank) (now : ℕ)
    → s.p2p_mode ≡ true
    → registration s c req blank now
      ≡ after_phase c req now (p2p_phase s c req (new_response blank req))
unfolding registration
registration_p2p s c req blank now p2p = ground arith

-- In both modes a registration keeps the registry consistent, if the client is not registered yet.
pub registration-IsConsistent :
    (s : DiscoveryService) (c : ℕ) (req : RegistrationRequest) (blank : Blank) (now : ℕ)
    → IsOpen c s.registry
    → IsConsistent (registration s c req blank now).0.registry
registration-IsConsistent s c req blank now v = elim (Bool-cases s.p2p_mode) [
  | inl p2p ↦
      rw (registration_p2p s c req blank now p2p)
        (p2p_phase-IsConsistent s c req (new_response blank req) now v)
  | inr networked ↦
      rw (registration_networked s c req blank now networked)
        (networked_phase-IsConsistent s c req (new_response blank req) now v)
]
