-- ===== src/Discovery/Service/Registration/Outcome.antt =====
-- What a registration leads to.
use ros2_modular_edge_offloa.Common.{ℕ, true, false, ◌||◌, Option, none, some, Bytes, codes}
use ros2_modular_edge_offloa.Common.Eq.{nat_eq}
use ros2_modular_edge_offloa.Common.Int.{u16}
use ros2_modular_edge_offloa.Common.Decimal.{stoi}
use ros2_modular_edge_offloa.Discovery.Protocol.{success, RegistrationRequest, RegistrationResponse}
use ros2_modular_edge_offloa.Discovery.Registry.{
  ComponentInfo, id_of, ComponentRegistry, is_bridge, is_om, is_id_taken, register_component,
  find_available_bridge, find_available_om,
}
use ros2_modular_edge_offloa.Discovery.Service.{DiscoveryService, Blank, new_response}
use ros2_modular_edge_offloa.Common.{
  ◌≡◌, ◌≢◌, refl, ◌∙◌, ◌⊎◌, inl, inr, arith, Bool-cases, Option-cases, ==_iff, inl,
}
use ros2_modular_edge_offloa.Common.Maps.{find-insert}
use ros2_modular_edge_offloa.Discovery.Registry.{find_by_client_id, id_eq}
use ros2_modular_edge_offloa.Discovery.Service.Registration.{
  requested_id, networked_phase, target_phase, with_target, common_phase, register_phase,
  registration, config_or_empty, info_of, is_set, is_vehicle, is_mec, connect_to, after_phase,
}

-- The client is registered under the type and the id that it asked for, and gets the configuration.
abbrev pub Registers : ℕ → RegistrationRequest → DiscoveryService × RegistrationResponse → Type 0
Registers c req r =
    (r.1.response_code ≡ success)
    × (r.1.config_json ≡ config_or_empty r.0.global_configuration)
    × ((info : ComponentInfo) × (find_by_client_id r.0.registry c ≡ some info)
        × (id_of info ≡ requested_id req)
        × (info.component_type ≡ req.component_type))

-- No component is registered or forgotten.
abbrev pub Refuses : DiscoveryService → DiscoveryService × RegistrationResponse → Type 0
Refuses s r =
    (r.1.response_code ≢ success)
    × (r.0.registry.registry_by_client_id ≡ s.registry.registry_by_client_id)
    × (r.0.registry.client_id_by_component_id ≡ s.registry.client_id_by_component_id)

module _ (r : ComponentRegistry) (info : ComponentInfo)
    (free : is_id_taken r (id_of info) ≡ false) where
  pub register_flag : (register_component r info).1 ≡ true
  unfolding register_component
  register_flag = rw free refl

  register_find : find_by_client_id (register_component r info).0 info.client_id ≡ some info
  unfolding register_component find_by_client_id
  register_find = rw free (
      ground (
        arith,
        find-insert info.client_id info.client_id info r.registry_by_client_id,
        ==_iff info.client_id info.client_id,
      ))

register_phase_lem :
    (s : DiscoveryService) (c : ℕ) (req : RegistrationRequest) (resp : RegistrationResponse)
    (port now : ℕ)
    → is_id_taken s.registry (requested_id req) ≡ false
    → Registers c req (register_phase s c resp (info_of s c req port now))
unfolding register_phase
register_phase_lem s c req resp port now free =
    let info = info_of s c req port now in
    rw (register_flag s.registry info free)
      (refl, refl, (info, register_find s.registry info free, refl, refl))

common_phase_lem :
    (s : DiscoveryService) (c : ℕ) (req : RegistrationRequest) (resp : RegistrationResponse)
    (now : ℕ)
    → Registers c req (common_phase s c req resp now) ⊎ Refuses s (common_phase s c req resp now)
unfolding common_phase
common_phase_lem s c req resp now = elim (Bool-cases (is_id_taken s.registry (requested_id req))) [
  | inl taken ↦ inr (rw taken ((λ e. cc), refl, refl))
  | inr free ↦ elim (Option-cases (stoi req.listen_port)) [
    | inl bad ↦ inr (rw (free, bad) ((λ e. cc), refl, refl))
    | inr (port, good) ↦ inl (rw (free, good) (register_phase_lem s c req resp (u16 port) now free))
  ]
]

-- The round robin's registry has the same components.
refusal :
    (s : DiscoveryService) (c : ℕ) (req : RegistrationRequest) (r : ComponentRegistry)
    (out : DiscoveryService × RegistrationResponse)
    → r.registry_by_client_id ≡ s.registry.registry_by_client_id
    → r.client_id_by_component_id ≡ s.registry.client_id_by_component_id
    → Registers c req out ⊎ Refuses (record s { registry = r }) out
    → Registers c req out ⊎ Refuses s out
refusal s c req r out e f (inl done) = inl done
refusal s c req r out e f (inr (code, g, h)) = inr (code, g ∙ e, h ∙ f)

with_target_lem :
    (s : DiscoveryService) (c : ℕ) (req : RegistrationRequest) (resp : RegistrationResponse)
    (text : Bytes) (now : ℕ) (r : ComponentRegistry) (o : Option ComponentInfo)
    → r.registry_by_client_id ≡ s.registry.registry_by_client_id
    → r.client_id_by_component_id ≡ s.registry.client_id_by_component_id
    → let out = after_phase c req now (with_target s resp text (r, o)) in
      Registers c req out ⊎ Refuses s out
unfolding after_phase
with_target_lem s c req resp text now r none e f = inr ((λ e. cc), e, f)
with_target_lem s c req resp text now r (some info) e f =
    refusal s c req r (common_phase (record s { registry = r }) c req (connect_to resp info) now) e
      f (common_phase_lem (record s { registry = r }) c req (connect_to resp info) now)

module _ (r : ComponentRegistry) where
  pub bridge_same :
      ((find_available_bridge r).0.registry_by_client_id ≡ r.registry_by_client_id)
      × ((find_available_bridge r).0.client_id_by_component_id ≡ r.client_id_by_component_id)
  unfolding find_available_bridge
  bridge_same = ground arith

  pub om_same :
      ((find_available_om r).0.registry_by_client_id ≡ r.registry_by_client_id)
      × ((find_available_om r).0.client_id_by_component_id ≡ r.client_id_by_component_id)
  unfolding find_available_om
  om_same = ground arith

target_phase_lem :
    (s : DiscoveryService) (c : ℕ) (req : RegistrationRequest) (resp : RegistrationResponse)
    (now : ℕ)
    → Registers c req (after_phase c req now (target_phase s req resp))
      ⊎ Refuses s (after_phase c req now (target_phase s req resp))
unfolding target_phase after_phase
target_phase_lem s c req resp now = elim (Bool-cases (is_id_taken s.registry (requested_id req))) [
  | inl taken ↦ inr (rw taken ((λ e. cc), refl, refl))
  | inr free ↦ elim (Bool-cases (is_vehicle req.component_type || is_mec req.component_type)) [
    | inl gateway ↦
        let b = bridge_same s.registry in
        rw (free, gateway)
          (with_target_lem s c req resp (codes "No Bridge component is currently available.") now
            (find_available_bridge s.registry).0 (find_available_bridge s.registry).1 b.0 b.1)
    | inr no_gateway ↦ elim (Bool-cases (is_bridge req.component_type)) [
      | inl a_bridge ↦
          let o = om_same s.registry in
          rw (free, no_gateway, a_bridge)
            (with_target_lem s c req resp (codes "No Offloading Manager is currently available.")
              now (find_available_om s.registry).0 (find_available_om s.registry).1 o.0 o.1)
      | inr other ↦ rw (free, no_gateway, other) (common_phase_lem s c req resp now)
    ]
  ]
]

networked_phase_lem :
    (s : DiscoveryService) (c : ℕ) (req : RegistrationRequest) (resp : RegistrationResponse)
    (now : ℕ)
    → Registers c req (after_phase c req now (networked_phase s req resp))
      ⊎ Refuses s (after_phase c req now (networked_phase s req resp))
unfolding networked_phase after_phase
networked_phase_lem s c req resp now = elim (Bool-cases (is_om req.component_type)) [
  | inl om ↦ rw om (
      target_phase_lem (record s { global_configuration = some req.human_readable_message }) c req
        resp now)
  | inr other ↦ elim (Bool-cases (is_set s.global_configuration)) [
    | inl set ↦ rw (other, set) (target_phase_lem s c req resp now)
    | inr unset ↦ inr (rw (other, unset) ((λ e. cc), refl, refl))
  ]
]

pub registration_networked :
    (s : DiscoveryService) (c : ℕ) (req : RegistrationRequest) (blank : Blank) (now : ℕ)
    → s.p2p_mode ≡ false
    → registration s c req blank now
      ≡ after_phase c req now (networked_phase s req (new_response blank req))
unfolding registration
registration_networked s c req blank now networked = ground arith

-- In the networked mode a registration either succeeds, and then the client is registered under the type and
-- the id that it asked for and is sent the configuration, or is answered with another code, and then no
-- component is registered or forgotten.
pub registration_outcome :
    (s : DiscoveryService) (c : ℕ) (req : RegistrationRequest) (blank : Blank) (now : ℕ)
    → s.p2p_mode ≡ false
    → Registers c req (registration s c req blank now) ⊎ Refuses s (registration s c req blank now)
registration_outcome s c req blank now networked =
    rw (registration_networked s c req blank now networked)
      (networked_phase_lem s c req (new_response blank req) now)
