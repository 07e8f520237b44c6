-- ===== src/Discovery/Service/Registration/Target.antt =====
-- The registration of a gateway while there is a bridge.
use ros2_modular_edge_offloa.Common.{sym, ℕ, true, false, ◌||◌, ◌≡◌, refl, ap, ◌∙◌, some, Bytes}
use ros2_modular_edge_offloa.Common.Int.{ℤ, u16}
use ros2_modular_edge_offloa.Common.Decimal.{stoi, to_string}
use ros2_modular_edge_offloa.Common.Maps.{find}
use ros2_modular_edge_offloa.Discovery.Protocol.{
  ComponentType, vehicle, mec, bridge, offload_manager, test, success, RegistrationRequest,
  RegistrationResponse,
}
use ros2_modular_edge_offloa.Discovery.Registry.{
  ComponentInfo, ComponentRegistry, some?, id_eq, is_om, is_id_taken, find_available_bridge,
}
use ros2_modular_edge_offloa.Discovery.Service.{DiscoveryService, Blank, new_response}
use ros2_modular_edge_offloa.Discovery.Service.Registration.{
  requested_id, networked_phase, target_phase, common_phase, register_phase, registration, info_of,
  is_vehicle, is_mec, connect_to, is_set, after_phase,
}
use ros2_modular_edge_offloa.Discovery.Service.Registration.Outcome.{
  register_flag, bridge_same, registration_networked,
}

gateway_no_om : (t : ComponentType) → (is_vehicle t || is_mec t) ≡ true → is_om t ≡ false
gateway_no_om vehicle h = refl
gateway_no_om mec h = refl
gateway_no_om bridge h = refl
gateway_no_om offload_manager h = absurd (cc)
gateway_no_om test h = refl

-- A SUCCESS with the address and the port of the bridge, and the configuration.
unfoldable pub Directs : ComponentInfo → Bytes → RegistrationResponse → Type 0
Directs info config r =
    (r.response_code ≡ success)
    × (r.connection_target_address ≡ info.listen_address)
    × (r.connection_target_port ≡ to_string info.listen_port)
    × (r.config_json ≡ config)

module _ (s : DiscoveryService) (c : ℕ) (req : RegistrationRequest) (now : ℕ) (info : ComponentInfo)
    (config : Bytes) (port : ℤ) (configured : s.global_configuration ≡ some config)
    (readable : stoi req.listen_port ≡ some port) where
  common_Directs :
      (resp : RegistrationResponse) (r : ComponentRegistry)
      → is_id_taken r (requested_id req) ≡ false
      → Directs info config
          (common_phase (record s { registry = r }) c req (connect_to resp info) now).1
  unfolding common_phase register_phase Directs
  common_Directs resp r free =
      rw (free, readable, register_flag r (info_of s c req (u16 port) now) free, configured)
        (refl, refl, refl, refl)

  still_free :
      (r : ComponentRegistry)
      → is_id_taken s.registry (requested_id req) ≡ false
      → find_available_bridge s.registry ≡ (r, some info)
      → is_id_taken r (requested_id req) ≡ false
  unfolding is_id_taken
  still_free r free found =
      ap (λ m. some? (find (requested_id req) m))
        (ap (λ x. x.0.client_id_by_component_id) (sym found) ∙ (bridge_same s.registry).1)
      ∙ free

  target_Directs :
      (resp : RegistrationResponse) (r : ComponentRegistry)
      → (is_vehicle req.component_type || is_mec req.component_type) ≡ true
      → is_id_taken s.registry (requested_id req) ≡ false
      → find_available_bridge s.registry ≡ (r, some info)
      → Directs info config (after_phase c req now (target_phase s req resp)).1
  unfolding target_phase after_phase
  target_Directs resp r gateway free found =
      rw (free, gateway, found) (common_Directs resp r (still_free r free found))

  -- A gateway with a free id and a readable port is told the bridge that the round robin gives and the configuration.
  pub registration-Directs :
      (blank : Blank)
      → s.p2p_mode ≡ false
      → (is_vehicle req.component_type || is_mec req.component_type) ≡ true
      → is_id_taken s.registry (requested_id req) ≡ false
      → (find_available_bridge s.registry).1 ≡ some info
      → Directs info config (registration s c req blank now).1
  unfolding networked_phase after_phase
  registration-Directs blank networked gateway free offered =
      let set : is_set s.global_configuration ≡ true = ap is_set configured in
      rw
        (
          registration_networked s c req blank now networked,
          gateway_no_om req.component_type gateway,
          set,
        )
        (target_Directs (new_response blank req) (find_available_bridge s.registry).0 gateway free
          (ap (λ o. ((find_available_bridge s.registry).0, o)) offered))
