-- ===== src/Discovery/Service/Registration.antt =====
-- handleRegistration.
pub mod Outcome
pub mod Consistency
pub mod Target
use ros2_modular_edge_offloa.Common.{
  ℕ, ◌*◌, ◌^◌, Bool, true, false, not, ◌&&◌, ◌||◌, Option, none, some, List, [], ◌∷◌, Bytes, codes,
  ◌==◌, if◌then◌else◌,
}
use Prim.Native.Nat.{bit_or}
use ros2_modular_edge_offloa.Common.Eq.{nat_eq}
use ros2_modular_edge_offloa.Common.Int.{ℤ, u16}
use ros2_modular_edge_offloa.Common.Decimal.{to_string, stoi}
use ros2_modular_edge_offloa.Common.Maps.{find}
use ros2_modular_edge_offloa.Discovery.Protocol.{
  ComponentType, vehicle, mec, bridge, offload_manager, test, ResponseCode, success, wait,
  id_conflict, invalid_request, general_error, RegistrationRequest, RegistrationResponse,
  registration_response, component_type_to_string,
}
use ros2_modular_edge_offloa.Discovery.Registry.{
  ComponentId, ComponentInfo, id_of, ComponentRegistry, is_bridge, is_om, is_id_taken,
  register_component, find_available_bridge, find_available_om, get_all_components,
}
use ros2_modular_edge_offloa.Discovery.Service.{
  DiscoveryService, Effect, send_response, Blank, new_response, answer, detected,
}

abbrev pub is_vehicle : ComponentType → Bool
is_vehicle vehicle = true
is_vehicle _ = false

abbrev pub is_mec : ComponentType → Bool
is_mec mec = true
is_mec _ = false

abbrev pub requested_id : RegistrationRequest → ComponentId
requested_id req = record { group = req.group_id; id = req.id_in_group }

-- The response is sent and the call returns, or it goes on to the registration.
pub data Phase : Type 0 where
  replied : DiscoveryService → RegistrationResponse → Phase
  goes_on : DiscoveryService → RegistrationResponse → Phase

-- The first MEC with the group and the id of the request.
find_mec : RegistrationRequest → List ComponentInfo → Option ComponentInfo
find_mec req [] = none
find_mec req (comp ∷ components) =
    let rest = find_mec req components in
    if is_mec comp.component_type
      && comp.group_id == req.group_id
      && comp.id_in_group == req.id_in_group
    then some comp
    else rest

-- The P2P branch.
pub p2p_phase : DiscoveryService → ℕ → RegistrationRequest → RegistrationResponse → Phase
unfolding find_mec
p2p_phase s client_id req resp =
    if is_vehicle req.component_type
    then (elim (find_mec req (get_all_components s.registry)) [
      | some comp ↦ replied s (
          answer
            (record resp {
              connection_target_type = codes "MEC";
              connection_target_address = comp.listen_address;
              connection_target_port = to_string comp.listen_port;
            })
            success (codes "P2P Match found."))
      | none ↦ replied s (
          answer
            (record resp {
              detected_client_address = detected s client_id resp.detected_client_address;
            })
            wait (codes "Waiting for peer MEC to register."))
    ])
    else if is_mec req.component_type
    then goes_on s (answer resp success (codes "MEC registered in P2P mode."))
    else replied s (answer resp invalid_request (codes "Only VHC and MEC allowed in P2P mode."))

-- The connection details of a bridge or an offloading manager.
abbrev pub connect_to : RegistrationResponse → ComponentInfo → RegistrationResponse
connect_to resp info = record resp {
  connection_target_type = component_type_to_string info.component_type;
  connection_target_address = info.listen_address;
  connection_target_port = to_string info.listen_port;
  connection_target_id = bit_or (info.group_id * 2 ^ 8) info.id_in_group;
}

-- What find_available_bridge or find_available_om gave: its registry, and the details or a WAIT.
abbrev pub with_target :
    DiscoveryService
    → RegistrationResponse
    → Bytes
    → ComponentRegistry × Option ComponentInfo
    → Phase
with_target s resp missing (r, none) =
    replied (record s { registry = r }) (answer resp wait missing)
with_target s resp missing (r, some info) =
    goes_on (record s { registry = r }) (connect_to resp info)

-- Behind the test for the configuration: the id, and the component to connect to.
pub target_phase : DiscoveryService → RegistrationRequest → RegistrationResponse → Phase
target_phase s req resp =
    if is_id_taken s.registry (requested_id req)
    then replied s (answer resp id_conflict (codes "Component ID is already in use."))
    else if is_vehicle req.component_type || is_mec req.component_type
    then with_target s resp (codes "No Bridge component is currently available.")
        (find_available_bridge s.registry)
    else if is_bridge req.component_type
    then with_target s resp (codes "No Offloading Manager is currently available.")
        (find_available_om s.registry)
    else goes_on s resp

abbrev pub is_set : Option Bytes → Bool
is_set none = false
is_set (some config) = true

-- The networked branch.
pub networked_phase : DiscoveryService → RegistrationRequest → RegistrationResponse → Phase
unfolding target_phase
networked_phase s req resp =
    if is_om req.component_type
    then target_phase (record s { global_configuration = some req.human_readable_message }) req resp
    else if not (is_set s.global_configuration)
    then replied s
        (answer resp wait (codes "Waiting for system configuration from Offloading Manager."))
    else target_phase s req resp

abbrev pub config_or_empty : Option Bytes → Bytes
config_or_empty none = []
config_or_empty (some config) = config

abbrev pub info_of : DiscoveryService → ℕ → RegistrationRequest → ℕ → ℕ → ComponentInfo
info_of s client_id req port now = record {
  client_id = client_id;
  component_type = req.component_type;
  group_id = req.group_id;
  id_in_group = req.id_in_group;
  component_subtype = 0;
  name = req.component_name;
  listen_address = detected s client_id req.listen_address;
  listen_port = port;
  last_seen = now;
}

-- The registration itself, with a port that could be read.
pub register_phase :
    DiscoveryService
    → ℕ
    → RegistrationResponse
    → ComponentInfo
    → DiscoveryService × RegistrationResponse
register_phase s client_id resp info =
    let r = register_component s.registry info in
    let known : RegistrationResponse = record resp {
      detected_client_address = detected s client_id (codes "unknown");
    } in
    if r.1
    then (
      record s { registry = r.0 },
      answer (record known { config_json = config_or_empty s.global_configuration }) success
          (codes "Registration successful."),
    )
    else (
      record s { registry = r.0 },
      answer known general_error (codes "An internal server error occurred during registration."),
    )

-- The part that both modes share.
pub common_phase :
    DiscoveryService
    → ℕ
    → RegistrationRequest
    → RegistrationResponse
    → ℕ
    → DiscoveryService × RegistrationResponse
unfolding register_phase
common_phase s client_id req resp now =
    if is_id_taken s.registry (requested_id req)
    then (
      s,
      answer
          (record resp {
            detected_client_address = detected s client_id resp.detected_client_address;
          })
          id_conflict (codes "Component ID is already in use."),
    )
    else (elim (stoi req.listen_port) [
      | none ↦ (s, answer resp invalid_request (codes "Invalid listen port format."))
      | some port ↦ register_phase s client_id resp (info_of s client_id req (u16 port) now)
    ])

-- The state and the response that handleRegistration sends.
abbrev pub after_phase :
    ℕ → RegistrationRequest → ℕ → Phase → DiscoveryService × RegistrationResponse
unfolding common_phase
after_phase client_id req now (replied s resp) = (s, resp)
after_phase client_id req now (goes_on s resp) = common_phase s client_id req resp now

unfoldable pub registration :
    DiscoveryService → ℕ → RegistrationRequest → Blank → ℕ → DiscoveryService × RegistrationResponse
unfolding p2p_phase networked_phase after_phase
registration s client_id req blank now =
    let resp = new_response blank req in
    after_phase client_id req now
      (if s.p2p_mode then p2p_phase s client_id req resp else networked_phase s req resp)

unfoldable pub handle_registration :
    DiscoveryService → ℕ → RegistrationRequest → Blank → ℕ → DiscoveryService × List Effect
handle_registration s client_id req blank now =
    let r = registration s client_id req blank now in
    (r.0, send_response client_id (registration_response r.1) ∷ [])
