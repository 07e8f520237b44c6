-- ===== src/Discovery/Service/Tests.antt =====
-- Runs of the service, and its theorems at concrete inputs.
use ros2_modular_edge_offloa.Common.{
  ◌-◌, ◌*◌, ◌≤◌, true, false, ◌≡◌, ◌⊎◌, refl, arith, none, some, [], ◌∷◌, codes,
}
use ros2_modular_edge_offloa.Common.Decimal.{stoi}
use ros2_modular_edge_offloa.Common.Maps.{find, insert}
use ros2_modular_edge_offloa.Common.Extract.{extract_int, extract_char}
use ros2_modular_edge_offloa.Discovery.Protocol.{
  ComponentType, IdRequestType, general_error, RegistrationRequest,
}
use ros2_modular_edge_offloa.Discovery.Registry.{
  ComponentInfo, empty_registry, is_id_taken, find_by_client_id,
}
use ros2_modular_edge_offloa.Discovery.Registry.Consistent.{
  IsConsistent, empty_registry-IsConsistent,
}
use ros2_modular_edge_offloa.Discovery.Service.{DiscoveryService, disconnect, Blank}
use ros2_modular_edge_offloa.Discovery.Service.Registration.{registration}
use ros2_modular_edge_offloa.Discovery.Service.Registration.Outcome.{
  Registers, Refuses, registration_outcome,
}
use ros2_modular_edge_offloa.Discovery.Service.Registration.Consistency.{registration-IsConsistent}
use ros2_modular_edge_offloa.Discovery.Service.Events.{
  keepalive_id, keepalive_timeout, second, stop, on_client_disconnected, purge_stale_clients,
}
use ros2_modular_edge_offloa.Discovery.Protocol.{component_list}
use ros2_modular_edge_offloa.Discovery.Protocol.Codec.{decoded, decode_message}
use ros2_modular_edge_offloa.Discovery.Protocol.Encode.{encode_message}
use ros2_modular_edge_offloa.Discovery.Registry.{get_all_components}
use ros2_modular_edge_offloa.Discovery.Service.Events.{list_response}
use ros2_modular_edge_offloa.Common.Eq.{nat_eq}
use ros2_modular_edge_offloa.Discovery.Protocol.{KeepalivePing, keepalive_response}
use ros2_modular_edge_offloa.Discovery.Service.{send_response}
use ros2_modular_edge_offloa.Discovery.Service.Events.{handle_keepalive, pong}
use ros2_modular_edge_offloa.Discovery.Service.Events.Keepalive.{
  printed_id, handle_keepalive-printed_id,
}
use ros2_modular_edge_offloa.Discovery.Registry.{register_component}
use ros2_modular_edge_offloa.Discovery.Registry.Register.{register_component-IsConsistent}
use ros2_modular_edge_offloa.Discovery.Service.Events.Query.{decode_message-list_response}
use ros2_modular_edge_offloa.Discovery.Service.Events.Purge.{
  purge_stale_clients_fresh, purge_stale_clients_keeps,
}

abbrev manager : RegistrationRequest
manager = record {
  component_type = ComponentType.offload_manager;
  id_request_type = IdRequestType.static;
  group_id = 1;
  id_in_group = 1;
  component_name = codes "om";
  listen_address = codes "10.0.0.1";
  listen_port = codes "7000";
  human_readable_message = codes "{}";
}

abbrev blank : Blank
blank = record { response_code = general_error; connection_target_id = 77 }

abbrev service : DiscoveryService
service = record {
  p2p_mode = false;
  registry = empty_registry;
  global_configuration = none;
  client_ip_addresses = (3, codes "10.0.0.9") ∷ [];
  last_purge_time = 0;
  shutting_down = false;
}

-- The two numbers are cast to uint8_t after they are read.
wrapped_id : keepalive_id (codes "266.1") ≡ some (record { group = 10; id = 1 })
unfolding keepalive_id extract_int extract_char stoi
wrapped_id = refl

abbrev om_info : ComponentInfo
om_info = record {
  client_id = 3;
  component_type = ComponentType.offload_manager;
  group_id = 1;
  id_in_group = 1;
  component_subtype = 0;
  name = codes "om";
  listen_address = codes "10.0.0.9";
  listen_port = 7000;
  last_seen = 0;
}

abbrev with_manager : DiscoveryService
with_manager = record service {
  registry = record empty_registry {
    registry_by_client_id = (3, om_info) ∷ [];
    client_id_by_component_id = (record { group = 1; id = 1 }, 3) ∷ [];
    om_client_ids = 3 ∷ [];
  };
  global_configuration = some (codes "{}");
}

stopped : (on_client_disconnected with_manager 3).1 ≡ disconnect ∷ []
unfolding on_client_disconnected find_by_client_id stop find
stopped = refl

registration_outcome_example :
    Registers 3 manager (registration service 3 manager blank 5)
    ⊎ Refuses service (registration service 3 manager blank 5)
registration_outcome_example = registration_outcome service 3 manager blank 5 refl

registration-IsConsistent_example : IsConsistent (registration service 3 manager blank 5).0.registry
unfolding find_by_client_id find
registration-IsConsistent_example =
    registration-IsConsistent service 3 manager blank 5
      (record { consistent = empty_registry-IsConsistent; unknown = refl })

abbrev p2p_service : DiscoveryService
p2p_service = record with_manager { p2p_mode = true }

kept : find_by_client_id (purge_stale_clients p2p_service (10 * second)).0.registry 3 ≡ some om_info
unfolding find_by_client_id find
kept = purge_stale_clients_keeps p2p_service (10 * second) 3 om_info refl (omega arith) refl

purge_stale_clients_fresh_example : 10 * second - om_info.last_seen ≤ keepalive_timeout
purge_stale_clients_fresh_example =
    purge_stale_clients_fresh p2p_service (10 * second) 3 om_info kept

decode_message-list_response_example :
    decode_message
      (encode_message (component_list (list_response with_manager.registry (codes "O"))))
    ≡ decoded (component_list (list_response with_manager.registry (codes "O")))
unfolding get_all_components
decode_message-list_response_example =
    decode_message-list_response with_manager.registry (codes "O") (omega arith)

abbrev registered : DiscoveryService
registered = record service { registry = (register_component empty_registry om_info).0 }

abbrev ping : KeepalivePing
ping = record {
  component_id = printed_id om_info;
  status = codes "OK";
  human_readable_message = codes "alive";
}

handle_keepalive-printed_id_example :
    (find_by_client_id (handle_keepalive registered 3 ping 99).0.registry 3
      ≡ some (record om_info { last_seen = 99 }))
    × ((handle_keepalive registered 3 ping 99).1 ≡ send_response 3 (keepalive_response pong) ∷ [])
unfolding register_component find_by_client_id find insert is_id_taken
handle_keepalive-printed_id_example =
    handle_keepalive-printed_id registered 3 3 om_info ping 99
      (register_component-IsConsistent empty_registry om_info empty_registry-IsConsistent refl) refl
      (omega arith) (omega arith) refl
