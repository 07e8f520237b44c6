-- ===== src/Gateway/Discovery/Tests.antt =====
-- Runs of the gateway's discovery client, and the theorem at a concrete input.
use ros2_modular_edge_offloa.Common.{
  true, false, ◌≡◌, refl, arith, some, [], ◌∷◌, ◌++◌, map, codes, length,
}
use ros2_modular_edge_offloa.Common.Int.{pos}
use ros2_modular_edge_offloa.Common.Decimal.{stoi, to_string, int_to_string}
use ros2_modular_edge_offloa.Discovery.Protocol.{
  RegistrationResponse, success, wait, ResponseCode, vehicle,
}
use ros2_modular_edge_offloa.Discovery.Protocol.Encode.{encode_message}
use ros2_modular_edge_offloa.Discovery.Protocol.Response.{Clean}
use ros2_modular_edge_offloa.Common.Eq.{nat_eq}
use ros2_modular_edge_offloa.Discovery.Protocol.{bridge}
use ros2_modular_edge_offloa.Discovery.Registry.{
  ComponentInfo, empty_registry, register_component, id_eq,
}
use ros2_modular_edge_offloa.Discovery.Service.{DiscoveryService, Blank}
use ros2_modular_edge_offloa.Gateway.Client.{not_connected, sent}
use ros2_modular_edge_offloa.Gateway.Discovery.{
  DiscoveryClient, register_loop, register_round, client_thread_func, keepalive_loop, success_cb,
  failure_cb, timed_out, interval_over, bridge_port,
}
use ros2_modular_edge_offloa.Gateway.Discovery.Waits.{reply, IsText, IsShort, register_loop_waits}

abbrev vehicle_client : DiscoveryClient
vehicle_client = record {
  host = codes "10.0.0.1";
  port = pos 4000;
  component_type = vehicle;
  component_name = codes "car";
  group_id = 10;
  id_in_group = 1;
  data_plane_port = pos 9000;
  running = true;
  registered = false;
  keepalive_interval_ms = pos 5000;
}

abbrev response : ResponseCode → RegistrationResponse
response code = record {
  response_code = code;
  assigned_group_id = 10;
  assigned_id_in_group = 1;
  connection_target_type = codes "B";
  connection_target_address = codes "10.0.0.5";
  connection_target_port = codes "7000";
  connection_target_id = 5;
  config_json = codes "{}";
  detected_client_address = codes "10.0.0.7";
  human_readable_message = codes "ok";
}

-- A time-out ends the registration and the thread.
late :
    (client_thread_func vehicle_client (timed_out ∷ []) (interval_over sent ∷ [])).1
    ≡ failure_cb (codes "Timeout waiting for response.") ∷ []
unfolding client_thread_func register_loop register_round
late = refl

-- The keep-alive loop ends when the connection is gone.
gone :
    length
      (keepalive_loop vehicle_client
        (interval_over sent ∷ interval_over not_connected ∷ interval_over sent ∷ [])).1
    ≡ 2
unfolding keepalive_loop
gone = refl

wait-Clean : Clean (response wait)
wait-Clean = record { range = ground arith; clean = ground arith; last = ground arith; full = cc }

success-Clean : Clean (response success)
success-Clean = record {
  range = ground arith;
  clean = ground arith;
  last = ground arith;
  full = cc;
}

wait-IsText : IsText (response wait)
unfolding encode_message int_to_string to_string
wait-IsText = ground arith

success-IsText : IsText (response success)
unfolding encode_message int_to_string to_string
success-IsText = ground arith

wait-IsShort : IsShort (response wait)
unfolding encode_message int_to_string to_string
wait-IsShort = omega arith

success-IsShort : IsShort (response success)
unfolding encode_message int_to_string to_string
success-IsShort = omega arith

target_port : bridge_port (response success).connection_target_port ≡ some (pos 7000)
unfolding stoi
target_port = refl

register_loop_waits_example :
    let done =
      register_loop vehicle_client
        (map reply (response wait ∷ []) ++ reply (response success) ∷ []) in
    (done.0.registered ≡ true)
    × (done.1 ≡ success_cb (codes "10.0.0.5") (pos 7000) (codes "{}") ∷ [])
    × (length done.2 ≡ 2)
register_loop_waits_example =
    register_loop_waits vehicle_client (response wait ∷ []) (response success) (pos 7000) []
      (((refl, wait-Clean), wait-IsText, wait-IsShort), tt) refl target_port success-Clean
      success-IsText success-IsShort

-- A service that knows a bridge.
abbrev a_bridge : ComponentInfo
a_bridge = record {
  client_id = 3;
  component_type = bridge;
  group_id = 5;
  id_in_group = 1;
  component_subtype = 0;
  name = codes "bridge";
  listen_address = codes "10.0.0.5";
  listen_port = 7000;
  last_seen = 0;
}

abbrev service : DiscoveryService
service = record {
  p2p_mode = false;
  registry = (register_component empty_registry a_bridge).0;
  global_configuration = some (codes "{}");
  client_ip_addresses = (4, codes "10.0.0.7") ∷ [];
  last_purge_time = 0;
  shutting_down = false;
}

abbrev blank : Blank
blank = record { response_code = wait; connection_target_id = 0 }

abbrev directed : RegistrationResponse
directed = record {
  response_code = success;
  assigned_group_id = 10;
  assigned_id_in_group = 1;
  connection_target_type = codes "B";
  connection_target_address = codes "10.0.0.5";
  connection_target_port = codes "7000";
  connection_target_id = 1281;
  config_json = codes "{}";
  detected_client_address = codes "10.0.0.7";
  human_readable_message = codes "Registration successful.";
}
