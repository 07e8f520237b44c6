-- ===== src/Bridge/Control/Startup/Tests.antt =====
-- Runs of the bridge's start, and the theorem at a concrete input.
use ros2_modular_edge_offloa.Common.{
  true, false, ◌≡◌, refl, arith, Option, none, some, [], ◌∷◌, ◌++◌, map, Bytes, codes, length,
}
use ros2_modular_edge_offloa.Common.Decimal.{stoi, to_string, int_to_string}
use ros2_modular_edge_offloa.Discovery.Protocol.{RegistrationResponse, success, wait, ResponseCode}
use ros2_modular_edge_offloa.Bridge.Config.{ConfigJson, default_config}
use ros2_modular_edge_offloa.Bridge.Control.Startup.{
  Startup, no_answer, take_response, load_config, perform_discovery_registration, register_round,
  start, register_with_discovery_service,
}
use ros2_modular_edge_offloa.Bridge.Control.Startup.Waits.{IsShort, reply, registration_waits}
use ros2_modular_edge_offloa.Discovery.Protocol.Encode.{encode_message}
use ros2_modular_edge_offloa.Discovery.Protocol.Response.{Clean}

abbrev fresh : Startup
fresh = record {
  global_config = default_config;
  om_host = [];
  om_port = 0;
  discovery_connected = false;
  om_connected = false;
  running = false;
}

abbrev response : ResponseCode → RegistrationResponse
response code = record {
  response_code = code;
  assigned_group_id = 5;
  assigned_id_in_group = 1;
  connection_target_type = codes "O";
  connection_target_address = codes "10.0.0.2";
  connection_target_port = codes "8100";
  connection_target_id = 1;
  config_json = [];
  detected_client_address = codes "10.0.0.1";
  human_readable_message = codes "ok";
}

abbrev no_json : Bytes → Option ConfigJson
no_json s = none

taken :
    take_response no_json fresh (response success)
    ≡ (record fresh { om_host = codes "10.0.0.2"; om_port = 8100 }, true)
unfolding take_response load_config stoi
taken = refl

-- Without an answer the bridge does not start.
unanswered :
    start no_json fresh
      (record { discovery_connects = true; om_connects = true; server_starts = true })
      (no_answer ∷ [])
    ≡ (fresh, some false)
unfolding start register_with_discovery_service perform_discovery_registration register_round
unanswered = refl

wait-Clean : Clean (response wait)
wait-Clean = record { range = ground arith; clean = ground arith; last = ground arith; full = cc }

success-Clean : Clean (response success)
success-Clean = record {
  range = ground arith;
  clean = ground arith;
  last = ground arith;
  full = cc;
}

wait-IsShort : IsShort (response wait)
unfolding encode_message int_to_string to_string
wait-IsShort = omega arith

success-IsShort : IsShort (response success)
unfolding encode_message int_to_string to_string
success-IsShort = omega arith

registration_waits_example :
    ((perform_discovery_registration no_json fresh
        (map reply (response wait ∷ []) ++ reply (response success) ∷ [])).0
      ≡ (take_response no_json fresh (response success)).0)
    × ((perform_discovery_registration no_json fresh
          (map reply (response wait ∷ []) ++ reply (response success) ∷ [])).1
        ≡ some (take_response no_json fresh (response success)).1)
    × (length
          (perform_discovery_registration no_json fresh
            (map reply (response wait ∷ []) ++ reply (response success) ∷ [])).2
        ≡ 2)
registration_waits_example =
    registration_waits no_json fresh (response wait ∷ []) (response success) []
      (((refl, wait-Clean), wait-IsShort), tt) refl success-Clean success-IsShort
