-- ===== src/Bridge/Control/Startup.antt =====
-- The start phases of bridge/src/BridgeControlPlane.cpp, its registration with the discovery service, the
-- keep-alive thread and stop.
--
-- What a connection answers is an argument: a list of answers stands for as long as the service is waited for, and
-- the second of sleep between two requests leaves no trace.
pub mod Waits
mod Tests
use ros2_modular_edge_offloa.Common.{
  ℕ, Bool, true, false, not, ◌||◌, Option, none, some, List, [], ◌∷◌, ◌++◌, map, take, Bytes, codes,
  ◌==◌, if◌then◌else◌,
}
use ros2_modular_edge_offloa.Common.Int.{u16}
use ros2_modular_edge_offloa.Common.Decimal.{stoi, to_string}
use ros2_modular_edge_offloa.Discovery.Protocol.{
  RegistrationRequest, RegistrationResponse, Message, registration_request, registration_response,
  error, keepalive_ping, keepalive_response, component_query, component_list, bridge, static,
  ResponseCode, success, wait, id_conflict, invalid_request, general_error, unnamed_response,
}
use ros2_modular_edge_offloa.Discovery.Protocol.Encode.{encode_message}
use ros2_modular_edge_offloa.Discovery.Protocol.Codec.{Decoded, decoded, fails, decode_message}
use ros2_modular_edge_offloa.Bridge.Config.{GlobalConfig, ConfigJson, parse_from_json}
use ros2_modular_edge_offloa.Bridge.Sessions.{SessionManager}
use ros2_modular_edge_offloa.Bridge.Transport.{TransportHandler, Action}
use ros2_modular_edge_offloa.Bridge.Transport.Loop as Loop
use ros2_modular_edge_offloa.Bridge.Connection.{Connection}
use ros2_modular_edge_offloa.Bridge.Connection.Thread as Thread
use ros2_modular_edge_offloa.Bridge.Control.{ControlPlane, Call, on_connection, is_empty}

pub record Startup : Type 0 where
  pub global_config : GlobalConfig
  pub om_host : Bytes
  pub om_port : ℕ
  pub discovery_connected : Bool
  pub om_connected : Bool
  pub running : Bool

unfoldable pub request : RegistrationRequest
unfolding to_string
request = record {
  component_type = bridge;
  id_request_type = static;
  group_id = 5;
  id_in_group = 1;
  component_name = codes "BridgeControlPlane";
  listen_address = codes "0.0.0.0";
  listen_port = to_string 7000;
  human_readable_message = codes "Bridge Control Plane requesting registration";
}

-- What the connection to the service does in one round: send_data fails, receive_data gives nothing, or there are
-- bytes to read, with those that an earlier round left.
pub data Answer : Type 0 where
  not_sent no_answer : Answer
  answered : Bytes → Answer

-- How a round of the loop ends.
pub data Round : Type 0 where
  again give_up : Round
  leave_with : RegistrationResponse → Round

abbrev after_response : ResponseCode → RegistrationResponse → Round
after_response success r = leave_with r
after_response wait r = again
after_response id_conflict r = give_up
after_response invalid_request r = give_up
after_response general_error r = give_up
after_response (unnamed_response z) r = give_up

abbrev after_message : Decoded Message → Round
after_message (fails status) = give_up
after_message (decoded (registration_response r)) = after_response r.response_code r
after_message (decoded (registration_request r)) = give_up
after_message (decoded (error e)) = give_up
after_message (decoded (keepalive_ping p)) = give_up
after_message (decoded (keepalive_response p)) = give_up
after_message (decoded (component_query q)) = give_up
after_message (decoded (component_list l)) = give_up

-- receive_data takes no more than the buffer holds.
abbrev pub response_buffer_size : ℕ
response_buffer_size = 2048

unfoldable pub register_round : Answer → Round
register_round not_sent = give_up
register_round no_answer = give_up
register_round (answered response_str) =
    after_message (decode_message (take response_buffer_size response_str))

module _ (parse : Bytes → Option ConfigJson) where
  -- The configuration; an empty one is only warned of. `parse` is json::parse and the accesses to what it gives.
  unfoldable pub load_config : Startup → Bytes → Startup × Bool
  load_config s config_json =
      if is_empty config_json then (s, true) else (elim (parse config_json) [
        | none ↦ (s, false)
        | some j ↦
            let loaded = parse_from_json s.global_config j in
            (record s { global_config = loaded.0 }, loaded.1)
      ])

  unfoldable pub take_response : Startup → RegistrationResponse → Startup × Bool
  take_response s r =
      if is_empty r.connection_target_address || is_empty r.connection_target_port
      then (s, false)
      else (elim (stoi r.connection_target_port) [
        | none ↦ (record s { om_host = r.connection_target_address }, false)
        | some port ↦
            load_config (record s { om_host = r.connection_target_address; om_port = u16 port })
              r.config_json
      ])

  -- The result is none as long as the service says WAIT; the last part is what was sent.
  unfoldable pub perform_discovery_registration :
      Startup → List Answer → Startup × Option Bool × List Bytes
  perform_discovery_registration s [] = (s, none, [])
  perform_discovery_registration s (a ∷ answers) =
      let rest = perform_discovery_registration s answers in
      let sent = encode_message (registration_request request) in
      elim (register_round a) [
        | give_up ↦ (s, some false, sent ∷ [])
        | leave_with r ↦ let taken = take_response s r in (taken.0, some taken.1, sent ∷ [])
        | again ↦ (rest.0, rest.1, sent ∷ rest.2)
      ]

  abbrev registered : Startup × Option Bool → Startup × Option Bool
  registered (s, some true) = (record s { discovery_connected = true }, some true)
  registered (s, some false) = (s, some false)
  registered (s, none) = (s, none)

  unfoldable pub register_with_discovery_service :
      Startup → Bool → List Answer → Startup × Option Bool
  register_with_discovery_service s connects answers =
      let r = perform_discovery_registration s answers in
      if connects then registered (r.0, r.1) else (s, some false)

unfoldable pub connect_to_om : Startup → Bool → Startup × Bool
connect_to_om s connects =
    if is_empty s.om_host || s.om_port == 0
    then (s, false)
    else if connects
    then (record s { om_connected = true }, true)
    else (s, false)

-- What connect() says to the discovery service's, the manager's and the server's socket.
pub record Sockets : Type 0 where
  pub discovery_connects : Bool
  pub om_connects : Bool
  pub server_starts : Bool

-- The phases behind the registration.
abbrev pub later_phases : Startup → Sockets → Startup × Option Bool
later_phases s e =
    let om = connect_to_om s e.om_connects in
    if not om.1
    then (om.0, some false)
    else if not e.server_starts
    then (om.0, some false)
    else (record om.0 { running = true }, some true)

abbrev pub after_registration : Startup × Option Bool → Sockets → Startup × Option Bool
after_registration (s, none) e = (s, none)
after_registration (s, some false) e = (s, some false)
after_registration (s, some true) e = later_phases s e

unfoldable pub start :
    (Bytes → Option ConfigJson) → Startup → Sockets → List Answer → Startup × Option Bool
start parse s e answers =
    if s.running
    then (s, some true)
    else after_registration (register_with_discovery_service parse s e.discovery_connects answers) e

-- One round of the keep-alive thread behind its sleep: whether a stop was asked for, and what send_data says.
unfoldable pub discovery_keepalive_thread_func : Startup → List (Bool × Bool) → Startup × List Bytes
discovery_keepalive_thread_func s [] = (s, [])
discovery_keepalive_thread_func s ((shutdown_requested, sent) ∷ rounds) =
    let ping = encode_message (
      keepalive_ping (record {
        component_id = codes "5.1";
        status = codes "OK";
        human_readable_message = codes "Bridge CP keepalive";
      })) in
    let rest = discovery_keepalive_thread_func s rounds in
    if not s.discovery_connected || shutdown_requested
    then (s, [])
    else if sent
    then (rest.0, ping ∷ rest.1)
    else (record s { discovery_connected = false }, ping ∷ [])

unfoldable pub stop_handlers : List (Bytes × TransportHandler) → List (Bytes × List Action)
stop_handlers [] = []
stop_handlers ((id, h) ∷ rest) = (id, (Loop.stop h).1) ∷ stop_handlers rest

module _ {Value : Type 0} where
  -- The loop that stops the connections; the server has gone, so no client is connected.
  unfoldable pub stop_connections : SessionManager → List (ℕ × Connection Value) → SessionManager
  stop_connections s [] = s
  stop_connections s ((t, c) ∷ rest) = stop_connections (Thread.stop c s false).1 rest

  -- The part of stop() that changes the tables, with what the handlers are made to do.
  unfoldable pub stop_plane :
      ControlPlane Value → Bool → ControlPlane Value × List (Bytes × List Action)
  stop_plane p running = if not running then (p, []) else (
    record p {
      session_manager = stop_connections p.session_manager p.mgwcp_connections;
      mgwcp_connections = [];
      component_id_to_transport_id = [];
      transport_handlers = [];
    },
    stop_handlers p.transport_handlers,
  )
