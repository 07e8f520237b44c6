-- ===== src/Gateway/Discovery.antt =====
-- ros/src/ros_ws/src/modular_gateway_sender/src/discovery_client.cpp: the gateway's registration with the discovery
-- service and the keep-alive messages behind it.
--
-- What the connection answers in a round is an argument, and a list of answers stands for as long as the thread runs;
-- a stop by another thread is the end of the list. The sleep between two requests leaves no trace. The messages are
-- never empty, so the test for an empty one is left out.
pub mod Waits
pub mod Joins
mod Tests
use ros2_modular_edge_offloa.Common.{
  take, ℕ, Bool, true, false, Option, none, some, List, [], ◌∷◌, ◌++◌, Bytes, codes, ◌==◌,
  if◌then◌else◌,
}
use ros2_modular_edge_offloa.Common.Int.{ℤ, pos, negsuc}
use ros2_modular_edge_offloa.Common.Decimal.{stoi, to_string, int_to_string}
use ros2_modular_edge_offloa.Discovery.Protocol.{
  RegistrationRequest, RegistrationResponse, KeepaliveResponse, Message, registration_request,
  registration_response, error, keepalive_ping, keepalive_response, component_query, component_list,
  ComponentType, static, ResponseCode, success, wait, id_conflict, invalid_request, general_error,
  unnamed_response,
}
use ros2_modular_edge_offloa.Discovery.Protocol.Encode.{encode_message}
use ros2_modular_edge_offloa.Discovery.Protocol.Codec.{Decoded, decoded, fails, decode_message}
use ros2_modular_edge_offloa.Gateway.Client.{
  AsyncSend, sent, queue_full, not_connected, internal_error,
}

pub record DiscoveryClient : Type 0 where
  pub host : Bytes
  pub port : ℤ
  pub component_type : ComponentType
  pub component_name : Bytes
  pub group_id : ℕ
  pub id_in_group : ℕ
  pub data_plane_port : ℤ
  pub running : Bool
  pub registered : Bool
  pub keepalive_interval_ms : ℤ

-- A client that runs already keeps its parameters.
unfoldable pub start :
    DiscoveryClient → Bytes → ℤ → ComponentType → Bytes → ℕ → ℕ → ℤ → DiscoveryClient
start c host port component_type component_name group_id id_in_group data_plane_port =
    if c.running then c else record c {
      host = host;
      port = port;
      component_type = component_type;
      component_name = component_name;
      group_id = group_id;
      id_in_group = id_in_group;
      data_plane_port = data_plane_port;
      running = true;
      registered = false;
    }

unfoldable pub stop : DiscoveryClient → DiscoveryClient
stop c = record c { running = false }

unfoldable pub request_payload : DiscoveryClient → RegistrationRequest
request_payload c = record {
  component_type = c.component_type;
  id_request_type = static;
  group_id = c.group_id;
  id_in_group = c.id_in_group;
  component_name = c.component_name;
  listen_address = codes "0.0.0.0";
  listen_port = int_to_string c.data_plane_port;
  human_readable_message = codes "registration request from MGW";
}

-- The text of a buffer, which ends at the first byte 0.
unfoldable pub c_text : Bytes → Bytes
c_text [] = []
c_text (b ∷ bs) = let rest = c_text bs in if b == 0 then [] else b ∷ rest

-- A round of the registration: connect() fails, no data within five seconds, no bytes although data was
-- announced, or bytes to read, with those that an earlier round left.
pub data Answer : Type 0 where
  no_connection timed_out nothing : Answer
  answered : Bytes → Answer

-- What the controller is told; a port is an int.
pub data Callback : Type 0 where
  success_cb : Bytes → ℤ → Bytes → Callback
  failure_cb : Bytes → Callback

-- How a round ends.
pub data Round : Type 0 where
  again : Round
  ends : Bool → Callback → Round

abbrev denied : Bytes → Round
denied reason = ends false (failure_cb (codes "Registration denied: " ++ reason))

abbrev with_port : RegistrationResponse → Option ℤ → Round
with_port r none = ends false (failure_cb (codes "Invalid port from DiscoveryService."))
with_port r (some port) = ends true (success_cb r.connection_target_address port r.config_json)

-- An empty port is 0.
abbrev pub bridge_port : Bytes → Option ℤ
bridge_port [] = some (pos 0)
bridge_port (b ∷ bs) = stoi (b ∷ bs)

abbrev after_response : ResponseCode → RegistrationResponse → Round
after_response success r = with_port r (bridge_port r.connection_target_port)
after_response wait r = again
after_response id_conflict r = denied r.human_readable_message
after_response invalid_request r = denied r.human_readable_message
after_response general_error r = denied r.human_readable_message
after_response (unnamed_response z) r = denied r.human_readable_message

abbrev after_message : Decoded Message → Round
after_message (fails status) = again
after_message (decoded (registration_response r)) = after_response r.response_code r
after_message (decoded (registration_request r)) = again
after_message (decoded (error e)) = again
after_message (decoded (keepalive_ping p)) = again
after_message (decoded (keepalive_response p)) = again
after_message (decoded (component_query q)) = again
after_message (decoded (component_list l)) = again

-- receive_data takes no more than the buffer holds, less one byte for the 0.
abbrev pub response_size : ℕ
response_size = 8191

abbrev keepalive_size : ℕ
keepalive_size = 4095

unfoldable pub register_round : Answer → Round
register_round no_connection =
    ends false (failure_cb (codes "Could not connect to DiscoveryService."))
register_round timed_out = ends false (failure_cb (codes "Timeout waiting for response."))
register_round nothing = again
register_round (answered bytes) = after_message (decode_message (c_text (take response_size bytes)))

-- What is sent in a round.
abbrev round_sends : DiscoveryClient → Answer → List Bytes
round_sends c no_connection = []
round_sends c timed_out = encode_message (registration_request (request_payload c)) ∷ []
round_sends c nothing = encode_message (registration_request (request_payload c)) ∷ []
round_sends c (answered bytes) = encode_message (registration_request (request_payload c)) ∷ []

-- The loop of the registration: the client, the answers left, the callbacks made and what was sent.
abbrev pub Registered : Type 0
Registered = DiscoveryClient × List Callback × List Bytes

unfoldable pub register_loop : DiscoveryClient → List Answer → Registered
register_loop c [] = (c, [], [])
register_loop c (a ∷ answers) =
    let rest = register_loop c answers in
    elim (register_round a) [
      | again ↦ (rest.0, rest.1, round_sends c a ++ rest.2)
      | ends ok callback ↦ (record c { registered = ok }, callback ∷ [], round_sends c a)
    ]

-- A round of the keep-alive loop: bytes, none of them although data was announced, or none in time and what
-- async_send_data says to the ping.
pub data Event : Type 0 where
  received : Bytes → Event
  no_bytes : Event
  interval_over : AsyncSend → Event

abbrev positive : ℤ → Bool
positive (pos ℕ.zero) = false
positive (pos (ℕ.suc n)) = true
positive (negsuc n) = false

abbrev after_pong : DiscoveryClient → Decoded Message → DiscoveryClient
after_pong c (fails status) = c
after_pong c (decoded (keepalive_response pong)) =
    if positive pong.next_interval_ms
    then record c { keepalive_interval_ms = pong.next_interval_ms }
    else c
after_pong c (decoded (registration_response r)) = c
after_pong c (decoded (registration_request r)) = c
after_pong c (decoded (error e)) = c
after_pong c (decoded (keepalive_ping p)) = c
after_pong c (decoded (component_query q)) = c
after_pong c (decoded (component_list l)) = c

unfoldable pub ping : DiscoveryClient → Bytes
unfolding to_string
ping c = encode_message (
    keepalive_ping (record {
      component_id = to_string c.group_id ++ codes "." ++ to_string c.id_in_group;
      status = codes "OK";
      human_readable_message = codes "keepalive ping";
    }))

-- The client and the messages that were given to the transport.
unfoldable pub keepalive_loop : DiscoveryClient → List Event → DiscoveryClient × List Bytes
keepalive_loop c [] = (c, [])
keepalive_loop c (no_bytes ∷ events) = keepalive_loop c events
keepalive_loop c (received bytes ∷ events) =
    keepalive_loop (after_pong c (decode_message (c_text (take keepalive_size bytes)))) events
keepalive_loop c (interval_over not_connected ∷ events) = (c, ping c ∷ [])
keepalive_loop c (interval_over sent ∷ events) =
    let rest = keepalive_loop c events in (rest.0, ping c ∷ rest.1)
keepalive_loop c (interval_over queue_full ∷ events) =
    let rest = keepalive_loop c events in (rest.0, ping c ∷ rest.1)
keepalive_loop c (interval_over internal_error ∷ events) =
    let rest = keepalive_loop c events in (rest.0, ping c ∷ rest.1)

-- The thread: a registration that failed ends it.
unfoldable pub client_thread_func :
    DiscoveryClient → List Answer → List Event → DiscoveryClient × List Callback × List Bytes
client_thread_func c answers events =
    let r = register_loop c answers in
    let kept = keepalive_loop r.0 events in
    if r.0.registered then (kept.0, r.1, r.2 ++ kept.1) else r
