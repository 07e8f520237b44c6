-- ===== src/Bridge/Control/Tests.antt =====
-- Runs of the control plane, and its theorems at concrete inputs.
use ros2_modular_edge_offloa.Common.{
  ℕ, true, false, ◌≡◌, refl, arith, some, List, [], ◌∷◌, ◌++◌, map, Bytes, codes,
}
use ros2_modular_edge_offloa.Common.Int.{pos}
use ros2_modular_edge_offloa.Common.Eq.{nat_eq, bytes_eq}
use ros2_modular_edge_offloa.Common.Maps.{find}
use ros2_modular_edge_offloa.Common.Decimal.{stoi}
use ros2_modular_edge_offloa.Common.Split.{split_first}
use ros2_modular_edge_offloa.Wire.{MessageType}
use ros2_modular_edge_offloa.Wire.Parse.{construct_routing_key}
use ros2_modular_edge_offloa.Bridge.Sample.{
  Sample, text, number, object, none_left, member, dp_info, sample_json,
}
use ros2_modular_edge_offloa.Bridge.Routing.{get_destinations}
use ros2_modular_edge_offloa.Bridge.Config.{GlobalConfig}
use ros2_modular_edge_offloa.Bridge.Sessions.{ActiveSession, get_session}
use ros2_modular_edge_offloa.Bridge.Transport.{TransportHandler, enqueue, process_buffer}
use ros2_modular_edge_offloa.Bridge.Transport.Framing.{OutMessage, frame, key_of}
use ros2_modular_edge_offloa.Bridge.Connection.{Connection, accepted, operational}
use ros2_modular_edge_offloa.Bridge.Control.{
  ControlPlane, component_numbers, create_routing_rules_for_session, new_control_plane,
}
use ros2_modular_edge_offloa.Bridge.Control.Approval.{
  handle_session_approved, handle_session_denied, read_request_id, approve_component,
}
use ros2_modular_edge_offloa.Bridge.Control.Approval.Routes.{
  Ready, session_queues, create_routing_rules_for_session_again,
}
use ros2_modular_edge_offloa.Bridge.Control.Approval.Delivered.{
  Approves, handle_session_approved_delivers,
}
use ros2_modular_edge_offloa.Bridge.Control.Approval.Denied.{handle_session_denied_silent}
use ros2_modular_edge_offloa.Bridge.Control.Gateways.{handle_mgwcp_disconnection}
use ros2_modular_edge_offloa.Bridge.Control.Gateways.Owned.{IsOwned}
use ros2_modular_edge_offloa.Bridge.Control.Gateways.Reached.{
  Event, connected, mgwcp_message, after_all, reached-IsOwned,
}
use ros2_modular_edge_offloa.Bridge.Control.Gateways.Reconnect.{handle_mgwcp_disconnection_forgets}

abbrev config : GlobalConfig
config = record {
  tasks = [];
  task_id_to_index = [];
  default_session_timeout = 310;
  max_concurrent_sessions = 100;
}

abbrev handler : Bytes → ℕ → TransportHandler
handler id queue = record {
  gateway_id = id;
  target_ip = codes "10.0.0.7";
  target_port = pos 9000;
  input_queue = queue;
  receive_buffer = [];
  shutdown_requested = false;
  connected_status = false;
  tcp_up = false;
  connect_max_retries = 5;
  max_receive_buffer_size = 8192;
  max_connect_cycles = 2;
  failed_connect_cycles = 0;
}

abbrev asked : ActiveSession
asked = record {
  request_id = codes "r1";
  mgwcp_component_id = codes "60:5";
  task_id = 7;
  task_name = codes "lidar";
  input_message_types = 1 ∷ [];
  output_message_types = 2 ∷ [];
  assigned_mec_id = codes "70:1";
  last_keepalive = 1000;
  created_at = 1000;
  vhc_dp_connected = false;
  mec_dp_connected = false;
  routing_rules_created = false;
}

abbrev gateway : ℕ → Connection Sample
gateway t = record {
  connection_id = t;
  transport_client_id = t;
  client_ip = codes "10.0.0.7";
  component_id = codes "60:5";
  state = operational;
  dp_host = codes "10.0.0.7";
  dp_port = pos 9000;
  running = true;
  pending_acks = [];
  sequence_number = 1;
}

abbrev plane : ControlPlane Sample
plane = record {
  global_config = config;
  session_manager = (codes "r1", asked) ∷ [];
  routing_table = record { actual_map = []; max_expected_routes = 1000 };
  om_connected = true;
  mgwcp_connections = (4, gateway 4) ∷ (6, gateway 6) ∷ [];
  component_id_to_transport_id = (codes "60:5", 6) ∷ [];
  next_mgwcp_connection_id = 3;
  transport_handlers =
      (codes "60:5", handler (codes "60:5") 0) ∷ (codes "70:1", handler (codes "70:1") 1) ∷ [];
  next_queue = 2;
}

plane-ready : Ready plane (codes "r1")
unfolding get_session find component_numbers split_first stoi
plane-ready = record {
  session = asked;
  vhc_group = 60;
  vhc_id = 5;
  mec_group = 70;
  mec_id = 1;
  vhc_handler = handler (codes "60:5") 0;
  mec_handler = handler (codes "70:1") 1;
  known = refl;
  vhc_numbers = refl;
  mec_numbers = refl;
  vhc_found = refl;
  mec_found = refl;
}

create_routing_rules_for_session_again_example :
    get_destinations
      (create_routing_rules_for_session
        (create_routing_rules_for_session plane (codes "r1"))
        (codes "r1")).routing_table
      (construct_routing_key 60 5 1)
    ≡ get_destinations plane.routing_table (construct_routing_key 60 5 1)
      ++ session_queues plane-ready (construct_routing_key 60 5 1)
      ++ session_queues plane-ready (construct_routing_key 60 5 1)
create_routing_rules_for_session_again_example =
    create_routing_rules_for_session_again plane (codes "r1") plane-ready
      (construct_routing_key 60 5 1)

abbrev approval : Sample
approval = object (
    member (codes "message_code") (number 200) (
      member (codes "payload") (object (member (codes "request_id") (text (codes "r1")) none_left))
        none_left))

plane-approves : Approves plane approval
unfolding read_request_id
plane-approves = record {
  request_id = codes "r1";
  has_payload = refl;
  has_request = refl;
  reads = refl;
  ready = plane-ready;
}

abbrev sent_frame : OutMessage
sent_frame = record {
  topic = codes "t";
  type = MessageType.string;
  id_group = 60;
  identifier_in_group = 5;
  flags = 0;
  payload = 1 ∷ [];
}

handle_session_approved_delivers_example :
    process_buffer
      (handle_session_approved plane approval (λ t. accepted) 5).plane.routing_table
      false
      (frame sent_frame)
    ≡ (
      [],
      map
          (λ queue. enqueue queue (frame sent_frame))
          (get_destinations plane.routing_table (key_of sent_frame)
            ++ session_queues plane-approves.ready (key_of sent_frame)),
    )
handle_session_approved_delivers_example =
    handle_session_approved_delivers plane approval (λ t. accepted) 5 plane-approves sent_frame
      (omega arith)

handle_session_denied_silent_example :
    (handle_session_denied plane approval (λ t. accepted) 5).calls ≡ []
handle_session_denied_silent_example = handle_session_denied_silent plane approval (λ t. accepted) 5

handle_mgwcp_disconnection_forgets_example :
    (find 6 (handle_mgwcp_disconnection plane 4 false).0.mgwcp_connections ≡ some (gateway 6))
    × (approve_component
          (handle_mgwcp_disconnection plane 4 false).0
          (codes "60:5")
          approval
          (λ t. accepted)
          5
        ≡ ((handle_mgwcp_disconnection plane 4 false).0, []))
unfolding find
handle_mgwcp_disconnection_forgets_example =
    handle_mgwcp_disconnection_forgets plane 4 6 (gateway 4) (gateway 6) false approval
      (λ t. accepted) 5 (λ e. omega arith) refl refl refl (λ e. cc)

abbrev events : List (Event Sample)
events =
    connected 4 (codes "10.0.0.7") true ∷ mgwcp_message 4 dp_info accepted accepted true 100 ∷ []

reached-IsOwned_example : IsOwned (after_all (new_control_plane config) events)
reached-IsOwned_example = reached-IsOwned config events
