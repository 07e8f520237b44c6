-- ===== src/Gateway/Ros/Tests.antt =====
-- Runs of the gateway's data plane, and the theorem at a concrete input.
use ros2_modular_edge_offloa.Common.{
  Bytes, List, take, drop, ◌++◌, inl, ℕ, ◌<◌, arith, true, false, ◌≡◌, refl, none, some, [], ◌∷◌,
  map, codes, length, ◌==◌,
}
use ros2_modular_edge_offloa.Common.Eq.{bytes_eq}
use ros2_modular_edge_offloa.Common.Maps.{find}
use ros2_modular_edge_offloa.Wire.{
  MessageType, of_flags, to_flags, create_header, create_header_in_buffer,
}
use ros2_modular_edge_offloa.Common.Int.{pos}
use ros2_modular_edge_offloa.Wire.Parse.{construct_routing_key}
use ros2_modular_edge_offloa.Bridge.Routing.{RoutingTable}
use ros2_modular_edge_offloa.Bridge.Transport.{
  TransportHandler, received, process_buffer, drain, handle_incoming_data,
}
use ros2_modular_edge_offloa.Bridge.Transport.Framing.{OutMessage, frame}
use ros2_modular_edge_offloa.Bridge.Transport.Handler.{incoming}
use ros2_modular_edge_offloa.Bridge.Transport.Reads.{joined, SafeEnd, Arrives, queued, outgoing}
use ros2_modular_edge_offloa.Gateway.Ros.{
  RosGateway, Handler, register_handler, insert_handler, before, dispatch,
  receive_and_process_message, receive_exact, receiver_thread_func, send_message,
}
use ros2_modular_edge_offloa.Gateway.Ros.Trip.{received_of}
use ros2_modular_edge_offloa.Gateway.Ros.Relay.{
  routed, Post, posted, written, receiver_thread_func-send_message,
}

abbrev handler : ℕ → Handler
handler type = record {
  ros_publisher_enabled = true;
  can_process_message_type = λ t. t == type;
  initialized = false;
  enabled = false;
}

abbrev running : Handler → Handler
running h = record h { initialized = true; enabled = true }

abbrev gateway : RosGateway
gateway = record {
  id_group = 60;
  identifier_in_group = 5;
  handlers = (codes "lidar", running (handler 3)) ∷ [];
  receiver_running = true;
}

ordered : register_handler gateway (some (codes "arm", handler 4)) ≡ (
  record gateway {
    handlers = (codes "arm", running (handler 4)) ∷ (codes "lidar", running (handler 3)) ∷ [];
  },
  true,
)
unfolding register_handler insert_handler before find
ordered = refl

-- A handler that is disabled gets no message.
dispatched :
    dispatch
      ((codes "arm", handler 11) ∷ (codes "lidar", running (handler 11)) ∷ [])
      (record { topic = []; type = 11; payload = []; options = of_flags 0 })
    ≡ codes "lidar" ∷ []
unfolding dispatch
dispatched = refl

bad_magic :
    receive_and_process_message (1 ∷ 2 ∷ 3 ∷ 4 ∷ 5 ∷ 6 ∷ 7 ∷ 8 ∷ 9 ∷ 10 ∷ 11 ∷ 12 ∷ [])
    ≡ (false, 12 ∷ [], none)
unfolding receive_and_process_message receive_exact
bad_magic = refl

abbrev post : Post
post = record {
  topic = codes "scan";
  type = MessageType.sm_laserscan;
  payload = 1 ∷ 2 ∷ [];
  options = of_flags 0;
}

post_version : post.options.version < 256
unfolding of_flags
post_version = omega arith

abbrev table : RoutingTable
table = record {
  actual_map = (construct_routing_key 60 5 11, 1 ∷ []) ∷ [];
  max_expected_routes = 1000;
}

-- The handler of gateway 60.5, and the one of the gateway behind queue 1.
abbrev bridge_handler : ℕ → TransportHandler
bridge_handler queue = record {
  gateway_id = codes "60:5";
  target_ip = codes "10.0.0.7";
  target_port = pos 9000;
  input_queue = queue;
  receive_buffer = [];
  shutdown_requested = false;
  connected_status = true;
  tcp_up = true;
  connect_max_retries = 3;
  max_receive_buffer_size = 64;
  max_connect_cycles = 5;
  failed_connect_cycles = 0;
}

abbrev sent_frame : OutMessage
sent_frame = posted gateway post

-- The frame of seventeen bytes arrives in two reads.
abbrev reads : List Bytes
reads = take 5 (frame sent_frame) ∷ drop 5 (frame sent_frame) ∷ []

first_end : SafeEnd (take 5 (frame sent_frame))
first_end = record {
  before = [];
  last = sent_frame;
  cut = 5;
  same = refl;
  fits = tt;
  fit = omega arith;
  safe = inl (omega arith);
}

second_end : SafeEnd (take 5 (frame sent_frame) ++ drop 5 (frame sent_frame))
unfolding create_header to_flags of_flags
second_end = record {
  before = sent_frame ∷ [];
  last = sent_frame;
  cut = 0;
  same = refl;
  fits = (omega arith, tt);
  fit = omega arith;
  safe = inl (omega arith);
}

reads-Arrives : Arrives table (bridge_handler 0) [] reads
unfolding Arrives handle_incoming_data process_buffer drain create_header to_flags of_flags
reads-Arrives = (omega arith, omega arith, first_end, (omega arith, omega arith, second_end, tt))

reads_all : joined reads ≡ written gateway (post ∷ [])
unfolding written send_message create_header_in_buffer create_header to_flags of_flags
reads_all = refl

receiver_thread_func-send_message_example :
    receiver_thread_func (length (routed table 1 (map (posted gateway) (post ∷ [])))) (
      outgoing
        (bridge_handler 1)
        (queued 1 (incoming table (bridge_handler 0) (map received reads)).1))
    ≡ map received_of (routed table 1 (map (posted gateway) (post ∷ [])))
receiver_thread_func-send_message_example =
    receiver_thread_func-send_message gateway table 1 (post ∷ []) (bridge_handler 0)
      (bridge_handler 1) reads ((post_version, omega arith), tt) refl refl refl reads_all
      reads-Arrives refl
