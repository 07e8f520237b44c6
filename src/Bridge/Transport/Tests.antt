-- ===== src/Bridge/Transport/Tests.antt =====
-- Runs of the transport handler, and its theorems at concrete inputs.
use ros2_modular_edge_offloa.Common.{
  ◌≤◌, true, false, ◌≡◌, refl, inr, some, arith, [], ◌∷◌, ◌++◌, Bytes, codes, take, length,
}
use ros2_modular_edge_offloa.Common.Int.{pos}
use ros2_modular_edge_offloa.Common.Maps.{find}
use ros2_modular_edge_offloa.Wire.{MessageType, create_header, type_code}
use ros2_modular_edge_offloa.Wire.Parse.{
  ParsedHeaderInfo, construct_routing_key, parse_message_header,
}
use ros2_modular_edge_offloa.Bridge.Routing.{RoutingTable, get_destinations}
use ros2_modular_edge_offloa.Bridge.Transport.{
  TransportHandler, new_handler, throws, invalid_target_port, enqueue, send, notify_disconnected,
  notify_critical_error, header_parsing_failed, send_error, disconnect, Receive, received,
  process_buffer, drain, route, handle_incoming_data, handle_outgoing_messages,
}
use ros2_modular_edge_offloa.Bridge.Transport.Framing.{
  OutMessage, frame, frames, deliveries, process_buffer-frames, process_buffer-topic_cut,
}
use ros2_modular_edge_offloa.Bridge.Transport.Handler.{
  IsSettled, process_buffer-IsSettled, IsReady, handle_incoming_data-append, incoming, overflows,
  incoming_stall,
}
use ros2_modular_edge_offloa.Bridge.Transport.Loop.{start_thread, stop}

-- Component 60.5 sends its strings to the queues 1 and 2.
abbrev pub table : RoutingTable
table = record {
  actual_map = (record { source_id = 15365; message_type = 1 }, 1 ∷ 2 ∷ []) ∷ [];
  max_expected_routes = 8;
}

abbrev hello : OutMessage
hello = record {
  topic = codes "/c";
  type = MessageType.string;
  id_group = 60;
  identifier_in_group = 5;
  flags = 0;
  payload = codes "hi";
}

abbrev pub handler : TransportHandler
handler = record {
  gateway_id = codes "60:5";
  target_ip = codes "10.0.0.1";
  target_port = pos 9000;
  input_queue = 0;
  receive_buffer = [];
  shutdown_requested = false;
  connected_status = true;
  tcp_up = true;
  connect_max_retries = 2;
  max_receive_buffer_size = 64;
  max_connect_cycles = 3;
  failed_connect_cycles = 0;
}

bad_port :
    new_handler (codes "60:5") (codes "10.0.0.1") (pos 0) (some 1) (some table) 2 64 3
    ≡ throws invalid_target_port
unfolding new_handler
bad_port = refl

two_queues :
    process_buffer table false (frame hello)
    ≡ ([], enqueue 1 (frame hello) ∷ enqueue 2 (frame hello) ∷ [])
unfolding process_buffer drain route get_destinations find parse_message_header create_header
    type_code construct_routing_key
two_queues = refl

failed_send :
    (handle_outgoing_messages handler (some (some (codes "x"))) false).2
    ≡ send (codes "x") ∷ notify_disconnected send_error ∷ disconnect ∷ []
unfolding handle_outgoing_messages
failed_send = refl

restarted : (start_thread (stop handler).0).shutdown_requested ≡ false
unfolding start_thread
restarted = refl

process_buffer-frames_example :
    process_buffer table false (frames (hello ∷ hello ∷ []) ++ take 14 (frame hello))
    ≡ (take 14 (frame hello), deliveries table (hello ∷ hello ∷ []))
process_buffer-frames_example =
    process_buffer-frames table (hello ∷ hello ∷ []) hello 14 (omega arith, (omega arith, tt))
      (omega arith) (inr (omega arith, omega arith))

process_buffer-topic_cut_example :
    process_buffer table false (frames (hello ∷ []) ++ take 12 (frame hello))
    ≡ ([], deliveries table (hello ∷ []) ++ notify_critical_error header_parsing_failed ∷ [])
process_buffer-topic_cut_example =
    process_buffer-topic_cut table (hello ∷ []) hello 12 (omega arith, tt) (omega arith)
      (omega arith)

process_buffer-IsSettled_example :
    IsSettled (process_buffer table false (frame hello ++ codes "ab")).0
    × (length (process_buffer table false (frame hello ++ codes "ab")).0
        ≤ length (frame hello ++ codes "ab"))
process_buffer-IsSettled_example = process_buffer-IsSettled table (frame hello ++ codes "ab")

ready : IsReady handler 20
ready = record { up = refl; runs = refl; room = omega arith }

abbrev first_bytes : Bytes
first_bytes = 0xa5 ∷ 0xc3 ∷ []

abbrev other_bytes : Bytes
other_bytes = 0 ∷ 1 ∷ 60 ∷ 5 ∷ 0 ∷ 0 ∷ 0 ∷ 1 ∷ 1 ∷ b'c' ∷ b'!' ∷ []

handle_incoming_data-append_example :
    handle_incoming_data table handler (received (first_bytes ++ other_bytes)) ≡ (
      (handle_incoming_data table
          (handle_incoming_data table handler (received first_bytes)).0
          (received other_bytes)).0,
      (handle_incoming_data table handler (received first_bytes)).1
          ++ (handle_incoming_data table
              (handle_incoming_data table handler (received first_bytes)).0
              (received other_bytes)).1,
    )
unfolding handle_incoming_data process_buffer drain
handle_incoming_data-append_example =
    handle_incoming_data-append table handler first_bytes other_bytes
      (record { up = refl; runs = refl; room = omega arith }) (omega arith) (omega arith) tt

-- A buffer of twelve bytes, too small for the frame of `hello`.
abbrev small : TransportHandler
small = record handler { max_receive_buffer_size = 13 }

abbrev hello_info : ParsedHeaderInfo
hello_info = record {
  routing_key = construct_routing_key 60 5 1;
  total_message_length = 15;
  payload_offset = 13;
  payload_size = 2;
}

abbrev hello_start : Bytes
hello_start = 0xa5 ∷ 0xc3 ∷ 0 ∷ 1 ∷ 60 ∷ 5 ∷ 0 ∷ 0 ∷ 0 ∷ 2 ∷ 2 ∷ b'/' ∷ b'c' ∷ []

incoming_stall_example :
    incoming table small (received hello_start ∷ received (codes "hi") ∷ Receive.closed ∷ []) ≡ (
      record small { receive_buffer = hello_start },
      overflows (received (codes "hi") ∷ Receive.closed ∷ []),
    )
unfolding parse_message_header
incoming_stall_example =
    incoming_stall table small hello_start hello_info (received (codes "hi") ∷ Receive.closed ∷ [])
      (record { up = refl; runs = refl; room = omega arith }) (omega arith) refl refl (omega arith)
