-- ===== src/Bridge/Transport.antt =====
-- bridge/src/TransportHandler.cpp: the connection of the bridge to the data plane of one gateway.
--
-- `receive_buffer` is the valid part of the array (the first `receive_buffer_watermark_` bytes), so the
-- watermark is its length. The TCP client is known by `tcp_up`, what its is_connected() says; what its
-- other calls return is an argument. A function returns the new state and the calls that it made on the
-- queues, the TCP client and the observer, in order. stop() of another thread is seen between two calls.
pub mod Incoming
pub mod Framing
pub mod Handler
pub mod Reads
pub mod Loop
mod Tests
use ros2_modular_edge_offloa.Common.{
  ℕ, zero, suc, ◌+◌, ◌-◌, ◌<◌, Bool, true, false, not, ◌||◌, Option, none, some, List, [], ◌∷◌,
  ◌++◌, map, Bytes, length, take, drop, ◌==◌, ltb, leb, if◌then◌else◌,
}
use ros2_modular_edge_offloa.Common.Int.{ℤ, pos, negsuc}
use ros2_modular_edge_offloa.Wire.Parse.{
  RoutingKey, ParsedHeaderInfo, min_header_len, parse_message_header,
}
use ros2_modular_edge_offloa.Bridge.Routing.{RoutingTable, get_destinations}

pub record TransportHandler : Type 0 where
  pub gateway_id : Bytes
  pub target_ip : Bytes
  pub target_port : ℤ
  pub input_queue : ℕ
  pub receive_buffer : Bytes
  pub shutdown_requested : Bool
  pub connected_status : Bool
  pub tcp_up : Bool
  pub connect_max_retries : ℕ
  pub max_receive_buffer_size : ℕ
  pub max_connect_cycles : ℕ
  pub failed_connect_cycles : ℕ

-- The reasons that the observer is told.
pub data Reason : Type 0 where
  not_connected peer_closed receive_error tcp_disconnected send_error permanent_failure : Reason
  buffer_overflow header_parsing_failed : Reason

pub data Action : Type 0 where
  enqueue : ℕ → Bytes → Action
  send : Bytes → Action
  connect : Action
  disconnect : Action
  notify_connected : Action
  notify_disconnected : Reason → Action
  notify_critical_error : Reason → Action

-- The exceptions of the constructor.
pub data InvalidArgument : Type 0 where
  null_input_queue null_routing_table empty_gateway_id empty_target_ip : InvalidArgument
  invalid_target_port zero_buffer_size : InvalidArgument

pub data Constructed : Type 0 where
  made : TransportHandler → Constructed
  throws : InvalidArgument → Constructed

abbrev is_empty : Bytes → Bool
is_empty [] = true
is_empty (c ∷ s) = false

abbrev valid_port : ℤ → Bool
valid_port (pos n) = not (n == 0 || ltb 65535 n)
valid_port (negsuc n) = false

abbrev some? {ℓ} : {A : Type ℓ} → Option A → Bool
some? none = false
some? (some a) = true

unfoldable pub new_handler :
    Bytes → Bytes → ℤ → Option ℕ → Option RoutingTable → ℕ → ℕ → ℕ → Constructed
new_handler gateway_id target_ip target_port none routing_table retries size cycles =
    throws null_input_queue
new_handler gateway_id target_ip target_port (some input_queue) routing_table retries size cycles =
    if not (some? routing_table)
    then throws null_routing_table
    else if is_empty gateway_id
    then throws empty_gateway_id
    else if is_empty target_ip
    then throws empty_target_ip
    else if not (valid_port target_port)
    then throws invalid_target_port
    else if size == 0
    then throws zero_buffer_size
    else made (record {
      gateway_id = gateway_id;
      target_ip = target_ip;
      target_port = target_port;
      input_queue = input_queue;
      receive_buffer = [];
      shutdown_requested = false;
      connected_status = false;
      tcp_up = false;
      connect_max_retries = retries;
      max_receive_buffer_size = size;
      max_connect_cycles = cycles;
      failed_connect_cycles = 0;
    })

-- A complete message goes to every destination of its key; with none it is dropped.
unfoldable pub route : RoutingTable → ParsedHeaderInfo → Bytes → List Action
route t header msg = map (λ queue. enqueue queue msg) (get_destinations t header.routing_key)

-- The loop over the complete messages in the buffer: the bytes that are left and the calls.
unfoldable pub drain : RoutingTable → ℕ → Bytes → Bytes × List Action
unfolding route
drain t zero buffer = (buffer, [])
drain t (suc fuel) buffer = elim (ltb (length buffer) min_header_len) [
  | true ↦ (buffer, [])
  | false ↦ elim (parse_message_header buffer) [
    | none ↦ ([], notify_critical_error header_parsing_failed ∷ [])
    | some header ↦ elim (leb header.total_message_length (length buffer)) [
      | false ↦ (buffer, [])
      | true ↦
          let rest = drain t fuel (drop header.total_message_length buffer) in
          (rest.0, route t header (take header.total_message_length buffer) ++ rest.1)
    ]
  ]
]

-- Each round takes a header of at least one byte off, so one round more than there are bytes is enough.
-- With the shutdown flag up no message is processed.
unfoldable pub process_buffer : RoutingTable → Bool → Bytes → Bytes × List Action
unfolding drain
process_buffer t true buffer = (buffer, [])
process_buffer t false buffer = drain t (suc (length buffer)) buffer

-- What receive_data returned: bytes (no more than asked for), 0, or a negative number.
pub data Receive : Type 0 where
  received : Bytes → Receive
  closed : Receive
  failed : Receive

abbrev lose : TransportHandler → Reason → TransportHandler × List Action
lose h reason = (
  record h { connected_status = false; tcp_up = false },
  notify_disconnected reason ∷ disconnect ∷ [],
)

abbrev pub after_receive :
    RoutingTable → TransportHandler → Receive → TransportHandler × List Action
after_receive t h (received bytes) =
    let r = process_buffer t h.shutdown_requested (h.receive_buffer ++ bytes) in
    (record h { receive_buffer = r.0 }, r.1)
after_receive t h closed = lose h peer_closed
after_receive t h failed = lose h receive_error

unfoldable pub handle_incoming_data :
    RoutingTable → TransportHandler → Receive → TransportHandler × List Action
handle_incoming_data t h receive =
    if not h.tcp_up
    then (record h { connected_status = false }, notify_disconnected not_connected ∷ [])
    else if h.max_receive_buffer_size - length h.receive_buffer == 0
    then (h, notify_critical_error buffer_overflow ∷ [])
    else after_receive t h receive

-- What try_dequeue gave: no entry, or a pointer, which may be null.
abbrev pub Dequeued : Type 0
Dequeued = Option (Option Bytes)

-- The second result says whether an entry was taken; `sent` is what send_data returned.
unfoldable pub handle_outgoing_messages :
    TransportHandler → Dequeued → Bool → TransportHandler × Bool × List Action
handle_outgoing_messages h none sent = (h, false, [])
handle_outgoing_messages h (some none) sent = if h.tcp_up then (h, true, []) else (h, false, [])
handle_outgoing_messages h (some (some msg)) sent =
    if not h.tcp_up
    then (h, false, [])
    else if is_empty msg
    then (h, true, [])
    else if sent
    then (h, true, send msg ∷ [])
    else (
      record h { connected_status = false; tcp_up = false },
      true,
      send msg ∷ notify_disconnected send_error ∷ disconnect ∷ [],
    )
