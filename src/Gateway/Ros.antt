-- ===== src/Gateway/Ros.antt =====
-- ros/src/ros_ws/src/modular_gateway_sender/src/ros_gateway.cpp: the gateway's end of the data plane.
--
-- The handlers of ROS messages are given by what they answer. The stream is the bytes that arrive before the
-- connection ends; receive_exact takes so many of them, and fails if the connection ends first, by the TCP server of a
-- gateway behind a bridge as by the client of src/transport/tcp_client_transport.cpp.
pub mod Trip
pub mod Relay
mod Tests
use ros2_modular_edge_offloa.Common.{
  ℕ, zero, suc, ◌+◌, ◌*◌, ◌^◌, Bool, true, false, not, ◌&&◌, ◌||◌, Option, none, some, List, [],
  ◌∷◌, ◌++◌, Bytes, length, take, drop, get_or, ltb, leb, ◌==◌, if◌then◌else◌,
}
use ros2_modular_edge_offloa.Common.Eq.{bytes_eq}
use ros2_modular_edge_offloa.Common.Maps.{find, erase, update}
use ros2_modular_edge_offloa.Wire.{
  MessageType, MessageOptions, header_magic, create_header_in_buffer, of_flags,
}
use ros2_modular_edge_offloa.Gateway.Client.{AsyncSend, is_sent}

-- A handler (message_handler_base.hpp), with what its class says to a message type.
pub record Handler : Type 0 where
  pub ros_publisher_enabled : Bool
  pub can_process_message_type : ℕ → Bool
  pub initialized : Bool
  pub enabled : Bool

abbrev pub is_ros_publisher_enabled : Handler → Bool
is_ros_publisher_enabled h = h.enabled && h.ros_publisher_enabled

pub record RosGateway : Type 0 where
  pub id_group : ℕ
  pub identifier_in_group : ℕ
  -- a map, walked in the order of the names
  pub handlers : List (Bytes × Handler)
  pub receiver_running : Bool

-- operator< of std::string
unfoldable pub before : Bytes → Bytes → Bool
before [] [] = false
before [] (b ∷ bs) = true
before (a ∷ r) [] = false
before (a ∷ r) (b ∷ bs) = let rest = before r bs in if ltb a b then true else (a == b && rest)

-- `handlers_[name] = handler` for a name that is not in the map.
unfoldable pub insert_handler : Bytes → Handler → List (Bytes × Handler) → List (Bytes × Handler)
insert_handler name handler [] = (name, handler) ∷ []
insert_handler name handler ((other, h) ∷ rest) =
    if before name other
    then (name, handler) ∷ (other, h) ∷ rest
    else (other, h) ∷ insert_handler name handler rest

unfoldable pub register_handler : RosGateway → Option (Bytes × Handler) → RosGateway × Bool
register_handler g none = (g, false)
register_handler g (some (name, handler)) = elim (find name g.handlers) [
  | some known ↦ (g, false)
  | none ↦ (
    record g {
      handlers =
          insert_handler name (record handler { initialized = true; enabled = true }) g.handlers;
    },
    true,
  )
]

unfoldable pub unregister_handler : RosGateway → Bytes → RosGateway × Bool
unregister_handler g handler_name = elim (find handler_name g.handlers) [
  | none ↦ (g, false)
  | some handler ↦ (record g { handlers = erase handler_name g.handlers }, true)
]

unfoldable pub enable_handler : RosGateway → Bytes → RosGateway
enable_handler g handler_name = record g {
  handlers = update handler_name (λ h. record h { enabled = true }) g.handlers;
}

unfoldable pub disable_handler : RosGateway → Bytes → RosGateway
disable_handler g handler_name = record g {
  handlers = update handler_name (λ h. record h { enabled = false }) g.handlers;
}

unfoldable pub set_identity : RosGateway → ℕ → ℕ → RosGateway
set_identity g id_group identifier_in_group = record g {
  id_group = id_group;
  identifier_in_group = identifier_in_group;
}

unfoldable pub start_receiver : RosGateway → RosGateway
start_receiver g = record g { receiver_running = true }

unfoldable pub stop_receiver : RosGateway → RosGateway
stop_receiver g = record g { receiver_running = false }

-- What is given to async_send_data, in order, and what send_message returns. The two results are those of the
-- header and of the payload.
unfoldable pub send_message :
    RosGateway
    → Bytes
    → MessageType
    → Bytes
    → MessageOptions
    → Bool
    → AsyncSend
    → AsyncSend
    → List Bytes × Bool
send_message g topic type payload options connected header_result payload_result =
    let header =
      (create_header_in_buffer [] topic type g.id_group g.identifier_in_group (length payload)
        options).0 in
    if not connected
    then ([], false)
    else if not (is_sent header_result)
    then (header ∷ [], false)
    else (header ∷ payload ∷ [], is_sent payload_result)

-- What was read and what is left of the stream.
unfoldable pub receive_exact : ℕ → Bytes → Option (Bytes × Bytes)
receive_exact size stream =
    if leb size (length stream) then some (take size stream, drop size stream) else none

-- A message as a handler gets it.
pub record Received : Type 0 where
  pub topic : Bytes
  pub type : ℕ
  pub payload : Bytes
  pub options : MessageOptions

-- The names of the handlers that were given the message, in order.
unfoldable pub dispatch : List (Bytes × Handler) → Received → List Bytes
dispatch [] m = []
dispatch ((name, handler) ∷ rest) m =
    let others = dispatch rest m in
    if is_ros_publisher_enabled handler && handler.can_process_message_type m.type
    then name ∷ others
    else others

-- What receive_and_process_message returns, the rest of the stream, and the message for the handlers if there is
-- one. Behind a failed read nothing is left.
abbrev pub Processed : Type 0
Processed = Bool × Bytes × Option Received

abbrev read_payload : Bytes → Bytes → Option (Bytes × Bytes) → Processed
read_payload header topic none = (false, [], none)
read_payload header topic (some (payload, rest)) = (
  true,
  rest,
  some (record {
    topic = topic;
    type = get_or header 3 0;
    payload = payload;
    options = of_flags (get_or header 2 0);
  }),
)

abbrev data_size : Bytes → ℕ
data_size header =
    get_or header 6 0 * 2 ^ 24
    + get_or header 7 0 * 2 ^ 16
    + get_or header 8 0 * 2 ^ 8
    + get_or header 9 0

abbrev read_topic : Bytes → Option (Bytes × Bytes) → Processed
read_topic header none = (false, [], none)
read_topic header (some (topic, rest)) =
    read_payload header topic (receive_exact (data_size header) rest)

abbrev read_header : Option (Bytes × Bytes) → Processed
read_header none = (false, [], none)
read_header (some (header, rest)) =
    if get_or header 0 0 * 2 ^ 8 + get_or header 1 0 == header_magic
    then read_topic header (receive_exact (get_or header 10 0) rest)
    else (false, rest, none)

unfoldable pub receive_and_process_message : Bytes → Processed
receive_and_process_message stream = read_header (receive_exact 11 stream)

-- The receiver's rounds that find data, `n` of them; the messages for the handlers.
unfoldable pub receiver_thread_func : ℕ → Bytes → List Received
receiver_thread_func zero stream = []
receiver_thread_func (suc n) stream =
    let (processed, rest, message) = receive_and_process_message stream in
    let others = receiver_thread_func n rest in elim message [ none ↦ others | some m ↦ m ∷ others ]
