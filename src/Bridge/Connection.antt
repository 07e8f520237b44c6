-- ===== src/Bridge/Connection.antt =====
-- bridge/src/MGWCPConnection.cpp: the control-plane connection of one gateway, its state, the messages that it
-- sends until they are acknowledged, and the retries. Times are nanoseconds of the steady clock.
--
-- A message that is sent is kept as what its JSON is made of. The calls a function makes on the transport and
-- on its callbacks are its effects, in order; what the transport answers is an argument. The calls of
-- check_for_timeouts and handle_ack hold the mutex of `pending_acks`, so each is one step.
pub mod Handlers
pub mod Thread
pub mod Pending
pub mod Retries
pub mod Invariant
pub mod Order
mod Tests
use ros2_modular_edge_offloa.Common.{
  ℕ, suc, ◌+◌, ◌-◌, ◌%◌, Bool, true, false, ◌&&◌, ◌||◌, Option, none, some, List, [], ◌∷◌, Bytes,
  ltb, leb, if◌then◌else◌,
}
use ros2_modular_edge_offloa.Common.Int.{ℤ, pos, negsuc}
use ros2_modular_edge_offloa.Common.Eq.{nat_eq}
use ros2_modular_edge_offloa.Common.Maps.{find, insert, erase}
use ros2_modular_edge_offloa.Common.Decimal.{stoi}
use ros2_modular_edge_offloa.Common.Split.{split_first}

pub data ConnectionState : Type 0 where
  connecting waiting_for_dp operational : ConnectionState

-- What the transport says to a message: the client is not connected, send_to fails, or it is sent.
pub data Delivery : Type 0 where
  not_connected refused accepted : Delivery

abbrev pub ack_timeout : ℕ
ack_timeout = 5000000000

abbrev pub max_retry_count : ℕ
max_retry_count = 3

module _ (Value : Type 0) where
  -- The messages that the bridge sends and repeats: codes 200, 201 and 202.
  pub data Reliable : Type 0 where
    session_approved : Value → Reliable
    session_denied : Bytes → Bytes → Reliable
    dp_connection_confirmed : Reliable

  pub record PendingAck : Type 0 where
    pub message : Reliable
    pub time_sent : ℕ
    pub retry_count : ℕ

  -- A message of the gateway that goes on to the offloading manager: the name of the message goes with its code.
  pub record Forwarded : Type 0 where
    pub component_id : Bytes
    pub message_code : ℕ
    pub payload : Value

  pub data Effect : Type 0 where
    -- send_to of a message and its sequence number
    transmit : Reliable → ℕ → Effect
    -- send_to of an ACK of a component for a sequence number
    transmit_ack : Bytes → ℕ → Effect
    disconnect_client : ℕ → Effect
    message_forwarder : Bytes → Forwarded → Effect
    -- with what it returned, or none if it has thrown
    dp_connect_callback : Bytes → Bytes → ℤ → Option Bool → Effect
    component_registration_callback : Bytes → ℕ → Effect

  pub record Connection : Type 0 where
    pub connection_id : ℕ
    pub transport_client_id : ℕ
    pub client_ip : Bytes
    pub component_id : Bytes
    pub state : ConnectionState
    pub dp_host : Bytes
    pub dp_port : ℤ
    pub running : Bool
    pub pending_acks : List (ℕ × PendingAck)
    pub sequence_number : ℕ

  pub new_connection : ℕ → ℕ → Bytes → Connection
  new_connection connection_id transport_client_id client_ip = record {
    connection_id = connection_id;
    transport_client_id = transport_client_id;
    client_ip = client_ip;
    component_id = [];
    state = connecting;
    dp_host = [];
    dp_port = pos 0;
    running = false;
    pending_acks = [];
    sequence_number = 1;
  }

abbrev in_byte : ℤ → Bool
in_byte (pos n) = leb n 255
in_byte (negsuc n) = false

both_in_byte : Option ℤ → Option ℤ → Bool
both_in_byte (some group_id) (some id_in_group) = in_byte group_id && in_byte id_in_group
both_in_byte (some group_id) none = false
both_in_byte none id = false

unfoldable pub is_valid_component_id : Bytes → Bool
unfolding both_in_byte
is_valid_component_id component_id = elim (split_first b':' component_id) [
  | none ↦ false
  | some parts ↦ both_in_byte (stoi parts.0) (stoi parts.1)
]

-- fetch_add on a uint64_t
abbrev next_number : ℕ → ℕ
next_number n = (n + 1) % 18446744073709551616

module _ {Value : Type 0} where
  unfoldable pub set_state : Connection Value → ConnectionState → Connection Value
  set_state c new_state = record c { state = new_state }

  unfoldable pub send_reliable_message :
      Connection Value → Reliable Value → Delivery → ℕ → Connection Value × List (Effect Value)
  send_reliable_message c message not_connected now = (c, [])
  send_reliable_message c message refused now =
      let seq_num = c.sequence_number in
      (
        record c {
          sequence_number = next_number seq_num;
          pending_acks = erase seq_num (
              insert seq_num (record { message = message; time_sent = now; retry_count = 0 })
                c.pending_acks);
        },
        transmit message seq_num ∷ [],
      )
  send_reliable_message c message accepted now =
      let seq_num = c.sequence_number in
      (
        record c {
          sequence_number = next_number seq_num;
          pending_acks =
              insert seq_num (record { message = message; time_sent = now; retry_count = 0 })
                c.pending_acks;
        },
        transmit message seq_num ∷ [],
      )

  unfoldable pub send_session_approved :
      Connection Value → Value → Delivery → ℕ → Connection Value × List (Effect Value)
  send_session_approved c payload d now = send_reliable_message c (session_approved payload) d now

  unfoldable pub send_session_denied :
      Connection Value → Bytes → Bytes → Delivery → ℕ → Connection Value × List (Effect Value)
  send_session_denied c request_id reason d now =
      send_reliable_message c (session_denied request_id reason) d now

  unfoldable pub send_dp_connection_confirmed :
      Connection Value → Delivery → ℕ → Connection Value × List (Effect Value)
  send_dp_connection_confirmed c d now = send_reliable_message c dp_connection_confirmed d now

  unfoldable pub send_ack : Connection Value → ℕ → Delivery → List (Effect Value)
  send_ack c seq not_connected = []
  send_ack c seq refused = transmit_ack c.component_id seq ∷ []
  send_ack c seq accepted = transmit_ack c.component_id seq ∷ []

  abbrev pub overdue : ℕ → PendingAck Value → Bool
  overdue now pending = ltb ack_timeout (now - pending.time_sent)

  -- The loop over the pending messages: what it writes, what is to be sent again, what is to be removed.
  unfoldable pub mark :
      ℕ → List (ℕ × PendingAck Value) → List (ℕ × PendingAck Value) × List ℕ × List ℕ
  mark now [] = ([], [], [])
  mark now ((seq_num, pending) ∷ rest) =
      let (kept, to_retry, to_remove) = mark now rest in
      if overdue now pending
      then (if ltb pending.retry_count max_retry_count
          then (
            (seq_num, record pending { retry_count = suc pending.retry_count; time_sent = now })
                ∷ kept,
            seq_num ∷ to_retry,
            to_remove,
          )
          else ((seq_num, pending) ∷ kept, to_retry, seq_num ∷ to_remove))
      else ((seq_num, pending) ∷ kept, to_retry, to_remove)

  unfoldable pub erase_all : List ℕ → List (ℕ × PendingAck Value) → List (ℕ × PendingAck Value)
  erase_all [] pending_acks = pending_acks
  erase_all (seq_num ∷ to_remove) pending_acks = erase_all to_remove (erase seq_num pending_acks)

  unfoldable pub resend : List (ℕ × PendingAck Value) → List ℕ → List (Effect Value)
  resend pending_acks [] = []
  resend pending_acks (seq_num ∷ to_retry) = elim (find seq_num pending_acks) [
    | none ↦ resend pending_acks to_retry
    | some pending ↦ transmit pending.message seq_num ∷ resend pending_acks to_retry
  ]

  unfoldable pub check_for_timeouts : Connection Value → ℕ → Connection Value × List (Effect Value)
  unfolding mark erase_all resend
  check_for_timeouts c now =
      let (marked, to_retry, to_remove) = mark now c.pending_acks in
      let pending_acks = erase_all to_remove marked in
      (record c { pending_acks = pending_acks }, resend pending_acks to_retry)
