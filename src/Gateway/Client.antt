-- ===== src/Gateway/Client.antt =====
-- ros/src/ros_ws/src/modular_gateway_sender/src/bridge_cp_client.cpp: the gateway's end of the control-plane
-- connection to the bridge.
--
-- A message that is sent is kept as what its JSON is made of; what the transport answers is an argument. The calls
-- of the transport and of the controller's callbacks are effects, in order. The map of pending messages is locked,
-- so each walk over it is one step.
pub mod Messages
pub mod Tracked
mod Tests
use ros2_modular_edge_offloa.Common.{
  ℕ, suc, ◌+◌, ◌-◌, ◌%◌, Bool, true, false, not, ◌||◌, Option, none, some, List, [], ◌∷◌, ◌++◌,
  Bytes, ltb, if◌then◌else◌,
}
use ros2_modular_edge_offloa.Common.Int.{ℤ}
use ros2_modular_edge_offloa.Common.Decimal.{stoi}
use ros2_modular_edge_offloa.Common.Eq.{nat_eq}
use ros2_modular_edge_offloa.Common.Maps.{find, insert, erase, update}

-- TransportAsyncSendResult
pub data AsyncSend : Type 0 where
  sent queue_full not_connected internal_error : AsyncSend

abbrev pub is_sent : AsyncSend → Bool
is_sent sent = true
is_sent queue_full = false
is_sent not_connected = false
is_sent internal_error = false

-- The messages to the bridge, codes 103, 100, 101 and 102; each begins with the component id. An empty `vhc_data`
-- is left out of the JSON.
pub data Outgoing : Type 0 where
  dp_info : Bytes → Bytes → ℤ → Outgoing
  offload_request : Bytes → Bytes → ℤ → Bytes → Bytes → Outgoing
  session_keepalive : Bytes → Bytes → Outgoing
  session_terminate_request : Bytes → Bytes → Outgoing

pub record PendingAck : Type 0 where
  pub message : Outgoing
  pub time_sent : ℕ

pub record Client : Type 0 where
  pub running : Bool
  pub sequence_number : ℕ
  pub pending_acks : List (ℕ × PendingAck)

unfoldable pub new_client : Client
new_client = record { running = false; sequence_number = 1; pending_acks = [] }

pub data Effect (Value : Type 0) : Type 0 where
  -- async_send_data of a message with its sequence number
  transmit : Outgoing → ℕ → Effect Value
  -- async_send_data of an ACK
  transmit_ack : ℤ → Bytes → Effect Value
  on_dp_confirmed : Effect Value
  on_session_approved : Value → Effect Value
  on_session_denied : Bytes → Bytes → Effect Value

abbrev pub ack_timeout : ℕ
ack_timeout = 5000000000

unfoldable pub start : Client → Bool → Client × Bool
start c connects =
    if c.running
    then (c, true)
    else if connects
    then (record c { running = true }, true)
    else (c, false)

unfoldable pub stop : Client → Client
stop c = record c { running = false }

-- The first loop: the messages whose time is out.
unfoldable pub messages_to_resend : ℕ → List (ℕ × PendingAck) → List (ℕ × Outgoing)
messages_to_resend now [] = []
messages_to_resend now ((seq_num, pending) ∷ rest) =
    let others = messages_to_resend now rest in
    if ltb ack_timeout (now - pending.time_sent)
    then (seq_num, pending.message) ∷ others
    else others

module _ {Value : Type 0} where
  -- The entry is written after the send, and only if that was taken.
  unfoldable pub send_reliable_message :
      Client → Outgoing → Bool → AsyncSend → ℕ → Client × List (Effect Value)
  send_reliable_message c msg connected result now =
      let seq_num = c.sequence_number in
      let counted = record c { sequence_number = (seq_num + 1) % 18446744073709551616 } in
      if not c.running || not connected
      then (c, [])
      else if is_sent result
      then (
        record counted {
          pending_acks = insert seq_num (record { message = msg; time_sent = now }) c.pending_acks;
        },
        transmit msg seq_num ∷ [],
      )
      else (counted, transmit msg seq_num ∷ [])

  unfoldable pub send_dp_info :
      Client → Bytes → Bytes → ℤ → Bool → AsyncSend → ℕ → Client × List (Effect Value)
  send_dp_info c component_id dp_host dp_port connected result now =
      send_reliable_message c (dp_info component_id dp_host dp_port) connected result now

  -- The result is none if std::stoi throws on the task id.
  unfoldable pub send_offload_request :
      Client
      → Bytes
      → Bytes
      → Bytes
      → Bytes
      → Bytes
      → Bool
      → AsyncSend
      → ℕ
      → Option (Client × List (Effect Value))
  send_offload_request c component_id request_id task_id task_name vhc_data connected result now =
      elim (stoi task_id) [
        | none ↦ none
        | some number ↦ some (
            send_reliable_message c
              (offload_request component_id request_id number task_name vhc_data) connected result
              now)
      ]

  unfoldable pub send_session_keepalive :
      Client → Bytes → Bytes → Bool → AsyncSend → ℕ → Client × List (Effect Value)
  send_session_keepalive c component_id request_id connected result now =
      send_reliable_message c (session_keepalive component_id request_id) connected result now

  unfoldable pub send_session_terminate_request :
      Client → Bytes → Bytes → Bool → AsyncSend → ℕ → Client × List (Effect Value)
  send_session_terminate_request c component_id request_id connected result now =
      send_reliable_message c (session_terminate_request component_id request_id) connected result
        now

  -- The second loop: each is sent again, and if that is taken its time is the clock's then, `resent_at`.
  unfoldable pub resend_all :
      List (ℕ × PendingAck)
      → List (ℕ × Outgoing)
      → (ℕ → AsyncSend)
      → ℕ
      → List (ℕ × PendingAck) × List (Effect Value)
  resend_all pending_acks [] result resent_at = (pending_acks, [])
  resend_all pending_acks ((seq_num, msg) ∷ messages) result resent_at =
      let written =
        if is_sent (result seq_num)
        then update seq_num (λ pending. record pending { time_sent = resent_at }) pending_acks
        else pending_acks in
      let rest = resend_all written messages result resent_at in
      (rest.0, transmit msg seq_num ∷ rest.1)

  unfoldable pub check_for_timeouts :
      Client → ℕ → (ℕ → AsyncSend) → ℕ → Client × List (Effect Value)
  unfolding messages_to_resend resend_all
  check_for_timeouts c now result resent_at =
      let done =
        resend_all c.pending_acks (messages_to_resend now c.pending_acks) result resent_at in
      (record c { pending_acks = done.0 }, done.1)
