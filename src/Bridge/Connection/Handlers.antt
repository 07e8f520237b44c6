-- ===== src/Bridge/Connection/Handlers.antt =====
-- handle_received_message and the handlers of the single messages. A handler works on the connection and on
-- the session manager that all connections share.
use ros2_modular_edge_offloa.Common.{
  ℕ, Bool, true, false, not, ◌&&◌, ◌||◌, Option, none, some, List, [], ◌∷◌, ◌++◌, Bytes, codes,
  ◌==◌, if◌then◌else◌,
}
use ros2_modular_edge_offloa.Common.Int.{ℤ, pos, negsuc, to_unsigned}
use ros2_modular_edge_offloa.Common.Eq.{nat_eq, bytes_beq}
use ros2_modular_edge_offloa.Common.Maps.{erase}
use ros2_modular_edge_offloa.Bridge.Json.{JsonAccess}
use ros2_modular_edge_offloa.Bridge.Sessions.{SessionManager, update_keepalive}
use ros2_modular_edge_offloa.Bridge.Connection.{
  Connection, ConnectionState, connecting, waiting_for_dp, operational, Delivery, Effect,
  message_forwarder, dp_connect_callback, component_registration_callback, is_valid_component_id,
  set_state, send_dp_connection_confirmed, send_ack,
}

-- Whether the handler returns or throws, which ends the thread.
pub data Status : Type 0 where
  returned raised : Status

-- What the world says to one message: to the ACK, to the confirmation of the data plane, to the data-plane
-- callback, and the clock.
pub record Env : Type 0 where
  pub ack_delivery : Delivery
  pub delivery : Delivery
  pub dp_connects : Bytes → Bytes → ℤ → Option Bool
  pub now : ℕ

pub record Handled (Value : Type 0) : Type 0 where
  pub connection : Connection Value
  pub sessions : SessionManager
  pub effects : List (Effect Value)
  pub status : Status

abbrev pub is_operational : ConnectionState → Bool
is_operational operational = true
is_operational waiting_for_dp = false
is_operational connecting = false

abbrev pub is_connecting : ConnectionState → Bool
is_connecting connecting = true
is_connecting waiting_for_dp = false
is_connecting operational = false

abbrev pub is_code : ℤ → ℕ → Bool
is_code (pos n) code = n == code
is_code (negsuc n) code = false

abbrev pub is_empty : Bytes → Bool
is_empty [] = true
is_empty (c ∷ s) = false

module _ {Value : Type 0} where
  abbrev pub quiet : Connection Value → SessionManager → Handled Value
  quiet c s = record { connection = c; sessions = s; effects = []; status = returned }

  abbrev pub raise : Connection Value → SessionManager → Handled Value
  raise c s = record { connection = c; sessions = s; effects = []; status = raised }

  abbrev pub forward : Connection Value → SessionManager → ℕ → Value → Handled Value
  forward c s code payload = record {
    connection = c;
    sessions = s;
    effects =
        message_forwarder c.component_id
          (record { component_id = c.component_id; message_code = code; payload = payload })
        ∷ [];
    status = returned;
  }

  -- "0.0.0.0" stands for the address that the transport has seen.
  abbrev effective_host : Connection Value → Bytes → Bytes
  effective_host c requested_host =
      if bytes_beq requested_host (codes "0.0.0.0") then c.client_ip else requested_host

  unfoldable pub connect_data_plane : Connection Value → SessionManager → Env → Handled Value
  connect_data_plane c s e =
      let connects = e.dp_connects c.component_id c.dp_host c.dp_port in
      let call = dp_connect_callback c.component_id c.dp_host c.dp_port connects in
      elim connects [
        | none ↦ record { connection = c; sessions = s; effects = call ∷ []; status = raised }
        | some connected ↦
            if connected
            then (let sent =
                  send_dp_connection_confirmed (set_state c operational) e.delivery e.now in
                record {
                  connection = sent.0;
                  sessions = s;
                  effects = call ∷ sent.1;
                  status = returned;
                })
            else record {
              connection = set_state c waiting_for_dp;
              sessions = s;
              effects = call ∷ [];
              status = returned;
            }
      ]

module _ {Value : Type 0} ⦃json : JsonAccess Value⦄ where
  unfoldable pub validate_message_structure : Value → Bool
  validate_message_structure message =
      json.contains message "component_id"
      && json.contains message "message_code"
      && json.contains message "message_type"
      && json.contains message "sequence_number"
      && json.contains message "payload"

  unfoldable pub handle_dp_info : Connection Value → SessionManager → Value → Env → Handled Value
  unfolding connect_data_plane
  handle_dp_info c s payload e =
      if not (is_connecting c.state)
      then quiet c s
      else if not (json.contains payload "dp_host") || not (json.contains payload "dp_port")
      then quiet c s
      else (elim (json.get_text (json.at_key payload "dp_host")) [
        | none ↦ raise c s
        | some requested_host ↦ elim (json.get_int (json.at_key payload "dp_port")) [
          | none ↦ raise c s
          | some port ↦
              connect_data_plane
                (record c { dp_host = effective_host c requested_host; dp_port = port }) s e
        ]
      ])

  unfoldable pub handle_offload_request : Connection Value → SessionManager → Value → Handled Value
  handle_offload_request c s payload =
      if not (is_operational c.state)
      then quiet c s
      else if not (json.contains payload "request_id")
          || not (json.contains payload "task_id")
          || not (json.contains payload "task_name")
      then quiet c s
      else (elim (json.get_text (json.at_key payload "request_id")) [
        | none ↦ raise c s
        | some request_id ↦ elim (json.get_uint32 (json.at_key payload "task_id")) [
          | none ↦ raise c s
          | some task_id ↦ elim (json.get_text (json.at_key payload "task_name")) [
            | none ↦ raise c s
            | some task_name ↦ forward c s 100 payload
          ]
        ]
      ])

  unfoldable pub handle_session_keepalive :
      Connection Value → SessionManager → Value → ℕ → Handled Value
  handle_session_keepalive c s payload now =
      if not (json.contains payload "request_id")
      then quiet c s
      else (elim (json.get_text (json.at_key payload "request_id")) [
        | none ↦ raise c s
        | some request_id ↦ forward c (update_keepalive s request_id now).0 101 payload
      ])

  unfoldable pub handle_session_terminate_request :
      Connection Value → SessionManager → Value → Handled Value
  handle_session_terminate_request c s payload =
      if not (json.contains payload "request_id")
      then quiet c s
      else (elim (json.get_text (json.at_key payload "request_id")) [
        | none ↦ raise c s
        | some request_id ↦ forward c s 102 payload
      ])

  unfoldable pub handle_ack : Connection Value → SessionManager → Value → Handled Value
  handle_ack c s payload =
      if not (json.contains payload "ack_sequence_number")
      then quiet c s
      else (elim (json.get_uint64 (json.at_key payload "ack_sequence_number")) [
        | none ↦ raise c s
        | some ack_seq_num ↦ quiet (record c { pending_acks = erase ack_seq_num c.pending_acks }) s
      ])

  -- The switch. The case of code 900 is not reached.
  unfoldable pub handle_code : Connection Value → SessionManager → ℤ → Value → Env → Handled Value
  handle_code c s code payload e =
      if is_code code 103
      then handle_dp_info c s payload e
      else if is_code code 100
      then handle_offload_request c s payload
      else if is_code code 101
      then handle_session_keepalive c s payload e.now
      else if is_code code 102
      then handle_session_terminate_request c s payload
      else if is_code code 900
      then handle_ack c s payload
      else quiet c s

  abbrev pub prepend : List (Effect Value) → Handled Value → Handled Value
  prepend before h = record h { effects = before ++ h.effects }

  -- The ACK and the switch, for a message of the right component.
  abbrev pub acknowledge : Connection Value → SessionManager → ℤ → ℕ → Value → Env → Handled Value
  acknowledge c s code seq_num payload e =
      prepend (send_ack c seq_num e.ack_delivery) (handle_code c s code payload e)

  -- The first message of a component gives the connection its id.
  abbrev pub identify :
      Connection Value → SessionManager → Bytes → ℤ → ℕ → Value → Env → Handled Value
  identify c s msg_component_id code seq_num payload e =
      if is_empty c.component_id
      then (if is_valid_component_id msg_component_id
          then prepend (component_registration_callback msg_component_id c.transport_client_id ∷ [])
              (acknowledge (record c { component_id = msg_component_id }) s code seq_num payload e)
          else quiet c s)
      else if bytes_beq c.component_id msg_component_id
      then acknowledge c s code seq_num payload e
      else quiet c s

  -- `value` with the default 0 gives an int, which is then made a uint64_t.
  unfoldable pub handle_received_message :
      Connection Value → SessionManager → Value → Env → Handled Value
  handle_received_message c s message e =
      let payload = json.at_key message "payload" in
      if not (validate_message_structure message)
      then quiet c s
      else (elim (json.get_int (json.at_key message "message_code")) [
        | none ↦ raise c s
        | some code ↦ elim (json.get_int (json.at_key message "sequence_number")) [
          | none ↦ raise c s
          | some seq ↦
              if is_code code 900
              then handle_ack c s payload
              else (elim (json.get_text (json.at_key message "component_id")) [
                | none ↦ raise c s
                | some msg_component_id ↦
                    identify c s msg_component_id code (to_unsigned 18446744073709551616 seq)
                      payload e
              ])
        ]
      ])
