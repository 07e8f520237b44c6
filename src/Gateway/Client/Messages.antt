-- ===== src/Gateway/Client/Messages.antt =====
-- handle_received_message and client_thread_func.
use Prim.Native.String.{String}
use ros2_modular_edge_offloa.Common.{
  ℕ, not, ◌&&◌, ◌||◌, Option, none, some, List, [], ◌∷◌, ◌++◌, Bytes, if◌then◌else◌,
}
use ros2_modular_edge_offloa.Common.Int.{ℤ, pos, to_unsigned}
use ros2_modular_edge_offloa.Common.Decimal.{int_to_string}
use ros2_modular_edge_offloa.Common.Eq.{nat_eq}
use ros2_modular_edge_offloa.Common.Maps.{erase}
use ros2_modular_edge_offloa.Bridge.Json.{JsonAccess}
use ros2_modular_edge_offloa.Bridge.Connection.Handlers.{Status, returned, raised, is_code}
use ros2_modular_edge_offloa.Gateway.Client.{
  Client, Effect, AsyncSend, transmit_ack, on_dp_confirmed, on_session_approved, on_session_denied,
  check_for_timeouts,
}

pub record Handled (Value : Type 0) : Type 0 where
  pub client : Client
  pub effects : List (Effect Value)
  pub status : Status

abbrev printed : Option ℤ → Option Bytes
printed none = none
printed (some n) = some (int_to_string n)

-- What one round of the thread sees: bytes or nothing, and at the check of the time-outs the clock, what the
-- transport says to each number, and the clock after that.
pub record Round : Type 0 where
  pub incoming : Option Bytes
  pub now : ℕ
  pub result : ℕ → AsyncSend
  pub resent_at : ℕ

module _ {Value : Type 0} where
  abbrev pub quiet : Client → Handled Value
  quiet c = record { client = c; effects = []; status = returned }

  abbrev pub raise : Client → Handled Value
  raise c = record { client = c; effects = []; status = raised }

  abbrev pub calls : Client → Effect Value → Handled Value
  calls c e = record { client = c; effects = e ∷ []; status = returned }

module _ {Value : Type 0} ⦃json : JsonAccess Value⦄ where
  -- A member that is an integer is replaced by its text.
  unfoldable pub normalize : Value → String → Value
  normalize payload key =
      let member = json.at_key payload key in
      if not (json.contains payload key)
      then payload
      else if json.is_string member
      then payload
      else if json.is_integer member
      then (elim (json.get_int64 member) [
        | none ↦ payload
        | some n ↦ json.set_text payload key (int_to_string n)
      ])
      else payload

  unfoldable pub handle_approved : Client → Value → Handled Value
  handle_approved c msg =
      let payload = json.at_key msg "payload" in
      let payload_copy = normalize (normalize payload "request_id") "task_id" in
      if json.contains msg "payload" then calls c (on_session_approved payload_copy) else quiet c

  -- The request id of a denial; an exception, which is caught, is none.
  abbrev denied_id : Value → Option Bytes
  denied_id rid =
      if json.is_string rid
      then json.get_text rid
      else if json.is_integer rid
      then printed (json.get_int64 rid)
      else some []

  unfoldable pub handle_denied : Client → Value → Handled Value
  handle_denied c msg =
      let payload = json.at_key msg "payload" in
      if json.contains msg "payload"
        && json.contains payload "request_id"
        && json.contains payload "reason_description"
      then (elim (denied_id (json.at_key payload "request_id")) [
        | none ↦ quiet c
        | some request_id ↦ elim (json.get_text (json.at_key payload "reason_description")) [
          | none ↦ quiet c
          | some reason ↦ calls c (on_session_denied request_id reason)
        ]
      ])
      else quiet c

  -- The int is made a uint64_t for the map.
  unfoldable pub handle_ack : Client → Value → Handled Value
  handle_ack c msg =
      let payload = json.at_key msg "payload" in
      if json.contains msg "payload" && json.contains payload "ack_sequence_number"
      then (elim (json.get_int (json.at_key payload "ack_sequence_number")) [
        | none ↦ raise c
        | some n ↦
            quiet (record c {
              pending_acks = erase (to_unsigned 18446744073709551616 n) c.pending_acks;
            })
      ])
      else quiet c

  unfoldable pub handle_code : Client → ℤ → Value → Handled Value
  handle_code c code msg =
      if is_code code 200
      then handle_approved c msg
      else if is_code code 201
      then handle_denied c msg
      else if is_code code 202
      then calls c on_dp_confirmed
      else if is_code code 900
      then handle_ack c msg
      else quiet c

  -- value() with the default 0.
  abbrev sequence_of : Value → Option ℤ
  sequence_of msg =
      if json.contains msg "sequence_number"
      then json.get_int (json.at_key msg "sequence_number")
      else some (pos 0)

  abbrev pub acknowledge : ℤ → ℤ → Bytes → Handled Value → Handled Value
  acknowledge code seq_num component_id h =
      if is_code code 900
      then h
      else record h { effects = transmit_ack seq_num component_id ∷ h.effects }

  unfoldable pub handle_received_message : Client → Value → Handled Value
  handle_received_message c msg =
      if not (json.contains msg "message_code") || not (json.contains msg "component_id")
      then quiet c
      else (elim (json.get_int (json.at_key msg "message_code")) [
        | none ↦ raise c
        | some code ↦ elim (json.get_text (json.at_key msg "component_id")) [
          | none ↦ raise c
          | some component_id ↦ elim (sequence_of msg) [
            | none ↦ raise c
            | some seq_num ↦ acknowledge code seq_num component_id (handle_code c code msg)
          ]
        ]
      ])

  -- The bytes up to the first zero are parsed; what is no JSON is dropped.
  abbrev handle_parsed : Client → Option Value → Handled Value
  handle_parsed c none = quiet c
  handle_parsed c (some msg) = handle_received_message c msg

  abbrev pub handle_incoming : Client → Option Bytes → Handled Value
  handle_incoming c none = quiet c
  handle_incoming c (some json_str) = handle_parsed c (json.parse json_str)

  -- Only parse errors are caught: another exception ends the process.
  abbrev pub then_check : Handled Value → Round → Handled Value
  then_check h r = elim h.status [
    | raised ↦ h
    | returned ↦
        let checked = check_for_timeouts h.client r.now r.result r.resent_at in
        record h { client = checked.0; effects = h.effects ++ checked.1 }
  ]

  unfoldable pub loop_body : Client → Round → Handled Value
  loop_body c r = then_check (handle_incoming c r.incoming) r

  unfoldable pub client_thread_func : Client → List Round → Handled Value
  client_thread_func c [] = quiet c
  client_thread_func c (r ∷ rounds) =
      let h = loop_body c r in
      let rest = client_thread_func h.client rounds in
      if not c.running then quiet c else (elim h.status [
        | raised ↦ h
        | returned ↦ record rest { effects = h.effects ++ rest.effects }
      ])
