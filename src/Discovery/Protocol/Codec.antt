-- ===== src/Discovery/Protocol/Codec.antt =====
-- src/protocol.cpp: the decoders. What a failed decoder leaves in its output argument is left
-- out, since no caller reads it.
use ros2_modular_edge_offloa.Common.{
  ℕ, zero, suc, ◌+◌, ◌%◌, ◌^◌, not, ◌||◌, Option, none, some, List, [], ◌∷◌, Bytes, codes, length,
  get_or, get_elem?, take, drop, ltb, ◌==◌, if◌then◌else◌,
}
use ros2_modular_edge_offloa.Common.Eq.{bytes_beq}
use ros2_modular_edge_offloa.Common.Int.{u8, u16, u32}
use ros2_modular_edge_offloa.Common.Decimal.{stoi}
use ros2_modular_edge_offloa.Discovery.Protocol.{
  ProtocolStatus, invalid_message_type, malformed_message, invalid_format, automatic, static,
  number_response, number_error, RegistrationRequest, RegistrationResponse, KeepalivePing,
  KeepaliveResponse, ErrorMessage, ComponentQuery, ComponentListResponse, Message,
  registration_request, registration_response, error, keepalive_ping, keepalive_response,
  component_query, component_list, split_string, string_to_component_type,
}

pub data Decoded {ℓ} (A : Type ℓ) : Type ℓ where
  decoded : A → Decoded A
  fails : ProtocolStatus → Decoded A

-- `none` is an exception of stoi, which the decoders catch.
abbrev caught {ℓ} : {A : Type ℓ} → Option A → Decoded A
caught none = fails invalid_format
caught (some a) = decoded a

infixl 5 ◌>>=◌
abbrev ◌>>=◌ {ℓ κ} : {A : Type ℓ} {B : Type κ} → Option A → (A → Option B) → Option B
none >>= f = none
some a >>= f = f a

unfoldable pub decode_registration_request : Bytes → Decoded RegistrationRequest
decode_registration_request input =
    let parts = split_string input b';' in
    let read : Option RegistrationRequest = (do
      group ← stoi (get_or parts 3 [])
      id ← stoi (get_or parts 4 [])
      some (record {
        component_type = string_to_component_type (get_or parts 1 []);
        id_request_type = if bytes_beq (get_or parts 2 []) (codes "A") then automatic else static;
        group_id = u8 group;
        id_in_group = u8 id;
        component_name = get_or parts 5 [];
        listen_address = get_or parts 6 [];
        listen_port = get_or parts 7 [];
        human_readable_message = get_or parts 8 [];
      })) in
    if not (length parts == 9) then fails malformed_message else caught read

unfoldable pub decode_registration_response : Bytes → Decoded RegistrationResponse
decode_registration_response input =
    let parts = split_string input b';' in
    let read : Option RegistrationResponse = (do
      code ← stoi (get_or parts 1 [])
      group ← stoi (get_or parts 2 [])
      id ← stoi (get_or parts 3 [])
      target ← stoi (get_or parts 7 [])
      some (record {
        response_code = number_response code;
        assigned_group_id = u8 group;
        assigned_id_in_group = u8 id;
        connection_target_type = get_or parts 4 [];
        connection_target_address = get_or parts 5 [];
        connection_target_port = get_or parts 6 [];
        connection_target_id = u16 target;
        config_json = get_or parts 8 [];
        detected_client_address = get_or parts 9 [];
        human_readable_message = get_or parts 10 [];
      })) in
    if not (length parts == 11) then fails malformed_message else caught read

unfoldable pub decode_keepalive_ping : Bytes → Decoded KeepalivePing
decode_keepalive_ping input =
    let parts = split_string input b';' in
    if not (length parts == 4)
    then fails malformed_message
    else decoded (record {
      component_id = get_or parts 1 [];
      status = get_or parts 2 [];
      human_readable_message = get_or parts 3 [];
    })

unfoldable pub decode_keepalive_response : Bytes → Decoded KeepaliveResponse
decode_keepalive_response input =
    let parts = split_string input b';' in
    let read : Option KeepaliveResponse = (do
      interval ← stoi (get_or parts 2 [])
      some (record {
        response = get_or parts 1 [];
        next_interval_ms = interval;
        human_readable_message = get_or parts 3 [];
      })) in
    if not (length parts == 4) then fails malformed_message else caught read

unfoldable pub decode_error_message : Bytes → Decoded ErrorMessage
decode_error_message input =
    let parts = split_string input b';' in
    let read : Option ErrorMessage = (do
      code ← stoi (get_or parts 1 [])
      some (record {
        error_code = number_error code;
        human_readable_message = get_or parts 2 [];
      })) in
    if not (length parts == 3) then fails malformed_message else caught read

unfoldable pub decode_component_query : Bytes → Decoded ComponentQuery
decode_component_query input =
    let parts = split_string input b';' in
    if not (length parts == 3)
    then fails malformed_message
    else decoded (record {
      component_type_filter = get_or parts 1 [];
      human_readable_message = get_or parts 2 [];
    })

-- `parts[2 + i]` for the `left` numbers from `i` on, if it exists; `2 + i` is an uint32_t.
unfoldable pub collect : List Bytes → ℕ → ℕ → List Bytes
collect parts zero i = []
collect parts (suc left) i =
    let rest = collect parts left (suc i) in
    elim (get_elem? parts ((2 + i) % 2 ^ 32)) [ none ↦ rest | some part ↦ part ∷ rest ]

-- The sums with componentCount are uint32_t.
unfoldable pub list_of_parts : List Bytes → ℕ → Decoded ComponentListResponse
unfolding collect
list_of_parts parts count =
    if ltb (length parts) ((2 + count + 1) % 2 ^ 32)
    then fails malformed_message
    else decoded (record {
      component_count = count;
      component_data_list = collect parts count 0;
      human_readable_message = get_or parts ((2 + count) % 2 ^ 32) [];
    })

unfoldable pub decode_component_list_response : Bytes → Decoded ComponentListResponse
unfolding list_of_parts
decode_component_list_response input =
    let parts = split_string input b';' in
    if ltb (length parts) 3 then fails malformed_message else elim (stoi (get_or parts 1 [])) [
      | none ↦ fails invalid_format
      | some z ↦ list_of_parts parts (u32 z)
    ]

abbrev as_message {ℓ} : {A : Type ℓ} → (A → Message) → Decoded A → Decoded Message
as_message f (decoded a) = decoded (f a)
as_message f (fails s) = fails s

-- The decoder that the three letters name.
abbrev pub dispatch : Bytes → Bytes → Decoded Message
dispatch msg_type input =
    if bytes_beq msg_type (codes "REG")
    then as_message registration_request (decode_registration_request input)
    else if bytes_beq msg_type (codes "ACK")
    then as_message registration_response (decode_registration_response input)
    else if bytes_beq msg_type (codes "PNG")
    then as_message keepalive_ping (decode_keepalive_ping input)
    else if bytes_beq msg_type (codes "PON")
    then as_message keepalive_response (decode_keepalive_response input)
    else if bytes_beq msg_type (codes "ERR")
    then as_message error (decode_error_message input)
    else if bytes_beq msg_type (codes "QRY")
    then as_message component_query (decode_component_query input)
    else if bytes_beq msg_type (codes "LST")
    then as_message component_list (decode_component_list_response input)
    else fails invalid_message_type

unfoldable pub decode_message : Bytes → Decoded Message
decode_message input =
    if ltb (length input) 8 || not (bytes_beq (take 5 input) (codes "DISC:"))
    then fails invalid_message_type
    else dispatch (take 3 (drop 5 input)) input
