-- ===== src/Discovery/Protocol/Fields.antt =====
-- The fields of a message: which of them can be told apart, and what split_string gives of them.
use ros2_modular_edge_offloa.Common.{
  ℕ, ◌<◌, ◌≤◌, ◌≡◌, arith, List, [], ◌∷◌, Bytes, All, All-append, Lacks, codes, length,
}
use ros2_modular_edge_offloa.Common.Int.{ℤ}
use ros2_modular_edge_offloa.Common.Decimal.{
  to_string, int_to_string, to_string-Lacks, int_to_string-Lacks, IsInt,
}
use ros2_modular_edge_offloa.Discovery.Protocol.{
  ComponentType, vehicle, mec, bridge, offload_manager, test, IdRequestType, automatic, static,
  response_number, number_response, error_number, number_error, Message, registration_request,
  registration_response, error, keepalive_ping, keepalive_response, component_query, component_list,
  split_string, component_type_to_string,
}
use ros2_modular_edge_offloa.Discovery.Protocol.Codec.{decode_message, dispatch}
use ros2_modular_edge_offloa.Discovery.Protocol.Encode.{
  message_fields, id_request_letter, encode_message,
}
use ros2_modular_edge_offloa.Discovery.Protocol.Join.{trimmed, split_string-join}

-- The three letters of the message's type.
abbrev pub letters : Message → Bytes
letters (registration_request r) = codes "REG"
letters (registration_response r) = codes "ACK"
letters (keepalive_ping p) = codes "PNG"
letters (keepalive_response p) = codes "PON"
letters (error e) = codes "ERR"
letters (component_query q) = codes "QRY"
letters (component_list l) = codes "LST"

pub decode_message-dispatch :
    (m : Message) → decode_message (encode_message m) ≡ dispatch (letters m) (encode_message m)
unfolding decode_message encode_message
decode_message-dispatch (registration_request r) = ground arith
decode_message-dispatch (registration_response r) = ground arith
decode_message-dispatch (keepalive_ping p) = ground arith
decode_message-dispatch (keepalive_response p) = ground arith
decode_message-dispatch (error e) = ground arith
decode_message-dispatch (component_query q) = ground arith
decode_message-dispatch (component_list l) = ground arith

-- The texts of a message that its sender is free to choose, the last field excluded.
abbrev pub texts : Message → List Bytes
texts (registration_request r) = r.component_name ∷ r.listen_address ∷ r.listen_port ∷ []
texts (registration_response r) =
    r.connection_target_type ∷ r.connection_target_address ∷ r.connection_target_port
    ∷ r.config_json ∷ r.detected_client_address ∷ []
texts (keepalive_ping p) = p.component_id ∷ p.status ∷ []
texts (keepalive_response p) = p.response ∷ []
texts (error e) = []
texts (component_query q) = q.component_type_filter ∷ []
texts (component_list l) = l.component_data_list

-- The last field.
abbrev pub last_text : Message → Bytes
last_text (registration_request r) = r.human_readable_message
last_text (registration_response r) = r.human_readable_message
last_text (keepalive_ping p) = p.human_readable_message
last_text (keepalive_response p) = p.human_readable_message
last_text (error e) = e.human_readable_message
last_text (component_query q) = q.human_readable_message
last_text (component_list l) = l.human_readable_message

-- The numbers are those that the fields' types hold, an unnamed code is not that of a name, and a list has as many components as it says.
abbrev pub InRange : Message → Type 0
InRange (registration_request r) = (r.group_id < 256) × (r.id_in_group < 256)
InRange (registration_response r) =
    IsInt (response_number r.response_code)
    × (number_response (response_number r.response_code) ≡ r.response_code)
    × (r.assigned_group_id < 256)
    × (r.assigned_id_in_group < 256)
    × (r.connection_target_id < 65536)
InRange (keepalive_ping p) = Unit
InRange (keepalive_response p) = IsInt p.next_interval_ms
InRange (error e) =
    IsInt (error_number e.error_code) × (number_error (error_number e.error_code) ≡ e.error_code)
InRange (component_query q) = Unit
InRange (component_list l) =
    (l.component_count ≡ length l.component_data_list) × (l.component_count ≤ 2147483647)

type_letter-Lacks : (t : ComponentType) → Lacks b';' (component_type_to_string t)
unfolding component_type_to_string
type_letter-Lacks vehicle = (omega arith, tt)
type_letter-Lacks mec = (omega arith, tt)
type_letter-Lacks bridge = (omega arith, tt)
type_letter-Lacks offload_manager = (omega arith, tt)
type_letter-Lacks test = (omega arith, tt)

id_letter-Lacks : (t : IdRequestType) → Lacks b';' (id_request_letter t)
id_letter-Lacks automatic = (omega arith, tt)
id_letter-Lacks static = (omega arith, tt)

number-Lacks : (n : ℕ) → Lacks b';' (to_string n)
number-Lacks n = to_string-Lacks b';' n (λ d. omega arith)

int-Lacks : (z : ℤ) → Lacks b';' (int_to_string z)
int-Lacks z = int_to_string-Lacks b';' z (λ d. omega arith) (omega arith)

-- Only the texts can bring a separator into a field.
fields-Lacks :
    (m : Message)
    → All (Lacks b';') (texts m)
    → Lacks b';' (last_text m)
    → All (Lacks b';') (message_fields m)
fields-Lacks (registration_request r) (name, (address, (port, _))) last = (
  ground arith,
  (
    type_letter-Lacks r.component_type,
    (
      id_letter-Lacks r.id_request_type,
      (
        number-Lacks r.group_id,
        (number-Lacks r.id_in_group, (name, (address, (port, (last, tt))))),
      ),
    ),
  ),
)
fields-Lacks (registration_response r) (type, (address, (port, (json, (client, _))))) last = (
  ground arith,
  (
    int-Lacks (response_number r.response_code),
    (
      number-Lacks r.assigned_group_id,
      (
        number-Lacks r.assigned_id_in_group,
        (
          type,
          (address, (port, (number-Lacks r.connection_target_id, (json, (client, (last, tt)))))),
        ),
      ),
    ),
  ),
)
fields-Lacks (keepalive_ping p) (id, (status, _)) last = (ground arith, (id, (status, (last, tt))))
fields-Lacks (keepalive_response p) (response, _) last =
    (ground arith, (response, (int-Lacks p.next_interval_ms, (last, tt))))
fields-Lacks (error e) _ last = (ground arith, (int-Lacks (error_number e.error_code), (last, tt)))
fields-Lacks (component_query q) (filter, _) last = (ground arith, (filter, (last, tt)))
fields-Lacks (component_list l) entries last = (
  ground arith,
  (
    number-Lacks l.component_count,
    All-append (Lacks b';') l.component_data_list (l.human_readable_message ∷ []) entries
        (last, tt),
  ),
)

module _ (m : Message) (clean : All (Lacks b';') (texts m)) (last : Lacks b';' (last_text m)) where
  pub split_message : split_string (encode_message m) b';' ≡ trimmed (message_fields m)
  unfolding encode_message
  split_message = split_string-join (message_fields m) (fields-Lacks m clean last)
