-- ===== src/Discovery/Protocol/Encode.antt =====
-- src/protocol.cpp: the encoders.
use ros2_modular_edge_offloa.Common.{List, [], ◌∷◌, ◌++◌, Bytes, codes}
use ros2_modular_edge_offloa.Common.Decimal.{to_string, int_to_string}
use ros2_modular_edge_offloa.Discovery.Protocol.{
  IdRequestType, automatic, static, response_number, error_number, RegistrationRequest,
  RegistrationResponse, KeepalivePing, KeepaliveResponse, ErrorMessage, ComponentQuery,
  ComponentListResponse, Message, registration_request, registration_response, error,
  keepalive_ping, keepalive_response, component_query, component_list, component_type_to_string,
}

-- The fields of a message with `;` between them.
abbrev pub join : List Bytes → Bytes
join [] = []
join (f ∷ []) = f
join (f ∷ g ∷ fs) = f ++ b';' ∷ join (g ∷ fs)

abbrev pub id_request_letter : IdRequestType → Bytes
id_request_letter automatic = codes "A"
id_request_letter static = codes "S"

abbrev pub registration_request_fields : RegistrationRequest → List Bytes
registration_request_fields r =
    codes "DISC:REG"
    ∷ component_type_to_string r.component_type
    ∷ id_request_letter r.id_request_type
    ∷ to_string r.group_id
    ∷ to_string r.id_in_group
    ∷ r.component_name
    ∷ r.listen_address
    ∷ r.listen_port
    ∷ r.human_readable_message
    ∷ []

abbrev pub registration_response_fields : RegistrationResponse → List Bytes
registration_response_fields r =
    codes "DISC:ACK"
    ∷ int_to_string (response_number r.response_code)
    ∷ to_string r.assigned_group_id
    ∷ to_string r.assigned_id_in_group
    ∷ r.connection_target_type
    ∷ r.connection_target_address
    ∷ r.connection_target_port
    ∷ to_string r.connection_target_id
    ∷ r.config_json
    ∷ r.detected_client_address
    ∷ r.human_readable_message
    ∷ []

abbrev pub keepalive_ping_fields : KeepalivePing → List Bytes
keepalive_ping_fields p =
    codes "DISC:PNG" ∷ p.component_id ∷ p.status ∷ p.human_readable_message ∷ []

abbrev pub keepalive_response_fields : KeepaliveResponse → List Bytes
keepalive_response_fields p =
    codes "DISC:PON" ∷ p.response ∷ int_to_string p.next_interval_ms ∷ p.human_readable_message ∷ []

abbrev pub error_message_fields : ErrorMessage → List Bytes
error_message_fields e =
    codes "DISC:ERR" ∷ int_to_string (error_number e.error_code) ∷ e.human_readable_message ∷ []

abbrev pub component_query_fields : ComponentQuery → List Bytes
component_query_fields q =
    codes "DISC:QRY" ∷ q.component_type_filter ∷ q.human_readable_message ∷ []

abbrev pub component_list_response_fields : ComponentListResponse → List Bytes
component_list_response_fields l =
    codes "DISC:LST"
    ∷ to_string l.component_count
    ∷ (l.component_data_list ++ l.human_readable_message ∷ [])

-- The encoder of each type; all of them return OK.
abbrev pub message_fields : Message → List Bytes
message_fields (registration_request r) = registration_request_fields r
message_fields (registration_response r) = registration_response_fields r
message_fields (keepalive_ping p) = keepalive_ping_fields p
message_fields (keepalive_response p) = keepalive_response_fields p
message_fields (error e) = error_message_fields e
message_fields (component_query q) = component_query_fields q
message_fields (component_list l) = component_list_response_fields l

unfoldable pub encode_message : Message → Bytes
encode_message m = join (message_fields m)
