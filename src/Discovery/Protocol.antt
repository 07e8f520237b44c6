-- ===== src/Discovery/Protocol.antt =====
-- cpplib/discovery_protocol (include/discovery_protocol/protocol.hpp and src/protocol.cpp): the messages.
-- An enum value that static_cast makes of an int outside the enum's list is `unnamed_…`.
pub mod Encode
pub mod Codec
pub mod Join
pub mod Fields
pub mod ListTrip
pub mod RoundTrip
pub mod Response
pub mod EmptyText
pub mod Component
mod Tests
use ros2_modular_edge_offloa.Common.{
  ℕ, zero, suc, Bool, true, false, List, [], ◌∷◌, Bytes, codes, if◌then◌else◌,
}
use ros2_modular_edge_offloa.Common.Eq.{bytes_beq}
use ros2_modular_edge_offloa.Common.Int.{ℤ, pos, negsuc}
use ros2_modular_edge_offloa.Common.Split.{cut}

-- The failures; OK is the constructor `decoded` of a result.
pub data ProtocolStatus : Type 0 where
  buffer_too_small invalid_message_type malformed_message missing_required_fields : ProtocolStatus
  invalid_format field_too_long incomplete_message : ProtocolStatus

pub data ComponentType : Type 0 where
  vehicle mec bridge offload_manager test : ComponentType

pub data IdRequestType : Type 0 where
  automatic static : IdRequestType

pub data ResponseCode : Type 0 where
  success wait id_conflict invalid_request general_error : ResponseCode
  unnamed_response : ℤ → ResponseCode

pub data ErrorCode : Type 0 where
  configuration network internal protocol : ErrorCode
  unnamed_error : ℤ → ErrorCode

-- static_cast<int>
abbrev pub response_number : ResponseCode → ℤ
response_number success = pos 0
response_number wait = pos 1
response_number id_conflict = pos 2
response_number invalid_request = pos 3
response_number general_error = pos 4
response_number (unnamed_response z) = z

abbrev pub error_number : ErrorCode → ℤ
error_number configuration = pos 0
error_number network = pos 1
error_number internal = pos 2
error_number protocol = pos 3
error_number (unnamed_error z) = z

-- static_cast from int
abbrev pub number_response : ℤ → ResponseCode
number_response (pos zero) = success
number_response (pos (suc zero)) = wait
number_response (pos (suc (suc zero))) = id_conflict
number_response (pos (suc (suc (suc zero)))) = invalid_request
number_response (pos (suc (suc (suc (suc zero))))) = general_error
number_response (pos (suc (suc (suc (suc (suc n)))))) =
    unnamed_response (pos (suc (suc (suc (suc (suc n))))))
number_response (negsuc n) = unnamed_response (negsuc n)

abbrev pub number_error : ℤ → ErrorCode
number_error (pos zero) = configuration
number_error (pos (suc zero)) = network
number_error (pos (suc (suc zero))) = internal
number_error (pos (suc (suc (suc zero)))) = protocol
number_error (pos (suc (suc (suc (suc n))))) = unnamed_error (pos (suc (suc (suc (suc n)))))
number_error (negsuc n) = unnamed_error (negsuc n)

pub record RegistrationRequest : Type 0 where
  pub component_type : ComponentType
  pub id_request_type : IdRequestType
  pub group_id : ℕ
  pub id_in_group : ℕ
  pub component_name : Bytes
  pub listen_address : Bytes
  pub listen_port : Bytes
  pub human_readable_message : Bytes

pub record RegistrationResponse : Type 0 where
  pub response_code : ResponseCode
  pub assigned_group_id : ℕ
  pub assigned_id_in_group : ℕ
  pub connection_target_type : Bytes
  pub connection_target_address : Bytes
  pub connection_target_port : Bytes
  pub connection_target_id : ℕ
  pub config_json : Bytes
  pub detected_client_address : Bytes
  pub human_readable_message : Bytes

pub record KeepalivePing : Type 0 where
  pub component_id : Bytes
  pub status : Bytes
  pub human_readable_message : Bytes

pub record KeepaliveResponse : Type 0 where
  pub response : Bytes
  pub next_interval_ms : ℤ
  pub human_readable_message : Bytes

pub record ErrorMessage : Type 0 where
  pub error_code : ErrorCode
  pub human_readable_message : Bytes

pub record ComponentQuery : Type 0 where
  pub component_type_filter : Bytes
  pub human_readable_message : Bytes

pub record ComponentListResponse : Type 0 where
  pub component_count : ℕ
  pub component_data_list : List Bytes
  pub human_readable_message : Bytes

-- The constructors of the source's Message set `type` by the alternative of the variant.
pub data Message : Type 0 where
  registration_request : RegistrationRequest → Message
  registration_response : RegistrationResponse → Message
  error : ErrorMessage → Message
  keepalive_ping : KeepalivePing → Message
  keepalive_response : KeepaliveResponse → Message
  component_query : ComponentQuery → Message
  component_list : ComponentListResponse → Message

-- split_string
abbrev pub split_string : Bytes → ℕ → List Bytes
split_string str delimiter = cut delimiter [] str

unfoldable pub component_type_to_string : ComponentType → Bytes
component_type_to_string vehicle = codes "V"
component_type_to_string mec = codes "M"
component_type_to_string bridge = codes "B"
component_type_to_string offload_manager = codes "O"
component_type_to_string test = codes "T"

unfoldable pub string_to_component_type : Bytes → ComponentType
string_to_component_type str =
    if bytes_beq str (codes "V")
    then vehicle
    else if bytes_beq str (codes "M")
    then mec
    else if bytes_beq str (codes "B")
    then bridge
    else if bytes_beq str (codes "O")
    then offload_manager
    else test
