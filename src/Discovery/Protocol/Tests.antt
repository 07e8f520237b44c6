-- ===== src/Discovery/Protocol/Tests.antt =====
-- Runs of the protocol, and its theorems at concrete inputs.
use ros2_modular_edge_offloa.Common.{◌≡◌, refl, arith, [], codes}
use ros2_modular_edge_offloa.Common.Int.{negsuc}
use ros2_modular_edge_offloa.Common.Decimal.{int_to_string, to_string}
use ros2_modular_edge_offloa.Discovery.Protocol.{
  ComponentType, IdRequestType, RegistrationRequest, registration_request, error, malformed_message,
  ErrorCode, component_type_to_string,
}
use ros2_modular_edge_offloa.Discovery.Protocol.Codec.{decoded, fails, decode_message}
use ros2_modular_edge_offloa.Discovery.Protocol.Encode.{encode_message}
use ros2_modular_edge_offloa.Discovery.Protocol.RoundTrip.{decode_message-encode_message}
use ros2_modular_edge_offloa.Discovery.Protocol.EmptyText.{decode_message_empty}
use ros2_modular_edge_offloa.Discovery.Protocol.Component.{ComponentData}

abbrev request : RegistrationRequest
request = record {
  component_type = ComponentType.vehicle;
  id_request_type = IdRequestType.static;
  group_id = 60;
  id_in_group = 5;
  component_name = codes "truck";
  listen_address = codes "10.0.0.7";
  listen_port = codes "9000";
  human_readable_message = codes "hello";
}

minus_forty_two : int_to_string (negsuc 41) ≡ codes "-42"
unfolding int_to_string
minus_forty_two = refl

encoded :
    encode_message (registration_request request)
    ≡ codes "DISC:REG;V;S;60;5;truck;10.0.0.7;9000;hello"
unfolding encode_message component_type_to_string to_string
encoded = refl

decode_message-encode_message_example :
    decode_message (encode_message (registration_request request))
    ≡ decoded (registration_request request)
decode_message-encode_message_example =
    decode_message-encode_message (registration_request request) (omega arith, omega arith)
      (ground arith) (ground arith) (λ e. cc)

decode_message_empty_example :
    decode_message (
      encode_message
        (error (record { error_code = ErrorCode.network; human_readable_message = [] })))
    ≡ fails malformed_message
decode_message_empty_example =
    decode_message_empty
      (error (record { error_code = ErrorCode.network; human_readable_message = [] }))
      (omega arith, refl) tt refl

abbrev arm : ComponentData
arm = record { component_type = codes "M"; group_id = 70; id_in_group = 1; subtype = 0 }
