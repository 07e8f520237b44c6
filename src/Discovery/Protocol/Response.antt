-- ===== src/Discovery/Protocol/Response.antt =====
-- Responses of the discovery service as a client's decoder gives them back.
use ros2_modular_edge_offloa.Common.{◌≡◌, ◌≢◌, [], All, Lacks}
use ros2_modular_edge_offloa.Discovery.Protocol.{RegistrationResponse, registration_response, wait}
use ros2_modular_edge_offloa.Discovery.Protocol.Encode.{encode_message}
use ros2_modular_edge_offloa.Discovery.Protocol.Codec.{decoded, decode_message}
use ros2_modular_edge_offloa.Discovery.Protocol.Fields.{texts, InRange}
use ros2_modular_edge_offloa.Discovery.Protocol.RoundTrip.{decode_message-encode_message}

-- A response that the decoder gives back as it was encoded.
pub record Clean (r : RegistrationResponse) : Type 0 where
  pub range : InRange (registration_response r)
  pub clean : All (Lacks b';') (texts (registration_response r))
  pub last : Lacks b';' r.human_readable_message
  pub full : r.human_readable_message ≢ []

abbrev pub IsWait : RegistrationResponse → Type 0
IsWait r = (r.response_code ≡ wait) × Clean r

pub decode_message-response :
    (r : RegistrationResponse)
    → Clean r
    → decode_message (encode_message (registration_response r)) ≡ decoded (registration_response r)
decode_message-response r c =
    decode_message-encode_message (registration_response r) c.range c.clean c.last c.full
