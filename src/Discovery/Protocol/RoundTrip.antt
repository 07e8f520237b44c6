-- ===== src/Discovery/Protocol/RoundTrip.antt =====
-- What a decoder reads of an encoded message.
use ros2_modular_edge_offloa.Common.{
  ℕ, ◌<◌, ◌≡◌, ◌≢◌, refl, arith, [], All, Lacks, codes, if◌then◌else◌,
}
use ros2_modular_edge_offloa.Common.Eq.{bytes_beq}
use ros2_modular_edge_offloa.Common.Int.{pos, u8, u16}
use ros2_modular_edge_offloa.Common.Decimal.{stoi-to_string, stoi-int_to_string, IsInt}
use ros2_modular_edge_offloa.Discovery.Protocol.{
  ComponentType, vehicle, mec, bridge, offload_manager, test, IdRequestType, automatic, static,
  response_number, error_number, RegistrationRequest, RegistrationResponse, KeepalivePing,
  KeepaliveResponse, ErrorMessage, ComponentQuery, Message, registration_request,
  registration_response, error, keepalive_ping, keepalive_response, component_query, component_list,
  component_type_to_string, string_to_component_type,
}
use ros2_modular_edge_offloa.Discovery.Protocol.Codec.{
  decoded, decode_message, decode_registration_request, decode_registration_response,
  decode_keepalive_ping, decode_keepalive_response, decode_error_message, decode_component_query,
}
use ros2_modular_edge_offloa.Discovery.Protocol.Encode.{id_request_letter, encode_message}
use ros2_modular_edge_offloa.Discovery.Protocol.Join.{trimmed_full}
use ros2_modular_edge_offloa.Discovery.Protocol.Fields.{
  decode_message-dispatch, texts, last_text, InRange, split_message,
}
use ros2_modular_edge_offloa.Discovery.Protocol.ListTrip.{list_trip}

pub string_to_component_type_lem :
    (t : ComponentType) → string_to_component_type (component_type_to_string t) ≡ t
unfolding string_to_component_type component_type_to_string
string_to_component_type_lem vehicle = refl
string_to_component_type_lem mec = refl
string_to_component_type_lem bridge = refl
string_to_component_type_lem offload_manager = refl
string_to_component_type_lem test = refl

u8_small : (n : ℕ) → n < 256 → u8 (pos n) ≡ n
u8_small n h = omega arith

u16_small : (n : ℕ) → n < 65536 → u16 (pos n) ≡ n
u16_small n h = omega arith

id_letter_lem :
    (t : IdRequestType)
    → (if bytes_beq (id_request_letter t) (codes "A") then automatic else static) ≡ t
id_letter_lem automatic = refl
id_letter_lem static = refl

request_trip :
    (r : RegistrationRequest)
    → r.group_id < 256
    → r.id_in_group < 256
    → All (Lacks b';') (texts (registration_request r))
    → Lacks b';' r.human_readable_message
    → r.human_readable_message ≢ []
    → decode_registration_request (encode_message (registration_request r)) ≡ decoded r
unfolding decode_registration_request
request_trip r hg hi clean last full =
    rw
      (
        split_message (registration_request r) clean last,
        trimmed_full r.human_readable_message full,
        stoi-to_string r.group_id (omega arith),
        stoi-to_string r.id_in_group (omega arith),
      )
      (rw
        (
          string_to_component_type_lem r.component_type,
          id_letter_lem r.id_request_type,
          u8_small r.group_id hg,
          u8_small r.id_in_group hi,
        )
        refl)

response_trip :
    (r : RegistrationResponse)
    → InRange (registration_response r)
    → All (Lacks b';') (texts (registration_response r))
    → Lacks b';' r.human_readable_message
    → r.human_readable_message ≢ []
    → decode_registration_response (encode_message (registration_response r)) ≡ decoded r
unfolding decode_registration_response
response_trip r (int, code, hg, hi, ht) clean last full =
    rw
      (
        split_message (registration_response r) clean last,
        trimmed_full r.human_readable_message full,
        stoi-int_to_string (response_number r.response_code) int,
        stoi-to_string r.assigned_group_id (omega arith),
        stoi-to_string r.assigned_id_in_group (omega arith),
        stoi-to_string r.connection_target_id (omega arith),
      )
      (rw
        (
          code,
          u8_small r.assigned_group_id hg,
          u8_small r.assigned_id_in_group hi,
          u16_small r.connection_target_id ht,
        )
        refl)

ping_trip :
    (p : KeepalivePing)
    → All (Lacks b';') (texts (keepalive_ping p))
    → Lacks b';' p.human_readable_message
    → p.human_readable_message ≢ []
    → decode_keepalive_ping (encode_message (keepalive_ping p)) ≡ decoded p
unfolding decode_keepalive_ping
ping_trip p clean last full =
    rw (split_message (keepalive_ping p) clean last, trimmed_full p.human_readable_message full)
      refl

pong_trip :
    (p : KeepaliveResponse)
    → IsInt p.next_interval_ms
    → All (Lacks b';') (texts (keepalive_response p))
    → Lacks b';' p.human_readable_message
    → p.human_readable_message ≢ []
    → decode_keepalive_response (encode_message (keepalive_response p)) ≡ decoded p
unfolding decode_keepalive_response
pong_trip p int clean last full =
    rw
      (
        split_message (keepalive_response p) clean last,
        trimmed_full p.human_readable_message full,
        stoi-int_to_string p.next_interval_ms int,
      )
      refl

error_trip :
    (e : ErrorMessage)
    → InRange (error e)
    → Lacks b';' e.human_readable_message
    → e.human_readable_message ≢ []
    → decode_error_message (encode_message (error e)) ≡ decoded e
unfolding decode_error_message
error_trip e (int, code) last full =
    rw
      (
        split_message (error e) tt last,
        trimmed_full e.human_readable_message full,
        stoi-int_to_string (error_number e.error_code) int,
      )
      (rw code refl)

query_trip :
    (q : ComponentQuery)
    → All (Lacks b';') (texts (component_query q))
    → Lacks b';' q.human_readable_message
    → q.human_readable_message ≢ []
    → decode_component_query (encode_message (component_query q)) ≡ decoded q
unfolding decode_component_query
query_trip q clean last full =
    rw (split_message (component_query q) clean last, trimmed_full q.human_readable_message full)
      refl

-- The decoder gives back every message that was encoded, if its numbers are in range, no text of it contains
-- the separator, and its last text is not empty.
pub decode_message-encode_message :
    (m : Message)
    → InRange m
    → All (Lacks b';') (texts m)
    → Lacks b';' (last_text m)
    → last_text m ≢ []
    → decode_message (encode_message m) ≡ decoded m
decode_message-encode_message (registration_request r) (hg, hi) clean last full =
    rw (decode_message-dispatch (registration_request r), request_trip r hg hi clean last full) refl
decode_message-encode_message (registration_response r) range clean last full =
    rw (decode_message-dispatch (registration_response r), response_trip r range clean last full)
      refl
decode_message-encode_message (keepalive_ping p) range clean last full =
    rw (decode_message-dispatch (keepalive_ping p), ping_trip p clean last full) refl
decode_message-encode_message (keepalive_response p) range clean last full =
    rw (decode_message-dispatch (keepalive_response p), pong_trip p range clean last full) refl
decode_message-encode_message (error e) range clean last full =
    rw (decode_message-dispatch (error e), error_trip e range last full) refl
decode_message-encode_message (component_query q) range clean last full =
    rw (decode_message-dispatch (component_query q), query_trip q clean last full) refl
decode_message-encode_message (component_list l) range clean last full =
    rw (decode_message-dispatch (component_list l), list_trip l range clean last full) refl
