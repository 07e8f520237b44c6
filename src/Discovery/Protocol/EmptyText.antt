-- ===== src/Discovery/Protocol/EmptyText.antt =====
-- A message without its last text.
use ros2_modular_edge_offloa.Common.{
  ◌≤◌, ◌≡◌, refl, ◌∙◌, arith, [], ◌∷◌, Bytes, All, Lacks, codes, length, append-nil,
}
use ros2_modular_edge_offloa.Common.Int.{pos, u32}
use ros2_modular_edge_offloa.Common.Decimal.{to_string, stoi-to_string}
use ros2_modular_edge_offloa.Discovery.Protocol.{
  ComponentListResponse, Message, registration_request, registration_response, error,
  keepalive_ping, keepalive_response, component_query, component_list, split_string,
  malformed_message,
}
use ros2_modular_edge_offloa.Discovery.Protocol.Codec.{
  fails, decode_message, decode_registration_request, decode_registration_response,
  decode_keepalive_ping, decode_keepalive_response, decode_error_message, decode_component_query,
  decode_component_list_response, list_of_parts,
}
use ros2_modular_edge_offloa.Discovery.Protocol.Encode.{encode_message}
use ros2_modular_edge_offloa.Discovery.Protocol.Join.{trimmed, trimmed-append}
use ros2_modular_edge_offloa.Discovery.Protocol.Fields.{
  decode_message-dispatch, texts, last_text, InRange, split_message,
}

trimmed_empty : (m : Bytes) → m ≡ [] → trimmed (m ∷ []) ≡ []
trimmed_empty [] e = refl
trimmed_empty (c ∷ s) e = absurd (cc)

module _ (l : ComponentListResponse) (count : l.component_count ≡ length l.component_data_list)
    (bound : l.component_count ≤ 2147483647) where
  list_of_parts_short :
      (h n : Bytes)
      → list_of_parts (h ∷ n ∷ l.component_data_list) (length l.component_data_list)
        ≡ fails malformed_message
  unfolding list_of_parts
  list_of_parts_short h n = ground arith

  empty_list :
      All (Lacks b';') (texts (component_list l))
      → Lacks b';' l.human_readable_message
      → l.human_readable_message ≡ []
      → decode_component_list_response (encode_message (component_list l)) ≡ fails malformed_message
  unfolding decode_component_list_response
  empty_list clean last gone =
      let head : Bytes = codes "DISC:LST" in
      let number : Bytes = to_string l.component_count in
      let parts : split_string (encode_message (component_list l)) b';'
          ≡ head ∷ number ∷ l.component_data_list =
        split_message (component_list l) clean last
        ∙ trimmed-append (head ∷ number ∷ l.component_data_list) l.human_readable_message []
        ∙ rw (trimmed_empty l.human_readable_message gone, append-nil) refl in
      let wrap : u32 (pos l.component_count) ≡ length l.component_data_list = omega arith in
      ground (
        arith,
        parts,
        wrap,
        stoi-to_string l.component_count bound,
        list_of_parts_short head number,
      )

-- A message with an empty last text is refused as malformed, if its numbers are in range and no text of it
-- contains the separator.
pub decode_message_empty :
    (m : Message)
    → InRange m
    → All (Lacks b';') (texts m)
    → last_text m ≡ []
    → decode_message (encode_message m) ≡ fails malformed_message
unfolding decode_registration_request decode_registration_response decode_keepalive_ping
    decode_keepalive_response decode_error_message decode_component_query
decode_message_empty (registration_request r) range clean gone =
    rw
      (
        decode_message-dispatch (registration_request r),
        split_message (registration_request r) clean (rw gone tt),
        trimmed_empty r.human_readable_message gone,
      )
      refl
decode_message_empty (registration_response r) range clean gone =
    rw
      (
        decode_message-dispatch (registration_response r),
        split_message (registration_response r) clean (rw gone tt),
        trimmed_empty r.human_readable_message gone,
      )
      refl
decode_message_empty (keepalive_ping p) range clean gone =
    rw
      (
        decode_message-dispatch (keepalive_ping p),
        split_message (keepalive_ping p) clean (rw gone tt),
        trimmed_empty p.human_readable_message gone,
      )
      refl
decode_message_empty (keepalive_response p) range clean gone =
    rw
      (
        decode_message-dispatch (keepalive_response p),
        split_message (keepalive_response p) clean (rw gone tt),
        trimmed_empty p.human_readable_message gone,
      )
      refl
decode_message_empty (error e) range clean gone =
    rw
      (
        decode_message-dispatch (error e),
        split_message (error e) clean (rw gone tt),
        trimmed_empty e.human_readable_message gone,
      )
      refl
decode_message_empty (component_query q) range clean gone =
    rw
      (
        decode_message-dispatch (component_query q),
        split_message (component_query q) clean (rw gone tt),
        trimmed_empty q.human_readable_message gone,
      )
      refl
decode_message_empty (component_list l) (count, bound) clean gone =
    rw
      (decode_message-dispatch (component_list l), empty_list l count bound clean (rw gone tt) gone)
      refl
