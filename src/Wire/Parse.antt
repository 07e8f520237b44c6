-- ===== src/Wire/Parse.antt =====
-- bridge/src/common_types.hpp: the routing key and the parser of the header. The buffer is the list of
-- its valid bytes, so `buffer_size` is its length.
use Prim.Native.Nat.{bit_or}
use ros2_modular_edge_offloa.Common.{
  ℕ, ◌+◌, ◌*◌, ◌^◌, Bool, true, not, ◌&&◌, ◌≡◌, ◌↔◌, Option, none, some, arith, Bytes, length,
  get_or, ◌==◌, ltb, if◌then◌else◌,
}
use ros2_modular_edge_offloa.Common.Eq.{Eq}

abbrev pub min_header_len : ℕ
min_header_len = 11

abbrev pub expected_magic_number : ℕ
expected_magic_number = 0xA5C3

-- memcpy and ntohs: the first byte is the high one.
abbrev pub read_uint16_big_endian : Bytes → ℕ → ℕ
read_uint16_big_endian b at = get_or b at 0 * 2 ^ 8 + get_or b (at + 1) 0

abbrev pub read_uint32_big_endian : Bytes → ℕ → ℕ
read_uint32_big_endian b at =
    get_or b at 0 * 2 ^ 24
    + get_or b (at + 1) 0 * 2 ^ 16
    + get_or b (at + 2) 0 * 2 ^ 8
    + get_or b (at + 3) 0

pub record RoutingKey : Type 0 where
  pub source_id : ℕ
  pub message_type : ℕ

-- operator==
abbrev pub key_beq : RoutingKey → RoutingKey → Bool
key_beq a b = a.source_id == b.source_id && a.message_type == b.message_type

pub key_beq_iff : (a b : RoutingKey) → (key_beq a b ≡ true) ↔ (a ≡ b)
key_beq_iff a b = ground arith

instance abbrev pub key_eq : Eq RoutingKey
key_eq = record { beq = key_beq; beq_iff = key_beq_iff }

unfoldable pub construct_routing_key : ℕ → ℕ → ℕ → RoutingKey
construct_routing_key id_group id_in_group msg_type = record {
  source_id = bit_or (id_group * 2 ^ 8) id_in_group;
  message_type = msg_type;
}

pub record ParsedHeaderInfo : Type 0 where
  pub routing_key : RoutingKey
  pub total_message_length : ℕ
  pub payload_offset : ℕ
  pub payload_size : ℕ

unfoldable pub parse_message_header : Bytes → Option ParsedHeaderInfo
parse_message_header buffer =
    let topic_length = get_or buffer 10 0 in
    let payload_size = read_uint32_big_endian buffer 6 in
    if ltb (length buffer) min_header_len
    then none
    else if not (read_uint16_big_endian buffer 0 == expected_magic_number)
    then none
    else if ltb (length buffer) (min_header_len + topic_length)
    then none
    else some (record {
      routing_key =
          construct_routing_key (get_or buffer 4 0) (get_or buffer 5 0) (get_or buffer 3 0);
      total_message_length = min_header_len + topic_length + payload_size;
      payload_offset = min_header_len + topic_length;
      payload_size = payload_size;
    })

-- The overload for a vector refuses the empty one first.
unfoldable pub parse_message_header_vector : Bytes → Option ParsedHeaderInfo
unfolding parse_message_header
parse_message_header_vector data_buffer =
    if length data_buffer == 0 then none else parse_message_header data_buffer
