-- ===== src/Wire/RoundTrip.antt =====
-- What the bridge reads from a header that a gateway wrote.
use Prim.Native.Nat.{bit_or}
use ros2_modular_edge_offloa.Common.{
  ℕ, ◌+◌, ◌*◌, ◌/◌, ◌%◌, ◌^◌, ◌<◌, Bool, true, ◌≡◌, refl, some, arith, ◌++◌, Bytes, length, take,
  length-append, length-take_le, ◌==◌, ==_iff,
}
use ros2_modular_edge_offloa.Wire.{
  MessageType, MessageOptions, type_code, topic_length, create_header, create_header_options,
  create_header_in_buffer,
}
use ros2_modular_edge_offloa.Common.Range.{all_below, all_below_sound}
use ros2_modular_edge_offloa.Wire.Flags.{to_flags-lt}
use ros2_modular_edge_offloa.Wire.Parse.{construct_routing_key, parse_message_header}

or_row : ℕ → ℕ → Bool
or_row g i = bit_or (g * 256) i == g * 256 + i

or_table : all_below 256 (λ g. all_below 256 (or_row g)) ≡ true
unfolding all_below or_row
or_table = refl

or_bytes : (g i : ℕ) → g < 256 → i < 256 → bit_or (g * 2 ^ 8) i ≡ g * 256 + i
unfolding or_row
or_bytes g i hg hi = (==_iff _ (g * 256 + i)).0 (
    all_below_sound 256 (or_row g) i
      (all_below_sound 256 (λ g. all_below 256 (or_row g)) g or_table hg) hi)

-- The routing key holds the two parts of the id side by side.
pub construct_routing_key_lem :
    (g i t : ℕ)
    → g < 256
    → i < 256
    → construct_routing_key g i t ≡ record { source_id = g * 256 + i; message_type = t }
unfolding construct_routing_key
construct_routing_key_lem g i t hg hi = rw (or_bytes g i hg hi)

-- Two routing keys are equal only if both parts of the ids and the message types agree, if the parts are
-- bytes.
pub construct_routing_key_inj :
    (g i t g' i' t' : ℕ)
    → g < 256
    → i < 256
    → g' < 256
    → i' < 256
    → construct_routing_key g i t ≡ construct_routing_key g' i' t'
    → (g ≡ g') × (i ≡ i') × (t ≡ t')
construct_routing_key_inj g i t g' i' t' hg hi hg' hi' e =
    ground
      (arith, construct_routing_key_lem g i t hg hi, construct_routing_key_lem g' i' t' hg' hi')

pub length-take_topic :
    (topic : Bytes) → length (take (topic_length topic) topic) ≡ topic_length topic
length-take_topic topic = length-take_le (topic_length topic) topic (omega arith)

pub length-create_header :
    (topic : Bytes) (type : MessageType) (g i size flags : ℕ)
    → length (create_header topic type g i size flags) ≡ 11 + topic_length topic
unfolding create_header
length-create_header topic type g i size flags = omega (arith, length-take_topic topic)

-- The bytes of a 32-bit size spell it again.
pub big_endian32_value :
    (n : ℕ)
    → n < 2 ^ 32
    → n / 2 ^ 24 % 256 * 2 ^ 24 + n / 2 ^ 16 % 256 * 2 ^ 16 + n / 2 ^ 8 % 256 * 2 ^ 8 + n % 256 ≡ n
big_endian32_value n h = omega arith

-- The bridge reads from a gateway's header, whatever follows it, the key of the sender, the length of the
-- header with the topic cut to 255 bytes, and the size of the payload, if the size fits 32 bits.
pub parse-create_header :
    (topic : Bytes) (type : MessageType) (g i size flags : ℕ) (rest : Bytes)
    → size < 2 ^ 32
    → parse_message_header (create_header topic type g i size flags ++ rest)
      ≡ some (record {
        routing_key = construct_routing_key g i (type_code type);
        total_message_length = 11 + topic_length topic + size;
        payload_offset = 11 + topic_length topic;
        payload_size = size;
      })
unfolding parse_message_header create_header
parse-create_header topic type g i size flags rest h =
    ground (arith, length-append (take (topic_length topic) topic) rest, length-take_topic topic)

-- The variant that fills a given buffer writes the same header, whatever the buffer held, and returns its
-- length, if the version is a uint8_t.
pub create_header_in_buffer_lem :
    (buffer topic : Bytes) (type : MessageType) (g i size : ℕ) (o : MessageOptions)
    → o.version < 256
    → create_header_in_buffer buffer topic type g i size o
      ≡ (create_header_options topic type g i size o, 11 + topic_length topic)
unfolding create_header_in_buffer create_header_options
create_header_in_buffer_lem buffer topic type g i size o h =
    ground (arith, to_flags-lt o h, length-take_topic topic)
