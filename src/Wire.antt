-- ===== src/Wire.antt =====
-- The data-plane frame: message_header.hpp of the gateway
-- (ros/src/ros_ws/src/modular_gateway_sender/include/modular_gateway_sender) writes it, and
-- bridge/src/common_types.hpp reads it. Bytes and words are natural numbers; `x & 0xFF` on a word is
-- written `% 256` and `x >> k` is written `/ 2 ^ k`.
pub mod Flags
pub mod Parse
pub mod RoundTrip
mod Tests
use Prim.Native.Nat.{bit_and, bit_or}
use ros2_modular_edge_offloa.Common.{
  ℕ, ◌+◌, ◌/◌, ◌%◌, ◌^◌, Bool, true, false, not, ◌≡◌, refl, ap, List, [], ◌∷◌, ◌++◌, Bytes, length,
  take, min, ◌==◌, if◌then◌else◌,
}

pub data MessageType : Type 0 where
  string int32 float32 bool : MessageType
  sm_laserscan sm_serial_string sm_jointstate sm_serial_feedback : MessageType
  string_test_input string_test_result : MessageType

-- static_cast<uint8_t>(type)
unfoldable pub type_code : MessageType → ℕ
type_code string = 1
type_code int32 = 2
type_code float32 = 3
type_code bool = 4
type_code sm_laserscan = 11
type_code sm_serial_string = 12
type_code sm_jointstate = 13
type_code sm_serial_feedback = 14
type_code string_test_input = 201
type_code string_test_result = 202

abbrev pub header_magic : ℕ
header_magic = 0xA5C3

abbrev pub flag_has_timestamp : ℕ
flag_has_timestamp = 0x80

abbrev pub flag_fragmented : ℕ
flag_fragmented = 0x40

abbrev pub flag_serialized : ℕ
flag_serialized = 0x20

abbrev pub flag_has_checksum : ℕ
flag_has_checksum = 0x10

abbrev pub flag_compressed : ℕ
flag_compressed = 0x08

abbrev pub flag_version_mask : ℕ
flag_version_mask = 0x07

pub record MessageOptions : Type 0 where
  pub has_timestamp : Bool
  pub fragmented : Bool
  pub serialized : Bool
  pub has_checksum : Bool
  pub compressed : Bool
  pub version : ℕ

-- if (condition) flags |= flag
abbrev or_if : Bool → ℕ → ℕ → ℕ
or_if c flag flags = if c then bit_or flags flag else flags

unfoldable pub to_flags : MessageOptions → ℕ
to_flags o =
    let f1 = or_if o.has_timestamp flag_has_timestamp 0 in
    let f2 = or_if o.fragmented flag_fragmented f1 in
    let f3 = or_if o.serialized flag_serialized f2 in
    let f4 = or_if o.has_checksum flag_has_checksum f3 in
    let f5 = or_if o.compressed flag_compressed f4 in
    bit_or f5 (bit_and o.version flag_version_mask)

abbrev has_flag : ℕ → ℕ → Bool
has_flag flags flag = not (bit_and flags flag == 0)

-- MessageOptions(uint8_t flags)
unfoldable pub of_flags : ℕ → MessageOptions
of_flags flags = record {
  has_timestamp = has_flag flags flag_has_timestamp;
  fragmented = has_flag flags flag_fragmented;
  serialized = has_flag flags flag_serialized;
  has_checksum = has_flag flags flag_has_checksum;
  compressed = has_flag flags flag_compressed;
  version = bit_and flags flag_version_mask;
}

-- Four bytes, the most significant first.
abbrev pub big_endian32 : ℕ → Bytes
big_endian32 n = (n / 2 ^ 24 % 256) ∷ (n / 2 ^ 16 % 256) ∷ (n / 2 ^ 8 % 256) ∷ (n % 256) ∷ []

abbrev pub topic_length : Bytes → ℕ
topic_length topic = min (length topic) 255

unfoldable pub create_header : Bytes → MessageType → ℕ → ℕ → ℕ → ℕ → Bytes
unfolding type_code
create_header topic type id_group identifier_in_group data_size flags =
    (header_magic / 2 ^ 8)
    ∷ (header_magic % 256)
    ∷ (flags % 256)
    ∷ type_code type
    ∷ id_group
    ∷ identifier_in_group
    ∷ (big_endian32 data_size ++ (topic_length topic ∷ take (topic_length topic) topic))

-- The overload that takes the options.
unfoldable pub create_header_options : Bytes → MessageType → ℕ → ℕ → ℕ → MessageOptions → Bytes
unfolding create_header to_flags
create_header_options topic type id_group identifier_in_group data_size options =
    create_header topic type id_group identifier_in_group data_size (to_flags options)

-- The buffer is cleared and filled; the new buffer and the returned size.
unfoldable pub create_header_in_buffer :
    Bytes → Bytes → MessageType → ℕ → ℕ → ℕ → MessageOptions → Bytes × ℕ
unfolding type_code to_flags
create_header_in_buffer buffer topic type id_group identifier_in_group data_size options =
    let b0 : Bytes = [] in
    let b1 = b0 ++ (header_magic / 2 ^ 8) ∷ (header_magic % 256) ∷ [] in
    let b2 = b1 ++ to_flags options ∷ [] in
    let b3 = b2 ++ type_code type ∷ [] in
    let b4 = b3 ++ id_group ∷ identifier_in_group ∷ [] in
    let b5 = b4 ++ big_endian32 data_size in
    let b6 = b5 ++ topic_length topic ∷ [] in
    let b7 = b6 ++ take (topic_length topic) topic in (b7, length b7)
