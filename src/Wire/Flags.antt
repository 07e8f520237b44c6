-- ===== src/Wire/Flags.antt =====
-- The flags byte and the options are the same thing.
use ros2_modular_edge_offloa.Common.{
  ℕ, ◌<◌, Bool, true, false, ◌&&◌, ◌≡◌, refl, arith, ◌==◌, ==_iff, not, ltb, ltb→lt,
}
use ros2_modular_edge_offloa.Common.Range.{all_below, all_below_sound, all_bools, all_bools_sound}
use ros2_modular_edge_offloa.Wire.{MessageOptions, to_flags, of_flags}

flags_table : all_below 256 (λ f. to_flags (of_flags f) == f) ≡ true
unfolding all_below to_flags of_flags
flags_table = refl

-- Every flags byte is the byte of the options that are read from it.
pub to_flags-of_flags : (f : ℕ) → f < 256 → to_flags (of_flags f) ≡ f
to_flags-of_flags f h = (==_iff _ f).0 (all_below_sound 256 _ f flags_table h)

abbrev bool_beq : Bool → Bool → Bool
bool_beq true b = b
bool_beq false b = not b

abbrev same : MessageOptions → MessageOptions → Bool
same o p =
    bool_beq o.has_timestamp p.has_timestamp
    && bool_beq o.fragmented p.fragmented
    && bool_beq o.serialized p.serialized
    && bool_beq o.has_checksum p.has_checksum
    && bool_beq o.compressed p.compressed
    && o.version == p.version

same_sound : (o p : MessageOptions) → same o p ≡ true → o ≡ p
same_sound o p h = ground arith

-- A property of all options with a version below `n`, checked at each of them.
abbrev options : Bool → Bool → Bool → Bool → Bool → ℕ → MessageOptions
options a b c d e v = record {
  has_timestamp = a;
  fragmented = b;
  serialized = c;
  has_checksum = d;
  compressed = e;
  version = v;
}

with_five : ℕ → (MessageOptions → Bool) → Bool → Bool → Bool → Bool → Bool → Bool
unfolding all_below
with_five n p a b c d e = all_below n (λ v. p (options a b c d e v))

with_four : ℕ → (MessageOptions → Bool) → Bool → Bool → Bool → Bool → Bool
unfolding with_five all_bools
with_four n p a b c d = all_bools (with_five n p a b c d)

with_three : ℕ → (MessageOptions → Bool) → Bool → Bool → Bool → Bool
unfolding with_four all_bools
with_three n p a b c = all_bools (with_four n p a b c)

with_two : ℕ → (MessageOptions → Bool) → Bool → Bool → Bool
unfolding with_three all_bools
with_two n p a b = all_bools (with_three n p a b)

with_one : ℕ → (MessageOptions → Bool) → Bool → Bool
unfolding with_two all_bools
with_one n p a = all_bools (with_two n p a)

all_options : ℕ → (MessageOptions → Bool) → Bool
unfolding with_one all_bools
all_options n p = all_bools (with_one n p)

all_options_sound :
    (n : ℕ) (p : MessageOptions → Bool) (o : MessageOptions)
    → all_options n p ≡ true
    → o.version < n
    → p o ≡ true
unfolding all_options
all_options_sound n p o h lt =
    let ha = all_bools_sound (with_one n p) o.has_timestamp h in
    let hb = all_bools_sound (with_two n p o.has_timestamp) o.fragmented ha in
    let hc = all_bools_sound (with_three n p o.has_timestamp o.fragmented) o.serialized hb in
    let hd =
      all_bools_sound (with_four n p o.has_timestamp o.fragmented o.serialized) o.has_checksum hc in
    let he =
      all_bools_sound (with_five n p o.has_timestamp o.fragmented o.serialized o.has_checksum)
        o.compressed hd in
    all_below_sound n
      (λ v. p (options o.has_timestamp o.fragmented o.serialized o.has_checksum o.compressed v))
      o.version he lt

kept : MessageOptions → Bool
unfolding to_flags of_flags
kept o = same (of_flags (to_flags o)) o

kept_table : all_options 8 kept ≡ true
unfolding all_options kept
kept_table = refl

-- The options are read back from their byte, if the version has three bits.
pub of_flags-to_flags : (o : MessageOptions) → o.version < 8 → of_flags (to_flags o) ≡ o
unfolding kept
of_flags-to_flags o h = same_sound _ o (all_options_sound 8 kept o kept_table h)

is_byte : MessageOptions → Bool
unfolding to_flags
is_byte o = ltb (to_flags o) 256

is_byte_table : all_options 256 is_byte ≡ true
unfolding all_options is_byte
is_byte_table = refl

-- Options with any uint8_t for a version make a byte.
pub to_flags-lt : (o : MessageOptions) → o.version < 256 → to_flags o < 256
unfolding is_byte
to_flags-lt o h = ltb→lt _ 256 (all_options_sound 256 is_byte o is_byte_table h)
