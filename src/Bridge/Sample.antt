-- ===== src/Bridge/Sample.antt =====
-- A concrete type of JSON values and the calls on it, for the tests.
use Prim.Native.String.{String}
use ros2_modular_edge_offloa.Common.{
  ℕ, Bool, true, false, Option, none, some, Bytes, [], ◌∷◌, codes, if◌then◌else◌,
}
use ros2_modular_edge_offloa.Common.Int.{ℤ, pos}
use ros2_modular_edge_offloa.Common.Eq.{bytes_beq}
use ros2_modular_edge_offloa.Bridge.Json.{JsonAccess}

mutual
  pub data Sample : Type 0 where
    text : Bytes → Sample
    number : ℕ → Sample
    object : Members → Sample

  pub data Members : Type 0 where
    none_left : Members
    member : Bytes → Sample → Members → Members

abbrev pub has : Bytes → Members → Bool
has k none_left = false
has k (member j v m) = if bytes_beq j k then true else has k m

abbrev pub pick : Bytes → Members → Sample
pick k none_left = number 0
pick k (member j v m) = if bytes_beq j k then v else pick k m

abbrev pub sample_contains : Sample → String → Bool
sample_contains (object m) k = has (codes k) m
sample_contains (text t) k = false
sample_contains (number n) k = false

abbrev pub sample_at : Sample → String → Sample
sample_at (object m) k = pick (codes k) m
sample_at (text t) k = number 0
sample_at (number n) k = number 0

abbrev pub sample_text : Sample → Option Bytes
sample_text (text t) = some t
sample_text (number n) = none
sample_text (object m) = none

abbrev pub sample_number : Sample → Option ℕ
sample_number (number n) = some n
sample_number (text t) = none
sample_number (object m) = none

abbrev pub sample_int : Sample → Option ℤ
sample_int (number n) = some (pos n)
sample_int (text t) = none
sample_int (object m) = none

abbrev pub put : Bytes → Bytes → Members → Members
put k t none_left = member k (text t) none_left
put k t (member j v m) = if bytes_beq j k then member j (text t) m else member j v (put k t m)

abbrev pub sample_set_text : Sample → String → Bytes → Sample
sample_set_text (object m) k t = object (put (codes k) t m)
sample_set_text (text u) k t = text u
sample_set_text (number n) k t = number n

abbrev pub sample_is_text : Sample → Bool
sample_is_text (text t) = true
sample_is_text (number n) = false
sample_is_text (object m) = false

abbrev pub dp_info : Sample
dp_info = object (
    member (codes "component_id") (text (codes "60:5")) (
      member (codes "message_code") (number 103) (
        member (codes "message_type") (text (codes "DP_INFO")) (
          member (codes "sequence_number") (number 9) (
            member (codes "payload")
              (object (
                member (codes "dp_host") (text (codes "0.0.0.0"))
                  (member (codes "dp_port") (number 9000) none_left)))
              none_left)))))

-- Every text but the empty one is read as the same message.
abbrev pub sample_parse : Bytes → Option Sample
sample_parse [] = none
sample_parse (c ∷ s) = some dp_info

instance abbrev pub sample_json : JsonAccess Sample
sample_json = record {
  parse = sample_parse;
  contains = sample_contains;
  at_key = sample_at;
  get_text = sample_text;
  get_int = sample_int;
  get_uint32 = sample_number;
  get_uint64 = sample_number;
  is_string = sample_is_text;
  is_integer = λ v. false;
  get_int64 = sample_int;
  set_text = sample_set_text;
}
