-- ===== src/Wire/Tests.antt =====
-- Runs of the header code, and the header theorems at concrete inputs.
use ros2_modular_edge_offloa.Common.{ℕ, true, false, ◌≡◌, refl, some, none, arith, ◌++◌, codes}
use ros2_modular_edge_offloa.Wire.{MessageType, MessageOptions, to_flags, create_header, type_code}
use ros2_modular_edge_offloa.Wire.Parse.{parse_message_header, construct_routing_key}
use ros2_modular_edge_offloa.Wire.RoundTrip.{parse-create_header}

abbrev stamped : MessageOptions
stamped = record {
  has_timestamp = true;
  fragmented = false;
  serialized = true;
  has_checksum = false;
  compressed = false;
  version = 3;
}

stamped_flags : to_flags stamped ≡ 0xa3
unfolding to_flags
stamped_flags = refl

bad_magic : parse_message_header (codes "abcdefghijkl") ≡ none
unfolding parse_message_header
bad_magic = refl

parse-create_header_example :
    parse_message_header
      (create_header (codes "/cmd") MessageType.string 60 5 7 0 ++ codes "payload")
    ≡ some (record {
      routing_key = construct_routing_key 60 5 (type_code MessageType.string);
      total_message_length = 22;
      payload_offset = 15;
      payload_size = 7;
    })
parse-create_header_example =
    parse-create_header (codes "/cmd") MessageType.string 60 5 7 0 (codes "payload") (omega arith)

abbrev group : ℕ
group = 60

abbrev own_id : ℕ
own_id = 5

abbrev laser_type : ℕ
laser_type = type_code MessageType.sm_laserscan
