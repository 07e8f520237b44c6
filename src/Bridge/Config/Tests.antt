-- ===== src/Bridge/Config/Tests.antt =====
-- Runs of the configuration, and its theorem at a concrete input.
use ros2_modular_edge_offloa.Common.{none, some, [], ◌∷◌, codes}
use ros2_modular_edge_offloa.Bridge.Config.{ConfigJson, default_config, parse_from_json}
use ros2_modular_edge_offloa.Bridge.Config.Index.{IsIndexed, parse_from_json-IsIndexed}

-- The id 7 stands twice, the second task has a message type over 255, the third has no name.
abbrev document : ConfigJson
document = record {
  available_tasks = some (
      record {
        task_id = some 7;
        task_name = some (codes "lidar");
        input_message_types = some (some 11 ∷ []);
        output_message_types = none;
      }
      ∷ record {
        task_id = some 7;
        task_name = some (codes "arm");
        input_message_types = none;
        output_message_types = some (some 269 ∷ []);
      }
      ∷ record {
        task_id = some 8;
        task_name = none;
        input_message_types = none;
        output_message_types = none;
      }
      ∷ []);
  default_session_timeout = some (some 4294967290);
  max_concurrent_sessions = none;
}

parse_from_json-IsIndexed_example : IsIndexed (parse_from_json default_config document).0
parse_from_json-IsIndexed_example = parse_from_json-IsIndexed default_config document
