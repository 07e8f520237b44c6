-- ===== src/Bridge/Sessions/Tests.antt =====
-- Runs of the session manager, and its theorems at concrete inputs.
use ros2_modular_edge_offloa.Common.{◌≡◌, refl, true, false, [], ◌∷◌, codes}
use ros2_modular_edge_offloa.Common.Maps.{find, insert}
use ros2_modular_edge_offloa.Bridge.Config.{GlobalConfig, get_task_config}
use ros2_modular_edge_offloa.Bridge.Sessions.{
  SessionManager, ActiveSession, get_session, create_session, get_active_session_count,
  get_all_request_ids,
}
use ros2_modular_edge_offloa.Bridge.Sessions.Keyed.{create, assign, call, IsKeyed, call-IsKeyed}
use ros2_modular_edge_offloa.Bridge.Sessions.Laws.{effect, get_session-call}

abbrev config : GlobalConfig
config = record {
  tasks =
      record {
        task_id = 7;
        task_name = codes "lidar";
        input_message_types = 11 ∷ [];
        output_message_types = 13 ∷ [];
      }
      ∷ [];
  task_id_to_index = (7, 0) ∷ [];
  default_session_timeout = 310;
  max_concurrent_sessions = 100;
}

abbrev session : ActiveSession
session = record {
  request_id = codes "r1";
  mgwcp_component_id = codes "60:5";
  task_id = 7;
  task_name = codes "lidar";
  input_message_types = 11 ∷ [];
  output_message_types = 13 ∷ [];
  assigned_mec_id = [];
  last_keepalive = 1000;
  created_at = 1000;
  vhc_dp_connected = false;
  mec_dp_connected = false;
  routing_rules_created = false;
}

abbrev one : SessionManager
one = (codes "r1", session) ∷ []

created : create_session [] (codes "r1") (codes "60:5") 7 (codes "lidar") config 1000 ≡ (one, true)
unfolding create_session get_task_config find insert
created = refl

counted : get_active_session_count one ≡ 1
unfolding get_active_session_count
counted = refl

listed : get_all_request_ids one ≡ codes "r1" ∷ []
unfolding get_all_request_ids
listed = refl

one-IsKeyed : IsKeyed one
unfolding find
one-IsKeyed = record { once = (refl, tt); own = (refl, tt) }

call-IsKeyed_example :
    IsKeyed (call one (create (codes "r2") (codes "60:6") 7 (codes "lidar") config 1500))
call-IsKeyed_example =
    call-IsKeyed one (create (codes "r2") (codes "60:6") 7 (codes "lidar") config 1500) one-IsKeyed

get_session-call_example :
    get_session (call one (assign (codes "r1") (codes "70:1"))) (codes "r1")
    ≡ effect (assign (codes "r1") (codes "70:1")) (codes "r1") (get_session one (codes "r1"))
get_session-call_example =
    get_session-call one (assign (codes "r1") (codes "70:1")) (codes "r1") one-IsKeyed
