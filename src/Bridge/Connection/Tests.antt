-- ===== src/Bridge/Connection/Tests.antt =====
-- A concrete JSON value, runs of a connection, and the theorems at concrete inputs.
use ros2_modular_edge_offloa.Common.{
  ℕ, arith, true, false, ◌≡◌, refl, none, some, List, [], ◌∷◌, codes, length, ◌≤◌,
}
use ros2_modular_edge_offloa.Common.Int.{pos}
use ros2_modular_edge_offloa.Common.Eq.{nat_eq, bytes_eq}
use ros2_modular_edge_offloa.Common.Maps.{find, insert}
use ros2_modular_edge_offloa.Common.Decimal.{stoi}
use ros2_modular_edge_offloa.Common.Split.{split_first}
use ros2_modular_edge_offloa.Bridge.Sample.{Sample, dp_info, sample_json}
use ros2_modular_edge_offloa.Bridge.Connection.{
  Connection, connecting, operational, accepted, PendingAck, dp_connection_confirmed,
  is_valid_component_id, transmit, transmit_ack, dp_connect_callback,
  component_registration_callback, set_state, send_dp_connection_confirmed, send_reliable_message,
  send_ack, mark, erase_all, resend, check_for_timeouts,
}
use ros2_modular_edge_offloa.Bridge.Connection.Handlers.{
  Env, returned, handle_received_message, validate_message_structure, handle_code, handle_dp_info,
  connect_data_plane,
}
use ros2_modular_edge_offloa.Bridge.Connection.Thread.{
  Round, nothing, bytes, connection_thread_func, loop_body, handle_incoming,
}
use ros2_modular_edge_offloa.Bridge.Connection.Pending.{IsSound}
use ros2_modular_edge_offloa.Bridge.Connection.Invariant.{connection_thread_func-IsSound}
use ros2_modular_edge_offloa.Bridge.Connection.Order.{audit, connection_thread_func-audit}
use ros2_modular_edge_offloa.Bridge.Connection.Retries.{resent}
use ros2_modular_edge_offloa.Bridge.Connection.Retries.Sequence.{
  check_all, check_all_bounded, check_all_exhausted,
}

abbrev env : Env
env = record {
  ack_delivery = accepted;
  delivery = accepted;
  dp_connects = λ id host port. some true;
  now = 100;
}

abbrev fresh : Connection Sample
fresh = record {
  connection_id = 1;
  transport_client_id = 4;
  client_ip = codes "10.0.0.7";
  component_id = [];
  state = connecting;
  dp_host = [];
  dp_port = pos 0;
  running = true;
  pending_acks = [];
  sequence_number = 1;
}

abbrev confirmation : PendingAck Sample
confirmation = record { message = dp_connection_confirmed; time_sent = 100; retry_count = 0 }

abbrev connected : Connection Sample
connected = record fresh {
  component_id = codes "60:5";
  state = operational;
  dp_host = codes "10.0.0.7";
  dp_port = pos 9000;
  pending_acks = (1, confirmation) ∷ [];
  sequence_number = 2;
}

first_message : handle_received_message fresh [] dp_info env ≡ record {
  connection = connected;
  sessions = [];
  effects =
      component_registration_callback (codes "60:5") 4
      ∷ transmit_ack (codes "60:5") 9
      ∷ dp_connect_callback (codes "60:5") (codes "10.0.0.7") (pos 9000) (some true)
      ∷ transmit dp_connection_confirmed 1
      ∷ [];
  status = returned;
}
unfolding handle_received_message validate_message_structure is_valid_component_id split_first stoi
    handle_code handle_dp_info connect_data_plane set_state send_dp_connection_confirmed
    send_reliable_message send_ack insert
first_message = refl

abbrev rounds : List Round
rounds =
    record {
      stopped = false;
      client_connected = true;
      incoming = bytes (codes "m");
      env = env;
      checked_at = 200;
    }
    ∷ record {
      stopped = false;
      client_connected = true;
      incoming = nothing;
      env = env;
      checked_at = 6000000000;
    }
    ∷ []

connected-IsSound : IsSound connected
unfolding find is_valid_component_id split_first stoi
connected-IsSound = record {
  distinct = (refl, tt);
  capped = (omega arith, tt);
  identified = λ _. refl;
  settled = λ _. cc;
}

connection_thread_func-IsSound_example :
    IsSound (connection_thread_func connected [] rounds).connection
connection_thread_func-IsSound_example =
    connection_thread_func-IsSound connected [] rounds connected-IsSound

connection_thread_func-audit_example :
    audit false (connection_thread_func fresh [] rounds).effects ≡ some true
unfolding connection_thread_func loop_body handle_incoming handle_received_message
    validate_message_structure is_valid_component_id split_first stoi handle_code handle_dp_info
    connect_data_plane set_state send_dp_connection_confirmed send_reliable_message send_ack insert
    check_for_timeouts mark erase_all resend find
connection_thread_func-audit_example = connection_thread_func-audit fresh [] rounds

check_all_bounded_example :
    length (resent 1 (check_all connected (6000000000 ∷ 12000000000 ∷ [])).1) ≤ 3
check_all_bounded_example =
    check_all_bounded connected (6000000000 ∷ 12000000000 ∷ []) 1 connected-IsSound

abbrev late : List ℕ
late = 6000000000 ∷ 12000000000 ∷ 18000000000 ∷ 24000000000 ∷ []

check_all_exhausted_example :
    (find 1 (check_all connected late).0.pending_acks ≡ none)
    × (resent 1 (check_all connected late).1
        ≡ dp_connection_confirmed ∷ dp_connection_confirmed ∷ dp_connection_confirmed ∷ [])
unfolding find
check_all_exhausted_example =
    check_all_exhausted connected late 1 confirmation connected-IsSound refl refl refl
      (omega arith, (omega arith, (omega arith, (omega arith, tt))))
