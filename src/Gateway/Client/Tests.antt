-- ===== src/Gateway/Client/Tests.antt =====
-- Runs of the client, and its theorem at a concrete input.
use ros2_modular_edge_offloa.Common.{true, ◌≡◌, refl, none, some, List, [], ◌∷◌, codes}
use ros2_modular_edge_offloa.Common.Int.{pos}
use ros2_modular_edge_offloa.Common.Eq.{nat_eq}
use ros2_modular_edge_offloa.Common.Maps.{insert}
use ros2_modular_edge_offloa.Bridge.Sample.{Sample, sample_json}
use ros2_modular_edge_offloa.Gateway.Client.{
  Client, dp_info, new_client, start, send_dp_info, send_reliable_message, transmit, sent,
  queue_full, check_for_timeouts, messages_to_resend, resend_all,
}
use ros2_modular_edge_offloa.Gateway.Client.Messages.{Round, client_thread_func}
use ros2_modular_edge_offloa.Gateway.Client.Tracked.{waiting, client_thread_func-waiting}

abbrev tracking : Client
tracking = record {
  running = true;
  sequence_number = 2;
  pending_acks =
      (1, record { message = dp_info (codes "60:5") (codes "0.0.0.0") (pos 9000); time_sent = 100 })
      ∷ [];
}

sends :
    send_dp_info {Value = Sample}
      (start new_client true).0
      (codes "60:5")
      (codes "0.0.0.0")
      (pos 9000)
      true
      sent
      100
    ≡ (tracking, transmit (dp_info (codes "60:5") (codes "0.0.0.0") (pos 9000)) 1 ∷ [])
unfolding send_dp_info send_reliable_message start new_client insert
sends = refl

-- A message that is sent again and not taken keeps its time.
refused :
    check_for_timeouts {Value = Sample} tracking 6000000000 (λ k. queue_full) 6000000001
    ≡ (tracking, transmit (dp_info (codes "60:5") (codes "0.0.0.0") (pos 9000)) 1 ∷ [])
unfolding check_for_timeouts messages_to_resend resend_all
refused = refl

abbrev silent_rounds : List Round
silent_rounds =
    record { incoming = none; now = 6000000000; result = λ k. sent; resent_at = 6000000001 }
    ∷ record {
      incoming = some (codes "m");
      now = 12000000000;
      result = λ k. sent;
      resent_at = 12000000001;
    }
    ∷ []

client_thread_func-waiting_example :
    waiting (client_thread_func {Value = Sample} tracking silent_rounds).client 1
    ≡ waiting tracking 1
client_thread_func-waiting_example =
    client_thread_func-waiting Sample tracking silent_rounds 1 (refl, (refl, tt))
