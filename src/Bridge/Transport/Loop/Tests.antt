-- ===== src/Bridge/Transport/Loop/Tests.antt =====
-- Runs of the loop, and its theorems at concrete inputs.
use ros2_modular_edge_offloa.Common.{
  ℕ, zero, suc, Bool, true, false, ◌≡◌, refl, inl, none, some, arith, [], ◌∷◌, ◌++◌, All, codes,
}
use ros2_modular_edge_offloa.Bridge.Transport.{
  TransportHandler, Receive, received, handle_incoming_data, process_buffer, drain,
}
use ros2_modular_edge_offloa.Bridge.Transport.Loop.{
  Env, readable, idle, attempt_connection, attempts, run_internal, iterate, reconnect, exchange,
  perform_handshake,
}
use ros2_modular_edge_offloa.Bridge.Transport.Loop.Attempt.{dead_calls, run_internal_gives_up}
use ros2_modular_edge_offloa.Bridge.Transport.Loop.Invariant.{IsSound, run_internal-IsSound}
use ros2_modular_edge_offloa.Bridge.Transport.Loop.Starvation.{NotSend, run_internal-NotSend}
use ros2_modular_edge_offloa.Bridge.Transport.Tests.{table, handler}

abbrev off : TransportHandler
off = record handler { connected_status = false; tcp_up = false }

-- connect() works at the second retry.
abbrev at_second : ℕ → Bool
at_second zero = false
at_second (suc n) = true

abbrev dead : Env
dead = record {
  connects = λ i. false;
  poll = idle;
  receive = Receive.closed;
  dequeued = none;
  sent = true;
}

run_internal_gives_up_example :
    run_internal table off ((dead ∷ dead ∷ dead ∷ []) ++ dead ∷ [])
    ≡ (record off { failed_connect_cycles = 3 }, dead_calls 2 3, true)
run_internal_gives_up_example =
    run_internal_gives_up table off 2 (dead ∷ dead ∷ dead ∷ []) (dead ∷ [])
      (record { runs = refl; off = refl; down = refl; cycles = refl })
      (λ j. refl, (λ j. refl, (λ j. refl, tt))) refl

abbrev busy : Env
busy = record {
  connects = λ i. true;
  poll = readable;
  receive = received (codes "ab");
  dequeued = some (some (codes "out"));
  sent = true;
}

run_internal-IsSound_example : IsSound (run_internal table off (dead ∷ busy ∷ [])).0
unfolding run_internal iterate reconnect exchange attempt_connection attempts perform_handshake
    handle_incoming_data process_buffer drain
run_internal-IsSound_example =
    run_internal-IsSound table off (dead ∷ busy ∷ [])
      (record { linked = inl refl; below = omega arith }) refl

run_internal-NotSend_example : All NotSend (run_internal table off (busy ∷ busy ∷ [])).1
run_internal-NotSend_example = run_internal-NotSend table off (busy ∷ busy ∷ []) (refl, (refl, tt))
