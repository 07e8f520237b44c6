-- ===== src/Bridge/Transport/Loop/Invariant.antt =====
-- What holds of the handler between two rounds of its loop.
use ros2_modular_edge_offloa.Common.{
  ◌<◌, Bool, true, false, ◌≡◌, refl, ◌⊎◌, inl, inr, arith, List, [], ◌∷◌, none, some, Bool-cases,
}
use ros2_modular_edge_offloa.Bridge.Routing.{RoutingTable}
use ros2_modular_edge_offloa.Bridge.Transport.{
  TransportHandler, Receive, received, closed, failed, Dequeued, handle_incoming_data,
  handle_outgoing_messages,
}
use ros2_modular_edge_offloa.Bridge.Transport.Loop.{
  Env, Poll, readable, idle, broken, again, exchange, reconnect, iterate, attempt_connection,
  run_internal, run_internal,
}

-- The status says connected only while the TCP client is, and then no cycle counts as failed; the failed
-- cycles are fewer than the limit.
pub record IsSound (h : TransportHandler) : Type 0 where
  pub linked : (h.connected_status ≡ false) ⊎ ((h.tcp_up ≡ true) × (h.failed_connect_cycles ≡ 0))
  pub below : h.failed_connect_cycles < h.max_connect_cycles

handle_incoming_data-IsSound :
    (t : RoutingTable) (h : TransportHandler) (r : Receive)
    → IsSound h
    → IsSound (handle_incoming_data t h r).0
unfolding handle_incoming_data
handle_incoming_data-IsSound t h (received b) v = ground arith
handle_incoming_data-IsSound t h closed v = ground arith
handle_incoming_data-IsSound t h failed v = ground arith

handle_outgoing_messages-IsSound :
    (h : TransportHandler) (d : Dequeued) (sent : Bool)
    → IsSound h
    → IsSound (handle_outgoing_messages h d sent).0
unfolding handle_outgoing_messages
handle_outgoing_messages-IsSound h none sent v = v
handle_outgoing_messages-IsSound h (some none) sent v = ground arith
handle_outgoing_messages-IsSound h (some (some m)) sent v = ground arith

exchange-IsSound :
    (t : RoutingTable) (h : TransportHandler) (e : Env) (p : Poll)
    → e.poll ≡ p
    → IsSound h
    → IsSound (exchange t h e).0
unfolding exchange
exchange-IsSound t h e readable q v = ground (
  arith,
  handle_incoming_data-IsSound t h e.receive v,
  handle_outgoing_messages-IsSound h e.dequeued e.sent v,
)
exchange-IsSound t h e idle q v =
    ground (arith, handle_outgoing_messages-IsSound h e.dequeued e.sent v)
exchange-IsSound t h e broken q v = ground arith

reconnect-IsSound :
    (t : RoutingTable) (h : TransportHandler) (e : Env)
    → IsSound h
    → h.connected_status ≡ false
    → (reconnect t h e).2 ≡ again
    → IsSound (reconnect t h e).0
unfolding reconnect
reconnect-IsSound t h e v off stays = elim (Bool-cases (attempt_connection h e.connects).0) [
  | inl ok ↦ rw ok (
      exchange-IsSound t
        (record h { connected_status = true; tcp_up = true; failed_connect_cycles = 0 }) e e.poll
        refl (record { linked = inr (refl, refl); below = omega (arith, v.below) }))
  | inr no_link ↦ ground arith
]

module _ (t : RoutingTable) (h : TransportHandler) (e : Env) where
  pub iterate_on : h.connected_status ≡ true → iterate t h e ≡ exchange t h e
  unfolding iterate
  iterate_on on = ground arith

  pub iterate_off : h.connected_status ≡ false → iterate t h e ≡ reconnect t h e
  unfolding iterate
  iterate_off off = ground arith

iterate-IsSound :
    (t : RoutingTable) (h : TransportHandler) (e : Env)
    → IsSound h
    → (iterate t h e).2 ≡ again
    → IsSound (iterate t h e).0
iterate-IsSound t h e v stays = elim (Bool-cases h.connected_status) [
  | inl on ↦ rw (iterate_on t h e on) (exchange-IsSound t h e e.poll refl v)
  | inr off ↦
      rw (iterate_off t h e off)
        (reconnect-IsSound t h e v off (rw (iterate_off t h e off) at stays))
]

-- However long the thread runs and whatever the network does, a handler that was sound stays so as long as the
-- thread has not ended: it says that it is connected only while the TCP client is and no cycle counts as
-- failed, and the failed cycles are below the limit.
pub run_internal-IsSound :
    (t : RoutingTable) (h : TransportHandler) (es : List Env)
    → IsSound h
    → (run_internal t h es).2 ≡ false
    → IsSound (run_internal t h es).0
unfolding run_internal
run_internal-IsSound t h [] v stays = ground arith
run_internal-IsSound t h (e ∷ es) v stays =
    ground (arith, iterate-IsSound t h e v, run_internal-IsSound t (iterate t h e).0 es)
