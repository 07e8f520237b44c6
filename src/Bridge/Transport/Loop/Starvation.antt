-- ===== src/Bridge/Transport/Loop/Starvation.antt =====
-- A round that read from the socket does not look at the queue of outgoing messages.
use ros2_modular_edge_offloa.Common.{
  ℕ, zero, suc, Bool, true, false, ◌≡◌, inl, inr, arith, List, [], ◌∷◌, ◌++◌, All, All-append, map,
  Bool-cases, Bytes, drop, take, length,
}
use ros2_modular_edge_offloa.Bridge.Routing.{RoutingTable, get_destinations}
use ros2_modular_edge_offloa.Bridge.Transport.{
  TransportHandler, Action, enqueue, send, disconnect, notify_connected, notify_disconnected,
  tcp_disconnected, permanent_failure, Receive, received, closed, failed, route, drain,
  process_buffer, handle_incoming_data,
}
use ros2_modular_edge_offloa.Bridge.Transport.Incoming.{
  short, desync, partial, complete, round, drain_short, drain_desync, drain_partial, drain_complete,
}
use ros2_modular_edge_offloa.Bridge.Transport.Loop.{
  Env, readable, again, attempts, attempt_connection, exchange, reconnect, iterate, run_internal,
  finish,
}
use ros2_modular_edge_offloa.Bridge.Transport.Loop.Invariant.{iterate_on, iterate_off}

abbrev pub NotSend : Action → Type 0
NotSend (send m) = ⊥
NotSend _ = Unit

route-NotSend : (qs : List ℕ) (m : Bytes) → All NotSend (map (λ q. enqueue q m) qs)
route-NotSend [] m = tt
route-NotSend (q ∷ qs) m = (tt, route-NotSend qs m)

drain-NotSend : (t : RoutingTable) (f : ℕ) (b : Bytes) → All NotSend (drain t f b).1
drain-NotSend t zero b = unfold drain in tt
drain-NotSend t (suc f) b = elim (round t b) [
  | short s ↦ rw (drain_short t f b s) tt
  | desync l e ↦ rw (drain_desync t f b l e) (tt, tt)
  | partial i e l p ↦ rw (drain_partial t f b i e l p) tt
  | complete i e l p ↦
      let msg = take i.total_message_length b in
      rw (drain_complete t f b i e l p) (
        All-append NotSend (route t i msg) (drain t f (drop i.total_message_length b)).1
          (unfold route in route-NotSend (get_destinations t i.routing_key) msg)
          (drain-NotSend t f (drop i.total_message_length b)))
]

process_buffer-NotSend :
    (t : RoutingTable) (sd : Bool) (b : Bytes) → All NotSend (process_buffer t sd b).1
unfolding process_buffer
process_buffer-NotSend t true b = tt
process_buffer-NotSend t false b = drain-NotSend t (suc (length b)) b

incoming-NotSend :
    (t : RoutingTable) (h : TransportHandler) (r : Receive)
    → All NotSend (handle_incoming_data t h r).1
unfolding handle_incoming_data
incoming-NotSend t h (received b) =
    ground (arith, process_buffer-NotSend t h.shutdown_requested (h.receive_buffer ++ b))
incoming-NotSend t h closed = ground arith
incoming-NotSend t h failed = ground arith

attempts-NotSend :
    (h : TransportHandler) (c : ℕ → Bool) (left i : ℕ) → All NotSend (attempts h c left i).1
unfolding attempts
attempts-NotSend h c zero i = tt
attempts-NotSend h c (suc left) i = ground (arith, attempts-NotSend h c left (suc i))

attempt-NotSend : (h : TransportHandler) (c : ℕ → Bool) → All NotSend (attempt_connection h c).1
unfolding attempt_connection
attempt-NotSend h c = attempts-NotSend h c h.connect_max_retries 0

module _ (t : RoutingTable) (h : TransportHandler) (e : Env) (p : e.poll ≡ readable) where
  exchange_up :
      h.tcp_up ≡ true
      → exchange t h e
        ≡ ((handle_incoming_data t h e.receive).0, (handle_incoming_data t h e.receive).1, again)
  unfolding exchange
  exchange_up up = ground arith

  exchange_down :
      h.tcp_up ≡ false
      → exchange t h e ≡ (
        record h { connected_status = false },
        notify_disconnected tcp_disconnected ∷ disconnect ∷ [],
        again,
      )
  unfolding exchange
  exchange_down down = ground arith

  exchange-NotSend : All NotSend (exchange t h e).1
  exchange-NotSend = elim (Bool-cases h.tcp_up) [
    | inl up ↦ rw (exchange_up up) (incoming-NotSend t h e.receive)
    | inr down ↦ rw (exchange_down down) (tt, (tt, tt))
  ]

reconnect-NotSend :
    (t : RoutingTable) (h : TransportHandler) (e : Env)
    → e.poll ≡ readable
    → All NotSend (reconnect t h e).1
unfolding reconnect
reconnect-NotSend t h e p =
    let tried = (attempt_connection h e.connects).1 in
    let up : TransportHandler = record h {
      connected_status = true;
      tcp_up = true;
      failed_connect_cycles = 0;
    } in
    let calls = attempt-NotSend h e.connects in
    let linked =
      All-append NotSend tried (notify_connected ∷ (exchange t up e).1) calls
        (tt, exchange-NotSend t up e p) in
    let given_up =
      All-append NotSend tried (notify_disconnected permanent_failure ∷ []) calls (tt, tt) in
    ground (arith, calls, linked, given_up)

iterate-NotSend :
    (t : RoutingTable) (h : TransportHandler) (e : Env)
    → e.poll ≡ readable
    → All NotSend (iterate t h e).1
iterate-NotSend t h e p = elim (Bool-cases h.connected_status) [
  | inl on ↦ rw (iterate_on t h e on) (exchange-NotSend t h e p)
  | inr off ↦ rw (iterate_off t h e off) (reconnect-NotSend t h e p)
]

-- The socket has something to read in every round.
abbrev pub IsBusy : List Env → Type 0
IsBusy = All (λ e. e.poll ≡ readable)

finish-NotSend : (h : TransportHandler) → All NotSend (finish h).1
unfolding finish
finish-NotSend h = ground arith

-- As long as each round finds something to read, no message of the queue is ever sent, however many rounds
-- there are and whatever the queue holds.
pub run_internal-NotSend :
    (t : RoutingTable) (h : TransportHandler) (es : List Env)
    → IsBusy es
    → All NotSend (run_internal t h es).1
unfolding run_internal
run_internal-NotSend t h [] busy = ground (arith, finish-NotSend h)
run_internal-NotSend t h (e ∷ es) (p, busy) =
    let r = iterate t h e in
    let here = iterate-NotSend t h e p in
    let later = run_internal-NotSend t r.0 es busy in
    let both_parts = All-append NotSend r.1 (run_internal t r.0 es).1 here later in
    let ended = All-append NotSend r.1 (finish r.0).1 here (finish-NotSend r.0) in
    ground (arith, finish-NotSend h, both_parts, ended)
