-- ===== src/Bridge/Transport/Loop.antt =====
-- run_internal and attempt_connection: the loop of the handler's thread. The sleeps leave no trace. The
-- handshake is none and always succeeds.
pub mod Attempt
pub mod Invariant
pub mod Starvation
mod Tests
use ros2_modular_edge_offloa.Common.{
  ℕ, zero, suc, ◌+◌, Bool, true, false, not, ◌&&◌, List, [], ◌∷◌, ◌++◌, leb, if◌then◌else◌,
}
use ros2_modular_edge_offloa.Bridge.Routing.{RoutingTable}
use ros2_modular_edge_offloa.Bridge.Transport.{
  TransportHandler, Action, connect, disconnect, notify_connected, notify_disconnected,
  permanent_failure, tcp_disconnected, Receive, Dequeued, handle_incoming_data,
  handle_outgoing_messages,
}

-- perform_handshake
pub perform_handshake : TransportHandler → Bool
perform_handshake h = true

-- The retries that are left, the number of the next one, and what connect() returns at each. The flag is read
-- before each retry.
attempts : TransportHandler → (ℕ → Bool) → ℕ → ℕ → Bool × List Action
unfolding perform_handshake
attempts h connects zero i = (false, [])
attempts h connects (suc left) i =
    if h.shutdown_requested then (false, []) else (elim (connects i) [
      | true ↦
          if perform_handshake h then (true, connect ∷ []) else (false, connect ∷ disconnect ∷ [])
      | false ↦ let rest = attempts h connects left (suc i) in (rest.0, connect ∷ rest.1)
    ])

unfoldable pub attempt_connection : TransportHandler → (ℕ → Bool) → Bool × List Action
unfolding attempts
attempt_connection h connects = attempts h connects h.connect_max_retries 0

-- What select() of data_available(0) says: readable, nothing, or a bad descriptor, at which the client
-- disconnects.
pub data Poll : Type 0 where
  readable idle broken : Poll

-- What the world does in one round of the loop.
pub record Env : Type 0 where
  pub connects : ℕ → Bool
  pub poll : Poll
  pub receive : Receive
  pub dequeued : Dequeued
  pub sent : Bool

pub data Next : Type 0 where
  again leave : Next

abbrev pub Outcome : Type 0
Outcome = TransportHandler × List Action × Next

abbrev after_poll : TransportHandler → Poll → TransportHandler
after_poll h readable = h
after_poll h idle = h
after_poll h broken = record h { tcp_up = false }

abbrev is_readable : TransportHandler → Poll → Bool
is_readable h readable = h.tcp_up
is_readable h idle = false
is_readable h broken = false

-- The part of a round for a connected handler. `work_done || handle_outgoing_messages()` does not call
-- the function if work was done.
pub exchange : RoutingTable → TransportHandler → Env → Outcome
exchange t h e =
    let polled = after_poll h e.poll in
    if is_readable h e.poll
    then (let r = handle_incoming_data t h e.receive in (r.0, r.1, again))
    else if not polled.tcp_up
    then (
      record polled { connected_status = false },
      notify_disconnected tcp_disconnected ∷ disconnect ∷ [],
      again,
    )
    else (let r = handle_outgoing_messages polled e.dequeued e.sent in (r.0, r.2, again))

-- The part for a handler that is not connected.
pub reconnect : RoutingTable → TransportHandler → Env → Outcome
reconnect t h e =
    let tried = attempt_connection h e.connects in
    let up : TransportHandler = record h {
      connected_status = true;
      tcp_up = true;
      failed_connect_cycles = 0;
    } in
    let down : TransportHandler = record h {
      failed_connect_cycles = h.failed_connect_cycles + 1;
    } in
    if tried.0
    then (let r = exchange t up e in (r.0, tried.1 ++ notify_connected ∷ r.1, r.2))
    else if leb h.max_connect_cycles (h.failed_connect_cycles + 1)
    then (down, tried.1 ++ notify_disconnected permanent_failure ∷ [], leave)
    else (down, tried.1, again)

-- One round of the loop, with the flag down.
unfoldable pub iterate : RoutingTable → TransportHandler → Env → Outcome
iterate t h e = if not h.connected_status then reconnect t h e else exchange t h e

-- The end of the thread.
unfoldable pub finish : TransportHandler → TransportHandler × List Action
finish h = (
  record h { connected_status = false; tcp_up = false },
  if h.tcp_up then disconnect ∷ [] else [],
)

-- The last part says whether the thread has ended; if not, the list of rounds has.
unfoldable pub run_internal :
    RoutingTable → TransportHandler → List Env → TransportHandler × List Action × Bool
unfolding finish
run_internal t h [] =
    if h.shutdown_requested then ((finish h).0, (finish h).1, true) else (h, [], false)
run_internal t h (e ∷ es) =
    if h.shutdown_requested
    then ((finish h).0, (finish h).1, true)
    else (let r = iterate t h e in
        elim r.2 [
          | leave ↦ ((finish r.0).0, r.1 ++ (finish r.0).1, true)
          | again ↦ let rest = run_internal t r.0 es in (rest.0, r.1 ++ rest.1, rest.2)
        ])

-- The reset of the watermark when the thread starts.
unfoldable pub start_thread : TransportHandler → TransportHandler
start_thread h = record h {
  shutdown_requested = false;
  connected_status = false;
  receive_buffer = [];
}

-- stop(): the flag, and the disconnect that unblocks the thread.
unfoldable pub stop : TransportHandler → TransportHandler × List Action
stop h = (
  record h { shutdown_requested = true; connected_status = false; tcp_up = false },
  if h.tcp_up then disconnect ∷ [] else [],
)
