-- ===== src/Bridge/Transport/Handler.antt =====
-- handle_incoming_data and handle_outgoing_messages as a whole.
use ros2_modular_edge_offloa.Common.{
  ℕ, zero, suc, ◌+◌, ◌<◌, ◌≤◌, Bool, true, false, ◌≡◌, refl, ◌⊎◌, inl, inr, some, arith, List, [],
  ◌∷◌, ◌++◌, append_assoc, Bytes, All, length, drop, length-append, length-drop,
}
use ros2_modular_edge_offloa.Wire.Parse.{ParsedHeaderInfo, parse_message_header}
use ros2_modular_edge_offloa.Bridge.Routing.{RoutingTable}
use ros2_modular_edge_offloa.Bridge.Transport.{
  TransportHandler, Action, Receive, received, drain, process_buffer, handle_incoming_data,
  notify_critical_error, buffer_overflow,
}
use ros2_modular_edge_offloa.Bridge.Transport.Incoming.{
  short, desync, partial, complete, round, drain_short, drain_desync, drain_partial, drain_complete,
  drain_fuel, length-drain, drain_append, IsDelivery, total_bounds, both,
}

-- No complete message is in the bytes.
abbrev pub IsSettled : Bytes → Type 0
IsSettled b =
    (length b < 11)
    ⊎ ((h : ParsedHeaderInfo) × (parse_message_header b ≡ some h)
        × (length b < h.total_message_length))

drain-IsSettled : (t : RoutingTable) (f : ℕ) (b : Bytes) → length b < f → IsSettled (drain t f b).0
drain-IsSettled t zero b h = absurd (omega arith)
drain-IsSettled t (suc f) b h = elim (round t b) [
  | short s ↦ rw (drain_short t f b s) (inl s)
  | desync l e ↦ rw (drain_desync t f b l e) (inl (omega arith))
  | partial i e l p ↦ rw (drain_partial t f b i e l p) (inr (i, e, p))
  | complete i e l p ↦ rw (drain_complete t f b i e l p) (
      drain-IsSettled t f (drop i.total_message_length b)
        (omega (arith, length-drop i.total_message_length b)))
]

-- If the handler is not told to stop, the loop over the buffer ends by its own tests and not for want of rounds:
-- whatever bytes were received, no complete message stays behind, and the buffer is never longer than it was.
pub process_buffer-IsSettled :
    (t : RoutingTable) (b : Bytes)
    → IsSettled (process_buffer t false b).0 × (length (process_buffer t false b).0 ≤ length b)
unfolding process_buffer
process_buffer-IsSettled t b =
    (drain-IsSettled t (suc (length b)) b (omega arith), length-drain t (suc (length b)) b)

length-process_buffer :
    (t : RoutingTable) (sd : Bool) (b : Bytes) → length (process_buffer t sd b).0 ≤ length b
unfolding process_buffer
length-process_buffer t true b = omega arith
length-process_buffer t false b = length-drain t (suc (length b)) b

pub process_buffer-append :
    (t : RoutingTable) (a b : Bytes)
    → All IsDelivery (process_buffer t false a).1
    → process_buffer t false (a ++ b)
      ≡ both
          (process_buffer t false ((process_buffer t false a).0 ++ b))
          (process_buffer t false a).1
unfolding process_buffer
process_buffer-append t a b clean =
    let x = drain t (suc (length a)) a in
    let same =
      drain_fuel t (suc (length (x.0 ++ b))) (suc (length (a ++ b))) (x.0 ++ b) (omega arith) (
        omega (arith, length-append x.0 b, length-append a b, length-drain t (suc (length a)) a)) in
    rw same (
      drain_append t (suc (length a)) (suc (length (a ++ b))) a b (omega arith)
        (omega (arith, length-append a b)) clean)

-- The handler is connected, runs, and has room for `n` more bytes.
pub record IsReady (h : TransportHandler) (n : ℕ) : Type 0 where
  pub up : h.tcp_up ≡ true
  pub runs : h.shutdown_requested ≡ false
  pub room : length h.receive_buffer + n ≤ h.max_receive_buffer_size

pub receive_step :
    (t : RoutingTable) (h : TransportHandler) (bytes : Bytes)
    → h.tcp_up ≡ true
    → h.shutdown_requested ≡ false
    → length h.receive_buffer < h.max_receive_buffer_size
    → handle_incoming_data t h (received bytes) ≡ (
      record h { receive_buffer = (process_buffer t false (h.receive_buffer ++ bytes)).0 },
      (process_buffer t false (h.receive_buffer ++ bytes)).1,
    )
unfolding handle_incoming_data
receive_step t h bytes up runs room = ground arith

-- Two reads, neither empty, have the effect of one read of all their bytes, on the state and on the calls, if
-- the handler is connected, not told to stop, has room for them all, and met no bad header in the first.
pub handle_incoming_data-append :
    (t : RoutingTable) (h : TransportHandler) (a b : Bytes)
    → IsReady h (length a + length b)
    → 0 < length a
    → 0 < length b
    → All IsDelivery (handle_incoming_data t h (received a)).1
    → let first = handle_incoming_data t h (received a) in
      let second = handle_incoming_data t first.0 (received b) in
      handle_incoming_data t h (received (a ++ b)) ≡ (second.0, first.1 ++ second.1)
handle_incoming_data-append t h a b ready ha hb clean =
    let held = h.receive_buffer in
    let x = process_buffer t false (held ++ a) in
    let h' : TransportHandler = record h { receive_buffer = x.0 } in
    let e1 = receive_step t h a ready.up ready.runs (omega arith) in
    let shrinks = length-process_buffer t false (held ++ a) in
    let e2 =
      receive_step t h' b ready.up ready.runs (omega (arith, shrinks, length-append held a)) in
    let e3 = receive_step t h (a ++ b) ready.up ready.runs (omega arith) in
    let clean' : All IsDelivery x.1 = rw e1 at clean in
    rw (e1, e2, e3, ← append_assoc held a b, process_buffer-append t (held ++ a) b clean') refl

-- A sequence of calls, for the results of the reads one after the other.
unfoldable pub incoming :
    RoutingTable → TransportHandler → List Receive → TransportHandler × List Action
incoming t h [] = (h, [])
incoming t h (r ∷ rs) =
    let first = handle_incoming_data t h r in
    let later = incoming t first.0 rs in (later.0, first.1 ++ later.1)

-- `n` reports of a full buffer.
pub overflows : List Receive → List Action
overflows [] = []
overflows (r ∷ rs) = notify_critical_error buffer_overflow ∷ overflows rs

incoming_full :
    (t : RoutingTable) (h : TransportHandler) (rs : List Receive)
    → h.tcp_up ≡ true
    → h.max_receive_buffer_size ≤ length h.receive_buffer
    → incoming t h rs ≡ (h, overflows rs)
unfolding incoming overflows handle_incoming_data
incoming_full t h [] up full = refl
incoming_full t h (r ∷ rs) up full = ground (arith, incoming_full t h rs)

-- A message longer than the buffer stalls the handler: if it is connected and not told to stop, and a read
-- fills its buffer exactly with the start of such a message, then each later call reports a full buffer and
-- does nothing else, whatever the peer does.
pub incoming_stall :
    (t : RoutingTable) (h : TransportHandler) (bytes : Bytes) (i : ParsedHeaderInfo)
    (rs : List Receive)
    → IsReady h (length bytes)
    → 0 < length bytes
    → length h.receive_buffer + length bytes ≡ h.max_receive_buffer_size
    → parse_message_header (h.receive_buffer ++ bytes) ≡ some i
    → h.max_receive_buffer_size < i.total_message_length
    → incoming t h (received bytes ∷ rs)
      ≡ (record h { receive_buffer = h.receive_buffer ++ bytes }, overflows rs)
unfolding incoming process_buffer
incoming_stall t h bytes i rs ready more fills e long =
    let all = h.receive_buffer ++ bytes in
    let l = length-append h.receive_buffer bytes in
    let waits = drain_partial t (length all) all i e (total_bounds all i e).1 (omega arith) in
    let first = receive_step t h bytes ready.up ready.runs (omega arith) in
    let h' : TransportHandler = record h { receive_buffer = all } in
    rw (first, waits, incoming_full t h' rs ready.up (omega arith)) refl
