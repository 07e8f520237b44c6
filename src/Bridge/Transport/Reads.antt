-- ===== src/Bridge/Transport/Reads.antt =====
-- A run of reads, and what the handler of another gateway then sends.
use ros2_modular_edge_offloa.Common.{
  ◌+◌, ◌<◌, ◌≤◌, ℕ, true, false, ◌≡◌, refl, ◌∙◌, ap, sym, some, arith, List, [], ◌∷◌, ◌++◌,
  append_assoc, append-nil, map, Bytes, All, All-append, length, take, ◌==◌, if◌then◌else◌,
}
use ros2_modular_edge_offloa.Bridge.Routing.{RoutingTable, get_destinations}
use ros2_modular_edge_offloa.Bridge.Transport.{
  TransportHandler, Action, enqueue, send, connect, disconnect, notify_connected,
  notify_disconnected, notify_critical_error, received, process_buffer, handle_incoming_data,
  handle_outgoing_messages,
}
use ros2_modular_edge_offloa.Bridge.Transport.Incoming.{IsDelivery, both}
use ros2_modular_edge_offloa.Bridge.Transport.Framing.{
  OutMessage, frame, frames, key_of, deliveries, Fits, IsSafeCut, process_buffer-frames,
}
use ros2_modular_edge_offloa.Bridge.Transport.Handler.{
  incoming, process_buffer-append, receive_step,
}

abbrev pub joined : List Bytes → Bytes
joined [] = []
joined (part ∷ parts) = part ++ joined parts

-- Complete frames and a start of one that does not end inside its topic name.
pub record SafeEnd (bs : Bytes) : Type 0 where
  pub before : List OutMessage
  pub last : OutMessage
  pub cut : ℕ
  pub same : bs ≡ frames before ++ take cut (frame last)
  pub fits : All Fits before
  pub fit : Fits last
  pub safe : IsSafeCut last cut

-- The reads `cs` of the handler behind the bytes `a`: each takes at least one byte and no more than there is room
-- for, and none stops inside a topic name.
unfoldable pub Arrives : RoutingTable → TransportHandler → Bytes → List Bytes → Type 0
Arrives t h a [] = Unit
Arrives t h a (c ∷ cs) =
    (0 < length c)
    × (length h.receive_buffer + length c ≤ h.max_receive_buffer_size)
    × SafeEnd (a ++ c)
    × Arrives t (handle_incoming_data t h (received c)).0 (a ++ c) cs

deliveries-All : (t : RoutingTable) (ms : List OutMessage) → All IsDelivery (deliveries t ms)
deliveries-All t [] = tt
deliveries-All t (m ∷ ms) =
    All-append IsDelivery (map (λ q. enqueue q (frame m)) (get_destinations t (key_of m)))
      (deliveries t ms) (enqueues (get_destinations t (key_of m))) (deliveries-All t ms)
  where
    enqueues : (qs : List ℕ) → All IsDelivery (map (λ q. enqueue q (frame m)) qs)
    enqueues [] = tt
    enqueues (q ∷ qs) = (tt, enqueues qs)

safe-All :
    (t : RoutingTable) (bs : Bytes) → SafeEnd bs → All IsDelivery (process_buffer t false bs).1
safe-All t bs e =
    rw (e.same, process_buffer-frames t e.before e.last e.cut e.fits e.fit e.safe)
      (deliveries-All t e.before)

-- The calls of all the reads are those that one look at all the bytes makes.
pub incoming_reads :
    (t : RoutingTable) (h : TransportHandler) (a : Bytes) (cs : List Bytes)
    → h.tcp_up ≡ true
    → h.shutdown_requested ≡ false
    → h.receive_buffer ≡ (process_buffer t false a).0
    → All IsDelivery (process_buffer t false a).1
    → Arrives t h a cs
    → (process_buffer t false a).1 ++ (incoming t h (map received cs)).1
      ≡ (process_buffer t false (a ++ joined cs)).1
unfolding incoming Arrives
incoming_reads t h a [] up runs held clean arrives =
    append-nil (process_buffer t false a).1
    ∙ ap (λ bs. (process_buffer t false bs).1) (sym (append-nil a))
incoming_reads t h a (c ∷ cs) up runs held clean (some_bytes, room, safe, later) =
    let p = process_buffer t false a in
    let step = receive_step t h c up runs (omega arith) in
    let h' : TransportHandler = record h {
      receive_buffer = (process_buffer t false (h.receive_buffer ++ c)).0;
    } in
    let whole : process_buffer t false (a ++ c)
        ≡ both (process_buffer t false (h.receive_buffer ++ c)) p.1 =
      rw held (process_buffer-append t a c clean) in
    let rest =
      incoming_reads t h' (a ++ c) cs up runs (ap (λ x. x.0) (sym whole)) (safe-All t (a ++ c) safe)
        (rw step at later) in
    let acts = (process_buffer t false (h.receive_buffer ++ c)).1 in
    let later_acts = (incoming t h' (map received cs)).1 in
    let first : (incoming t h (map received (c ∷ cs))).1 ≡ acts ++ later_acts =
      ap (λ x. x.1 ++ (incoming t x.0 (map received cs)).1) step in
    ap (λ x. p.1 ++ x) first
    ∙ sym (append_assoc p.1 acts later_acts)
    ∙ ap (λ x. x ++ later_acts) (sym (ap (λ x. x.1) whole))
    ∙ rest
    ∙ ap (λ bs. (process_buffer t false bs).1) (append_assoc a c (joined cs))

-- The bytes that are sent, in order.
abbrev sends : List Action → Bytes
sends [] = []
sends (send msg ∷ acts) = msg ++ sends acts
sends (enqueue q msg ∷ acts) = sends acts
sends (connect ∷ acts) = sends acts
sends (disconnect ∷ acts) = sends acts
sends (notify_connected ∷ acts) = sends acts
sends (notify_disconnected r ∷ acts) = sends acts
sends (notify_critical_error r ∷ acts) = sends acts

-- The entries of a queue, in order.
unfoldable pub queued : ℕ → List Action → List Bytes
queued q [] = []
queued q (enqueue queue msg ∷ acts) =
    let rest = queued q acts in if queue == q then msg ∷ rest else rest
queued q (send msg ∷ acts) = queued q acts
queued q (connect ∷ acts) = queued q acts
queued q (disconnect ∷ acts) = queued q acts
queued q (notify_connected ∷ acts) = queued q acts
queued q (notify_disconnected r ∷ acts) = queued q acts
queued q (notify_critical_error r ∷ acts) = queued q acts

-- What a handler sends if it is called once for each entry of its queue and send_data takes everything.
pub outgoing : TransportHandler → List Bytes → Bytes
outgoing h [] = []
outgoing h (msg ∷ msgs) =
    let r = handle_outgoing_messages h (some (some msg)) true in sends r.2 ++ outgoing r.0 msgs

sent_entry :
    (h : TransportHandler) (msg : Bytes)
    → h.tcp_up ≡ true
    → ((handle_outgoing_messages h (some (some msg)) true).0 ≡ h)
      × (sends (handle_outgoing_messages h (some (some msg)) true).2 ≡ msg)
unfolding handle_outgoing_messages
sent_entry h [] up = ground (arith, up)
sent_entry h (b ∷ bs) up = ground (arith, up, append-nil (b ∷ bs))

-- A connected handler sends each entry once, in order.
pub outgoing_lem :
    (h : TransportHandler) (msgs : List Bytes) → h.tcp_up ≡ true → outgoing h msgs ≡ joined msgs
unfolding outgoing
outgoing_lem h [] up = refl
outgoing_lem h (msg ∷ msgs) up =
    let (kept, out) = sent_entry h msg up in
    let r = handle_outgoing_messages h (some (some msg)) true in
    ap (λ bs. bs ++ outgoing r.0 msgs) out
    ∙ ap (λ x. msg ++ outgoing x msgs) kept
    ∙ ap (λ bs. msg ++ bs) (outgoing_lem h msgs up)
