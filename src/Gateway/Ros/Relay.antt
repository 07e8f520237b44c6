-- ===== src/Gateway/Ros/Relay.antt =====
-- From one gateway through the bridge to another: what the sender's frames become behind the bridge.
use ros2_modular_edge_offloa.Common.{
  ℕ, ◌<◌, ◌^◌, true, false, ◌≡◌, refl, ◌∙◌, ap, sym, inl, arith, List, [], ◌∷◌, ◌++◌, append_assoc,
  append-nil, map, Bytes, All, All-append, length, ◌==◌, if◌then◌else◌,
}
use ros2_modular_edge_offloa.Wire.{MessageType, MessageOptions, to_flags, create_header_options}
use ros2_modular_edge_offloa.Wire.RoundTrip.{create_header_in_buffer_lem}
use ros2_modular_edge_offloa.Bridge.Routing.{RoutingTable, get_destinations}
use ros2_modular_edge_offloa.Bridge.Transport.{
  TransportHandler, Action, enqueue, received, process_buffer,
}
use ros2_modular_edge_offloa.Bridge.Transport.Handler.{incoming}
use ros2_modular_edge_offloa.Bridge.Transport.Reads.{
  joined, Arrives, incoming_reads, queued, outgoing, outgoing_lem,
}
use ros2_modular_edge_offloa.Bridge.Transport.Framing.{
  OutMessage, frame, frames, key_of, deliveries, Fits, process_buffer-frames,
}
use ros2_modular_edge_offloa.Gateway.Ros.{receiver_thread_func, RosGateway, send_message}
use ros2_modular_edge_offloa.Gateway.Client.{sent}
use ros2_modular_edge_offloa.Gateway.Ros.Trip.{received_of, receiver_thread_func-frames}

abbrev copies_for : OutMessage → ℕ → List ℕ → List OutMessage
copies_for m q [] = []
copies_for m q (queue ∷ queues) =
    let rest = copies_for m q queues in if queue == q then m ∷ rest else rest

-- The messages whose key the table routes to the queue, once for each route.
pub routed : RoutingTable → ℕ → List OutMessage → List OutMessage
routed t q [] = []
routed t q (m ∷ ms) = copies_for m q (get_destinations t (key_of m)) ++ routed t q ms

frames-append : (xs ys : List OutMessage) → frames (xs ++ ys) ≡ frames xs ++ frames ys
frames-append [] ys = refl
frames-append (m ∷ xs) ys =
    rw (frames-append xs ys) (sym (append_assoc (frame m) (frames xs) (frames ys)))

joined-enqueue :
    (q : ℕ) (m : OutMessage) (queues : List ℕ) (acts : List Action)
    → joined (queued q (map (λ queue. enqueue queue (frame m)) queues ++ acts))
      ≡ frames (copies_for m q queues) ++ joined (queued q acts)
unfolding queued
joined-enqueue q m [] acts = refl
joined-enqueue q m (queue ∷ queues) acts = ground (
  arith,
  joined-enqueue q m queues acts,
  append_assoc (frame m) (frames (copies_for m q queues)) (joined (queued q acts)),
)

joined-deliveries :
    (t : RoutingTable) (q : ℕ) (ms : List OutMessage)
    → joined (queued q (deliveries t ms)) ≡ frames (routed t q ms)
unfolding queued routed
joined-deliveries t q [] = refl
joined-deliveries t q (m ∷ ms) =
    joined-enqueue q m (get_destinations t (key_of m)) (deliveries t ms)
    ∙ ap (λ r. frames (copies_for m q (get_destinations t (key_of m))) ++ r)
        (joined-deliveries t q ms)
    ∙ sym (frames-append (copies_for m q (get_destinations t (key_of m))) (routed t q ms))

copies_for-Fits :
    (m : OutMessage) (q : ℕ) (queues : List ℕ) → Fits m → All Fits (copies_for m q queues)
copies_for-Fits m q [] fit = tt
copies_for-Fits m q (queue ∷ queues) fit = ground (arith, fit, copies_for-Fits m q queues fit)

routed-Fits :
    (t : RoutingTable) (q : ℕ) (ms : List OutMessage) → All Fits ms → All Fits (routed t q ms)
unfolding routed
routed-Fits t q [] fits = tt
routed-Fits t q (m ∷ ms) (fit, fits) =
    All-append Fits (copies_for m q (get_destinations t (key_of m))) (routed t q ms)
      (copies_for-Fits m q (get_destinations t (key_of m)) fit) (routed-Fits t q ms fits)

abbrev no_message : OutMessage
no_message = record {
  topic = [];
  type = MessageType.string;
  id_group = 0;
  identifier_in_group = 0;
  flags = 0;
  payload = [];
}

process_buffer_many :
    (t : RoutingTable) (ms : List OutMessage)
    → All Fits ms
    → process_buffer t false (frames ms) ≡ ([], deliveries t ms)
process_buffer_many t ms fits =
    ap (process_buffer t false) (sym (append-nil (frames ms)))
    ∙ process_buffer-frames t ms no_message 0 fits (omega arith) (inl (omega arith))

-- A call of send_message.
pub record Post : Type 0 where
  pub topic : Bytes
  pub type : MessageType
  pub payload : Bytes
  pub options : MessageOptions

-- A version that fits uint8_t, and a size that fits 32 bits.
abbrev pub IsPost : Post → Type 0
IsPost p = (p.options.version < 256) × (length p.payload < 2 ^ 32)

-- The bytes that a gateway writes for its calls, if its transport takes all of them.
unfoldable pub written : RosGateway → List Post → Bytes
written g [] = []
written g (p ∷ ps) =
    joined (send_message g p.topic p.type p.payload p.options true sent sent).0 ++ written g ps

abbrev pub posted : RosGateway → Post → OutMessage
posted g p = record {
  topic = p.topic;
  type = p.type;
  id_group = g.id_group;
  identifier_in_group = g.identifier_in_group;
  flags = to_flags p.options;
  payload = p.payload;
}

send_message-frame :
    (g : RosGateway) (p : Post)
    → p.options.version < 256
    → joined (send_message g p.topic p.type p.payload p.options true sent sent).0
      ≡ frame (posted g p)
unfolding send_message create_header_options
send_message-frame g p v =
    rw
      (
        create_header_in_buffer_lem [] p.topic p.type g.id_group g.identifier_in_group
            (length p.payload) p.options v,
        append-nil p.payload,
      )
      refl

written-frames :
    (g : RosGateway) (ps : List Post) → All IsPost ps → written g ps ≡ frames (map (posted g) ps)
unfolding written
written-frames g [] oks = refl
written-frames g (p ∷ ps) ((v, size), oks) =
    rw (send_message-frame g p v, written-frames g ps oks) refl

posted-Fits : (g : RosGateway) (ps : List Post) → All IsPost ps → All Fits (map (posted g) ps)
posted-Fits g [] oks = tt
posted-Fits g (p ∷ ps) ((v, size), oks) = (size, posted-Fits g ps oks)

-- What one gateway sends arrives at another one through the bridge: of the messages that were given to
-- send_message, the gateway behind a queue receives exactly those whose key is routed to the queue, in the order in
-- which they were sent, once for each route, with the sender's topic (cut to 255 bytes), type, payload and option
-- byte. The conditions: each version is a uint8_t, no payload is longer than a 32-bit size can say, and the sender's
-- transport takes everything; the handler of the sender is connected, not told to stop, starts with an empty buffer
-- and reads all that was written; each read takes at least one byte and no more than the buffer has room for, and
-- none stops inside a topic name; the handler of the queue is connected, is called once for each entry of its queue,
-- and send_data takes all that it is given.
pub receiver_thread_func-send_message :
    (g : RosGateway) (t : RoutingTable) (q : ℕ) (ps : List Post) (h out : TransportHandler)
    (cs : List Bytes)
    → All IsPost ps
    → h.tcp_up ≡ true
    → h.shutdown_requested ≡ false
    → h.receive_buffer ≡ []
    → joined cs ≡ written g ps
    → Arrives t h [] cs
    → out.tcp_up ≡ true
    → let arriving = routed t q (map (posted g) ps) in
      let entries = queued q (incoming t h (map received cs)).1 in
      receiver_thread_func (length arriving) (outgoing out entries) ≡ map received_of arriving
unfolding process_buffer
receiver_thread_func-send_message g t q ps h out cs oks up runs empty all arrives connected =
    let ms = map (posted g) ps in
    let calls : (incoming t h (map received cs)).1 ≡ deliveries t ms =
      incoming_reads t h [] cs up runs empty tt arrives
      ∙ ap (λ bs. (process_buffer t false bs).1) (all ∙ written-frames g ps oks)
      ∙ ap (λ x. x.1) (process_buffer_many t ms (posted-Fits g ps oks)) in
    rw
      (
        outgoing_lem out (queued q (incoming t h (map received cs)).1) connected,
        calls,
        joined-deliveries t q ms,
        ← append-nil (frames (routed t q ms)),
      )
      (receiver_thread_func-frames (routed t q ms) [] (routed-Fits t q ms (posted-Fits g ps oks)))
