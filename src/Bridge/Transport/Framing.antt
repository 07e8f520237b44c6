-- ===== src/Bridge/Transport/Framing.antt =====
-- What the bridge delivers of the frames that a gateway writes.
use ros2_modular_edge_offloa.Common.{
  append-nil, ℕ, zero, suc, ◌+◌, ◌-◌, ◌^◌, ◌<◌, ◌≤◌, false, ◌≡◌, refl, sym, ap, ◌∙◌, ◌⊎◌, inl, inr,
  none, some, arith, List, [], ◌∷◌, ◌++◌, append_assoc, map, Bytes, All, length, take, drop,
  length-append, length-take_le, take-append_length, drop-append_length,
}
use ros2_modular_edge_offloa.Wire.{MessageType, type_code, create_header, topic_length}
use ros2_modular_edge_offloa.Wire.Parse.{
  ParsedHeaderInfo, parse_message_header, construct_routing_key, RoutingKey,
}
use ros2_modular_edge_offloa.Wire.RoundTrip.{parse-create_header, length-create_header}
use ros2_modular_edge_offloa.Bridge.Routing.{RoutingTable, get_destinations}
use ros2_modular_edge_offloa.Bridge.Transport.{
  Action, enqueue, notify_critical_error, header_parsing_failed, route, drain, process_buffer,
}
use ros2_modular_edge_offloa.Bridge.Transport.Incoming.{
  drain_short, drain_desync, drain_partial, drain_complete,
}

-- A message as a gateway sends it.
pub record OutMessage : Type 0 where
  pub topic : Bytes
  pub type : MessageType
  pub id_group : ℕ
  pub identifier_in_group : ℕ
  pub flags : ℕ
  pub payload : Bytes

abbrev pub header_of : OutMessage → Bytes
header_of m =
    create_header m.topic m.type m.id_group m.identifier_in_group (length m.payload) m.flags

abbrev pub frame : OutMessage → Bytes
frame m = header_of m ++ m.payload

abbrev pub frames : List OutMessage → Bytes
frames [] = []
frames (m ∷ ms) = frame m ++ frames ms

abbrev pub key_of : OutMessage → RoutingKey
key_of m = construct_routing_key m.id_group m.identifier_in_group (type_code m.type)

-- The whole frame goes to each queue of the sender's key.
abbrev pub deliveries : RoutingTable → List OutMessage → List Action
deliveries t [] = []
deliveries t (m ∷ ms) =
    map (λ queue. enqueue queue (frame m)) (get_destinations t (key_of m)) ++ deliveries t ms

abbrev pub Fits : OutMessage → Type 0
Fits m = length m.payload < 2 ^ 32

info : OutMessage → ParsedHeaderInfo
info m = record {
  routing_key = key_of m;
  total_message_length = 11 + topic_length m.topic + length m.payload;
  payload_offset = 11 + topic_length m.topic;
  payload_size = length m.payload;
}

length-frame : (m : OutMessage) → length (frame m) ≡ 11 + topic_length m.topic + length m.payload
length-frame m = omega (
  arith,
  length-append (header_of m) m.payload,
  length-create_header m.topic m.type m.id_group m.identifier_in_group (length m.payload) m.flags,
)

parse-frame :
    (m : OutMessage) (rest : Bytes)
    → Fits m
    → parse_message_header (frame m ++ rest) ≡ some (info m)
unfolding info
parse-frame m rest h = rw append_assoc (
    parse-create_header m.topic m.type m.id_group m.identifier_in_group (length m.payload) m.flags
      (m.payload ++ rest) h)

drain-frame :
    (t : RoutingTable) (f : ℕ) (m : OutMessage) (rest : Bytes)
    → Fits m
    → drain t (suc f) (frame m ++ rest) ≡ (
      (drain t f rest).0,
      map (λ queue. enqueue queue (frame m)) (get_destinations t (key_of m)) ++ (drain t f rest).1,
    )
unfolding info route
drain-frame t f m rest h =
    let n = 11 + topic_length m.topic + length m.payload in
    let e : n ≡ length (frame m) = sym (length-frame m) in
    let cut_front : take n (frame m ++ rest) ≡ frame m = rw e (take-append_length (frame m) rest) in
    let cut_back : drop n (frame m ++ rest) ≡ rest = rw e (drop-append_length (frame m) rest) in
    drain_complete t f (frame m ++ rest) (info m) (parse-frame m rest h) (omega arith)
      (omega (arith, length-append (frame m) rest, length-frame m))
    ∙ rw (cut_front, cut_back) refl

drain-frames :
    (t : RoutingTable) (f : ℕ) (ms : List OutMessage) (rest : Bytes) (x : Bytes × List Action)
    → All Fits ms
    → length (frames ms ++ rest) < f
    → ((g : ℕ) → length rest < g → drain t g rest ≡ x)
    → drain t f (frames ms ++ rest) ≡ (x.0, deliveries t ms ++ x.1)
drain-frames t f [] rest x fits h end = end f h
drain-frames t zero (m ∷ ms) rest x fits h end = absurd (omega arith)
drain-frames t (suc f) (m ∷ ms) rest x (fit, fits) h end = rw append_assoc (
    drain-frame t f m (frames ms ++ rest) fit
    ∙ rw
        (drain-frames t f ms rest x fits
          (omega (
            arith,
            length-append (frame m ++ frames ms) rest,
            length-append (frame m) (frames ms),
            length-append (frames ms) rest,
            length-frame m,
          ))
          end)
        (ap (λ acts. (x.0, acts))
          (sym (
            append_assoc (map (λ queue. enqueue queue (frame m)) (get_destinations t (key_of m)))
              (deliveries t ms) x.1))))

-- A read has stopped `k` bytes into the frame, before its topic or behind it.
abbrev pub IsSafeCut : OutMessage → ℕ → Type 0
IsSafeCut m k =
    (k < 11)
    ⊎ ((11 + topic_length m.topic ≤ k) × (k < 11 + topic_length m.topic + length m.payload))

take-append_past {ℓ} :
    {A : Type ℓ} (k : ℕ) (xs ys : List A)
    → length xs ≤ k
    → take k (xs ++ ys) ≡ xs ++ take (k - length xs) ys
take-append_past k [] ys h = let e : k - 0 ≡ k = omega arith in rw e
take-append_past zero (x ∷ xs) ys h = absurd (omega arith)
take-append_past (suc k) (x ∷ xs) ys h =
    let e : suc k - suc (length xs) ≡ k - length xs = omega arith in
    rw e (ap (◌∷◌ x) (take-append_past k xs ys (omega arith)))

take-frame :
    (m : OutMessage) (k : ℕ)
    → 11 + topic_length m.topic ≤ k
    → take k (frame m) ≡ header_of m ++ take (k - length (header_of m)) m.payload
take-frame m k h = take-append_past k (header_of m) m.payload (
    omega (
      arith,
      length-create_header m.topic m.type m.id_group m.identifier_in_group (length m.payload)
          m.flags,
    ))

length-take-frame :
    (m : OutMessage) (k : ℕ)
    → k ≤ 11 + topic_length m.topic + length m.payload
    → length (take k (frame m)) ≡ k
length-take-frame m k h = length-take_le k (frame m) (omega (arith, length-frame m))

waiting :
    (t : RoutingTable) (m : OutMessage) (k g : ℕ)
    → Fits m
    → IsSafeCut m k
    → length (take k (frame m)) < g
    → drain t g (take k (frame m)) ≡ (take k (frame m), [])
unfolding info
waiting t m k zero fit safe h = absurd (omega arith)
waiting t m k (suc g) fit (inl s) h =
    drain_short t g (take k (frame m)) (omega (arith, length-take-frame m k))
waiting t m k (suc g) fit (inr (lo, hi)) h =
    drain_partial t g (take k (frame m)) (info m)
      (rw (take-frame m k lo) (
        parse-create_header m.topic m.type m.id_group m.identifier_in_group (length m.payload)
          m.flags (take (k - length (header_of m)) m.payload) fit))
      (omega (arith, length-take-frame m k)) (omega (arith, length-take-frame m k))

-- All complete frames in the buffer are delivered once, in order, each to the queues of its sender's key,
-- and the start of the next frame is kept, if no payload is longer than a 32-bit size can say, the last
-- read did not stop inside a topic name, and the handler is not told to stop.
pub process_buffer-frames :
    (t : RoutingTable) (ms : List OutMessage) (m : OutMessage) (k : ℕ)
    → All Fits ms
    → Fits m
    → IsSafeCut m k
    → process_buffer t false (frames ms ++ take k (frame m)) ≡ (take k (frame m), deliveries t ms)
unfolding process_buffer
process_buffer-frames t ms m k fits fit safe =
    drain-frames t (suc (length (frames ms ++ take k (frame m)))) ms (take k (frame m))
      (take k (frame m), []) fits (omega arith) (λ g h. waiting t m k g fit safe h)
    ∙ ap (λ acts. (take k (frame m), acts)) (append-nil (deliveries t ms))

-- Eleven bytes are the fixed part of the header, `j` is what was read of the topic.
abbrev past_fixed : ℕ → ℕ
past_fixed j = suc (suc (suc (suc (suc (suc (suc (suc (suc (suc (suc j))))))))))

parse-none_at :
    (m : OutMessage) (j : ℕ)
    → j < topic_length m.topic
    → parse_message_header (take (past_fixed j) (frame m)) ≡ none
unfolding parse_message_header create_header
parse-none_at m j h = ground (arith, length-take-frame m (past_fixed j))

parse-none :
    (m : OutMessage) (k : ℕ)
    → 11 ≤ k
    → k < 11 + topic_length m.topic
    → parse_message_header (take k (frame m)) ≡ none
parse-none m k lo hi =
    let e : k ≡ past_fixed (k - 11) = omega arith in rw e (parse-none_at m (k - 11) (omega arith))

desync_from :
    (t : RoutingTable) (m : OutMessage) (k g : ℕ)
    → 11 ≤ k
    → k < 11 + topic_length m.topic
    → length (take k (frame m)) < g
    → drain t g (take k (frame m)) ≡ ([], notify_critical_error header_parsing_failed ∷ [])
desync_from t m k zero lo hi h = absurd (omega arith)
desync_from t m k (suc g) lo hi h =
    drain_desync t g (take k (frame m)) (omega (arith, length-take-frame m k))
      (parse-none m k lo hi)

-- If the handler is not told to stop and the bytes that have arrived end inside the topic name of a frame,
-- behind any complete frames with payloads no longer than a 32-bit size can say, the complete frames are
-- delivered, but the bytes of the last frame are dropped and a bad header is reported, although nothing is wrong
-- with it.
pub process_buffer-topic_cut :
    (t : RoutingTable) (ms : List OutMessage) (m : OutMessage) (k : ℕ)
    → All Fits ms
    → 11 ≤ k
    → k < 11 + topic_length m.topic
    → process_buffer t false (frames ms ++ take k (frame m))
      ≡ ([], deliveries t ms ++ notify_critical_error header_parsing_failed ∷ [])
unfolding process_buffer
process_buffer-topic_cut t ms m k fits lo hi =
    drain-frames t (suc (length (frames ms ++ take k (frame m)))) ms (take k (frame m))
      ([], notify_critical_error header_parsing_failed ∷ []) fits (omega arith)
      (λ g h. desync_from t m k g lo hi h)
