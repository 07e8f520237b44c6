-- ===== src/Gateway/Ros/Trip.antt =====
-- From one gateway through the bridge to another.
use ros2_modular_edge_offloa.Common.{
  ℕ, suc, ◌%◌, true, ◌≡◌, refl, ◌∙◌, ap, arith, none, some, List, [], ◌∷◌, ◌++◌, append_assoc, map,
  Bytes, All, length, take, length-append, take-append_length, drop-append_length, le→leb,
}
use ros2_modular_edge_offloa.Wire.{type_code, topic_length, create_header, of_flags, big_endian32}
use ros2_modular_edge_offloa.Wire.RoundTrip.{length-take_topic, big_endian32_value}
use ros2_modular_edge_offloa.Bridge.Transport.Framing.{OutMessage, frame, frames, Fits}
use ros2_modular_edge_offloa.Gateway.Ros.{
  Received, receive_exact, receive_and_process_message, receiver_thread_func, Processed,
}

-- The message as the receiving gateway's handlers get it: the topic is cut to 255 bytes.
abbrev pub received_of : OutMessage → Received
received_of m = record {
  topic = take (topic_length m.topic) m.topic;
  type = type_code m.type;
  payload = m.payload;
  options = of_flags (m.flags % 256);
}

receive_exact-append :
    (xs ys : Bytes) (n : ℕ) → length xs ≡ n → receive_exact n (xs ++ ys) ≡ some (xs, ys)
unfolding receive_exact
receive_exact-append xs ys n e = rw (← e) (
    ground (
      arith,
      take-append_length xs ys,
      drop-append_length xs ys,
      length-append xs ys,
      le→leb (length xs) (length (xs ++ ys)) (omega (arith, length-append xs ys)),
    ))

-- The part of the header before the topic.
abbrev fixed : OutMessage → Bytes
fixed m =
    165
    ∷ 195
    ∷ (m.flags % 256)
    ∷ type_code m.type
    ∷ m.id_group
    ∷ m.identifier_in_group
    ∷ (big_endian32 (length m.payload) ++ topic_length m.topic ∷ [])

abbrev cut_topic : OutMessage → Bytes
cut_topic m = take (topic_length m.topic) m.topic

frame_parts :
    (m : OutMessage) (rest : Bytes)
    → frame m ++ rest ≡ fixed m ++ (cut_topic m ++ (m.payload ++ rest))
unfolding create_header
frame_parts m rest = rw (append_assoc (cut_topic m) m.payload rest) refl

receive_frame :
    (m : OutMessage) (rest : Bytes)
    → Fits m
    → receive_and_process_message (frame m ++ rest) ≡ (true, rest, some (received_of m))
unfolding receive_and_process_message
receive_frame m rest fit =
    rw
      (
        frame_parts m rest,
        receive_exact-append (fixed m) (cut_topic m ++ (m.payload ++ rest)) 11 refl,
        receive_exact-append (cut_topic m) (m.payload ++ rest) (topic_length m.topic)
            (length-take_topic m.topic),
        big_endian32_value (length m.payload) fit,
        receive_exact-append m.payload rest (length m.payload) refl,
      )
      refl

receiver_step :
    (n : ℕ) (stream rest : Bytes) (m : Received)
    → receive_and_process_message stream ≡ (true, rest, some m)
    → receiver_thread_func (suc n) stream ≡ m ∷ receiver_thread_func n rest
unfolding receiver_thread_func
receiver_step n stream rest m e =
    ap
      (λ (p : Processed). elim p.2 as (λ o. List Received) [
        | none ↦ receiver_thread_func n p.1
        | some r ↦ r ∷ receiver_thread_func n p.1
      ])
      e

-- The receiver of a gateway gives its handlers every message whose frame arrives, in order and once: topic (cut to
-- 255 bytes), type, payload and options are those of the sender, if no payload is longer than a 32-bit size can say.
pub receiver_thread_func-frames :
    (ms : List OutMessage) (rest : Bytes)
    → All Fits ms
    → receiver_thread_func (length ms) (frames ms ++ rest) ≡ map received_of ms
unfolding receiver_thread_func
receiver_thread_func-frames [] rest fits = refl
receiver_thread_func-frames (m ∷ ms) rest (fit, fits) =
    ap (receiver_thread_func (suc (length ms))) (append_assoc (frame m) (frames ms) rest)
    ∙ receiver_step (length ms) (frame m ++ (frames ms ++ rest)) (frames ms ++ rest) (received_of m)
        (receive_frame m (frames ms ++ rest) fit)
    ∙ ap (λ l. received_of m ∷ l) (receiver_thread_func-frames ms rest fits)
