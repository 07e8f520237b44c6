-- ===== src/Gateway/Client/Tracked.antt =====
-- A message that was sent stays with the client until its number is acknowledged: no check gives it up.
use ros2_modular_edge_offloa.Common.{
  ℕ, Bool, false, ◌&&◌, ◌≡◌, refl, ◌∙◌, inl, inr, arith, Option, none, some, List, [], ◌∷◌, All,
  ◌==◌, Bool-cases, Option-cases,
}
use ros2_modular_edge_offloa.Common.Eq.{nat_eq}
use ros2_modular_edge_offloa.Common.Maps.{find, update, find-erase}
use ros2_modular_edge_offloa.Common.Int.{ℤ, to_unsigned}
use ros2_modular_edge_offloa.Bridge.Json.{JsonAccess}
use ros2_modular_edge_offloa.Bridge.Connection.Handlers.{is_code}
use ros2_modular_edge_offloa.Gateway.Client.Messages.{
  Handled, Round, handle_code, handle_approved, handle_denied, handle_ack, handle_received_message,
  loop_body, client_thread_func, handle_incoming, then_check,
}
use ros2_modular_edge_offloa.Gateway.Client.{
  Client, PendingAck, Outgoing, AsyncSend, is_sent, messages_to_resend, resend_all,
  check_for_timeouts,
}

-- The message that waits under a number.
abbrev message_of : Option PendingAck → Option Outgoing
message_of none = none
message_of (some p) = some p.message

abbrev pub waiting : Client → ℕ → Option Outgoing
waiting c k = message_of (find k c.pending_acks)

update-message :
    (k j : ℕ) (m : List (ℕ × PendingAck)) (now : ℕ)
    → message_of (find j (update k (λ pending. record pending { time_sent = now }) m))
      ≡ message_of (find j m)
unfolding find update
update-message k j [] now = refl
update-message k j ((i, p) ∷ m) now = ground (arith, update-message k j m now)

module _ (Value : Type 0) where
  resend-message :
      (ks : List (ℕ × Outgoing)) (m : List (ℕ × PendingAck)) (result : ℕ → AsyncSend) (at j : ℕ)
      → message_of (find j (resend_all {Value = Value} m ks result at).0) ≡ message_of (find j m)
  unfolding resend_all
  resend-message [] m result at j = refl
  resend-message ((k, msg) ∷ ks) m result at j = elim (Bool-cases (is_sent (result k))) [
    | inl t ↦ rw t (
        resend-message ks (update k (λ pending. record pending { time_sent = at }) m) result at j
        ∙ update-message k j m at)
    | inr f ↦ rw f (resend-message ks m result at j)
  ]

  check_for_timeouts-waiting :
      (c : Client) (now : ℕ) (result : ℕ → AsyncSend) (at k : ℕ)
      → waiting (check_for_timeouts {Value = Value} c now result at).0 k ≡ waiting c k
  unfolding check_for_timeouts
  check_for_timeouts-waiting c now result at k =
      resend-message (messages_to_resend now c.pending_acks) c.pending_acks result at k

module _ {Value : Type 0} ⦃json : JsonAccess Value⦄ where
  -- The message is an ACK of the number.
  abbrev pub acks : Value → ℕ → Bool
  acks msg k = elim (json.get_int (json.at_key msg "message_code")) [
    | none ↦ false
    | some code ↦
        elim (json.get_int (json.at_key (json.at_key msg "payload") "ack_sequence_number")) [
          | none ↦ false
          | some n ↦ is_code code 900 && to_unsigned 18446744073709551616 n == k
        ]
  ]

  handle_code-waiting :
      (c : Client) (code : ℤ) (msg : Value) (k : ℕ)
      → json.get_int (json.at_key msg "message_code") ≡ some code
      → acks msg k ≡ false
      → waiting (handle_code c code msg).client k ≡ waiting c k
  unfolding handle_code handle_approved handle_denied handle_ack
  handle_code-waiting c code msg k e h = grind (arith, find-erase)

  message-waiting :
      (c : Client) (msg : Value) (k : ℕ)
      → acks msg k ≡ false
      → waiting (handle_received_message c msg).client k ≡ waiting c k
  unfolding handle_received_message
  message-waiting c msg k h = grind (arith, handle_code-waiting)

abbrev pub round_acks : (Value : Type 0) → ⦃json : JsonAccess Value⦄ → ℕ → Round → Bool
round_acks Value ⦃json⦄ k r = elim r.incoming [
  | none ↦ false
  | some json_str ↦ elim (json.parse json_str) [ none ↦ false | some msg ↦ acks msg k ]
]

module _ (Value : Type 0) ⦃json : JsonAccess Value⦄ where
  incoming-waiting :
      (c : Client) (r : Round) (k : ℕ)
      → round_acks Value k r ≡ false
      → waiting (handle_incoming {Value = Value} c r.incoming).client k ≡ waiting c k
  incoming-waiting c r k h = elim (Option-cases r.incoming) [
    | inl nothing ↦ rw nothing refl
    | inr (text, came) ↦ elim (Option-cases (json.parse text)) [
      | inl bad ↦ rw (came, bad) refl
      | inr (msg, good) ↦ rw (came, good) (message-waiting c msg k (ground (arith, h, came, good)))
    ]
  ]

  then_check-waiting :
      (h : Handled Value) (r : Round) (k : ℕ)
      → waiting (then_check h r).client k ≡ waiting h.client k
  then_check-waiting h r k =
      ground (arith, check_for_timeouts-waiting Value h.client r.now r.result r.resent_at k)

  loop_body-waiting :
      (c : Client) (r : Round) (k : ℕ)
      → round_acks Value k r ≡ false
      → waiting (loop_body {Value = Value} c r).client k ≡ waiting c k
  unfolding loop_body
  loop_body-waiting c r k h =
      then_check-waiting (handle_incoming {Value = Value} c r.incoming) r k
      ∙ incoming-waiting c r k h

  -- Whatever the thread receives and however often it checks the time-outs, a message that waits for its
  -- acknowledgement still waits at the end if no ACK of its number has come: it is never given up.
  pub client_thread_func-waiting :
      (c : Client) (rounds : List Round) (k : ℕ)
      → All (λ r. round_acks Value k r ≡ false) rounds
      → waiting (client_thread_func {Value = Value} c rounds).client k ≡ waiting c k
  unfolding client_thread_func
  client_thread_func-waiting c [] k h = refl
  client_thread_func-waiting c (r ∷ rounds) k (h, hs) = ground (
    arith,
    loop_body-waiting c r k h,
    client_thread_func-waiting (loop_body {Value = Value} c r).client rounds k hs,
  )
