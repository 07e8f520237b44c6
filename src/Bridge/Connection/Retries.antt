-- ===== src/Bridge/Connection/Retries.antt =====
-- check_for_timeouts, seen from one pending message: how often it is sent again, and when it is given up.
pub mod Sequence
use ros2_modular_edge_offloa.Common.{
  ℕ, zero, suc, ◌+◌, ◌-◌, ◌≤◌, ◌<◌, Bool, true, false, ◌||◌, ◌≡◌, refl, ◌≢◌, ◌∙◌, ap, sym, ◌⊎◌, inl,
  inr, arith, Option, none, some, List, [], ◌∷◌, ◌++◌, ltb, ==_iff, ◌==◌, ltb→lt, lt→ltb,
  le→not-ltb, if◌then◌else◌, Bool-cases, Option-cases, length, length-append,
}
use ros2_modular_edge_offloa.Common.Eq.{nat_eq}
use ros2_modular_edge_offloa.Common.Maps.{find, insert, erase, find-insert, find-erase}
use ros2_modular_edge_offloa.Common.Maps.Distinct.{Distinct}
use ros2_modular_edge_offloa.Bridge.Connection.{
  Connection, Reliable, PendingAck, Effect, transmit, transmit_ack, disconnect_client,
  message_forwarder, dp_connect_callback, component_registration_callback, mark, erase_all, resend,
  check_for_timeouts, overdue, max_retry_count, ack_timeout,
}
use ros2_modular_edge_offloa.Bridge.Connection.Pending.{IsSound, Capped, check_for_timeouts-IsSound}

abbrev member : ℕ → List ℕ → Bool
member k [] = false
member k (j ∷ js) = if j == k then true else member k js

module _ {Value : Type 0} where
  -- The messages among the effects that went out under a number.
  pub resent : ℕ → List (Effect Value) → List (Reliable Value)
  resent k [] = []
  resent k (transmit m seq_num ∷ es) =
      let rest = resent k es in if seq_num == k then m ∷ rest else rest
  resent k (transmit_ack id n ∷ es) = resent k es
  resent k (disconnect_client id ∷ es) = resent k es
  resent k (message_forwarder id m ∷ es) = resent k es
  resent k (dp_connect_callback id host port r ∷ es) = resent k es
  resent k (component_registration_callback id n ∷ es) = resent k es

  pub resent-append :
      (k : ℕ) (xs ys : List (Effect Value)) → resent k (xs ++ ys) ≡ resent k xs ++ resent k ys
  unfolding resent
  resent-append k [] ys = refl
  resent-append k (transmit m n ∷ xs) ys = ground (arith, resent-append k xs ys)
  resent-append k (transmit_ack id n ∷ xs) ys = resent-append k xs ys
  resent-append k (disconnect_client id ∷ xs) ys = resent-append k xs ys
  resent-append k (message_forwarder id m ∷ xs) ys = resent-append k xs ys
  resent-append k (dp_connect_callback id host port r ∷ xs) ys = resent-append k xs ys
  resent-append k (component_registration_callback id n ∷ xs) ys = resent-append k xs ys

  -- What one check promises of one pending message.
  abbrev pub repeats : ℕ → PendingAck Value → Bool
  repeats now p = if overdue now p then ltb p.retry_count 3 else false

  abbrev pub gives_up : ℕ → PendingAck Value → Bool
  gives_up now p = if overdue now p then (if ltb p.retry_count 3 then false else true) else false

  abbrev pub touch : ℕ → PendingAck Value → PendingAck Value
  touch now p =
      if repeats now p then record p { retry_count = suc p.retry_count; time_sent = now } else p

  abbrev pub promised : ℕ → Option (PendingAck Value) → Option (PendingAck Value)
  promised now none = none
  promised now (some p) = if gives_up now p then none else some (touch now p)

  abbrev pub promised_sends : ℕ → Option (PendingAck Value) → List (Reliable Value)
  promised_sends now none = []
  promised_sends now (some p) = if repeats now p then p.message ∷ [] else []

  abbrev touched : ℕ → Option (PendingAck Value) → Option (PendingAck Value)
  touched now none = none
  touched now (some p) = some (touch now p)

  abbrev given_up : ℕ → Option (PendingAck Value) → Bool
  given_up now none = false
  given_up now (some p) = gives_up now p

  find-mark :
      (now k : ℕ) (m : List (ℕ × PendingAck Value)) → find k (mark now m).0 ≡ touched now (find k m)
  unfolding find mark
  find-mark now k [] = refl
  find-mark now k ((j, p) ∷ m) = ground (arith, find-mark now k m)

  find-erase_all :
      (k : ℕ) (ks : List ℕ) (m : List (ℕ × PendingAck Value))
      → find k (erase_all ks m) ≡ (if member k ks then none else find k m)
  unfolding erase_all
  find-erase_all k [] m = refl
  find-erase_all k (j ∷ ks) m = ground (arith, find-erase_all k ks (erase j m), find-erase j k m)

  member-mark :
      (now k : ℕ) (m : List (ℕ × PendingAck Value))
      → Distinct m
      → member k (mark now m).2 ≡ given_up now (find k m)
  unfolding find mark
  member-mark now k [] d = refl
  member-mark now k ((j, p) ∷ m) (fresh, d) = ground (arith, member-mark now k m d, ==_iff j k)

  abbrev sends_of :
      ℕ → Option (PendingAck Value) → Option (PendingAck Value) → List (Reliable Value)
  sends_of now none q = []
  sends_of now (some p) none = []
  sends_of now (some p) (some q) = if repeats now p then q.message ∷ [] else []

  resent-resend :
      (now k : ℕ) (pending m : List (ℕ × PendingAck Value))
      → Distinct m
      → resent k (resend pending (mark now m).1) ≡ sends_of now (find k m) (find k pending)
  unfolding find mark resend resent
  resent-resend now k pending [] d = refl
  resent-resend now k pending ((j, p) ∷ m) (fresh, d) =
      ground (arith, resent-resend now k pending m d, ==_iff j k)

  -- One check, for the message of one number: what stays of it, and what is sent for it.
  pub check_for_timeouts-find :
      (c : Connection Value) (now k : ℕ)
      → Distinct c.pending_acks
      → find k (check_for_timeouts c now).0.pending_acks ≡ promised now (find k c.pending_acks)
  unfolding check_for_timeouts
  check_for_timeouts-find c now k d = ground (
    arith,
    find-erase_all k (mark now c.pending_acks).2 (mark now c.pending_acks).0,
    find-mark now k c.pending_acks,
    member-mark now k c.pending_acks d,
  )

  pub check_for_timeouts-resent :
      (c : Connection Value) (now k : ℕ)
      → Distinct c.pending_acks
      → resent k (check_for_timeouts c now).1 ≡ promised_sends now (find k c.pending_acks)
  unfolding check_for_timeouts
  check_for_timeouts-resent c now k d = ground (
    arith,
    find-erase_all k (mark now c.pending_acks).2 (mark now c.pending_acks).0,
    find-mark now k c.pending_acks,
    member-mark now k c.pending_acks d,
    resent-resend now k (erase_all (mark now c.pending_acks).2 (mark now c.pending_acks).0)
        c.pending_acks d,
  )
