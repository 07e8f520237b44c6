-- ===== src/Bridge/Connection/Retries/Sequence.antt =====
-- The timeouts checked again and again: the bound on the repeats, and the end of a message that is not
-- acknowledged.
use ros2_modular_edge_offloa.Common.{
  ℕ, zero, suc, ◌+◌, ◌-◌, ◌≤◌, ◌<◌, true, ◌≡◌, refl, ap, sym, arith, Option, none, some, List, [],
  ◌∷◌, ◌++◌, ltb→lt, lt→ltb, le→not-ltb, length, length-append, append-nil, subst,
}
use ros2_modular_edge_offloa.Common.Eq.{nat_eq}
use ros2_modular_edge_offloa.Common.Maps.{find}
use ros2_modular_edge_offloa.Bridge.Connection.{
  Connection, Reliable, PendingAck, Effect, check_for_timeouts, overdue, ack_timeout,
}
use ros2_modular_edge_offloa.Bridge.Connection.Pending.{IsSound, check_for_timeouts-IsSound}
use ros2_modular_edge_offloa.Bridge.Connection.Retries.{
  resent, resent-append, promised, promised_sends, check_for_timeouts-find,
  check_for_timeouts-resent,
}

-- Each check comes more than five seconds after the one before.
abbrev pub Spaced : ℕ → List ℕ → Type 0
Spaced t [] = Unit
Spaced t (now ∷ times) = (ack_timeout + t < now) × Spaced now times

module _ {Value : Type 0} where
  -- Checks at several times.
  pub check_all : Connection Value → List ℕ → Connection Value × List (Effect Value)
  check_all c [] = (c, [])
  check_all c (now ∷ times) =
      let first = check_for_timeouts c now in
      let rest = check_all first.0 times in (rest.0, first.1 ++ rest.1)

  abbrev budget : Option (PendingAck Value) → ℕ
  budget none = 0
  budget (some p) = 3 - p.retry_count

  budget-promised :
      (now : ℕ) (o : Option (PendingAck Value))
      → length (promised_sends now o) + budget (promised now o) ≤ budget o
  budget-promised now none = omega arith
  budget-promised now (some p) = ground (arith, ltb→lt p.retry_count 3)

  check_all_within :
      (c : Connection Value) (times : List ℕ) (k : ℕ)
      → IsSound c
      → length (resent k (check_all c times).1) ≤ budget (find k c.pending_acks)
  unfolding check_all resent
  check_all_within c [] k h = omega arith
  check_all_within c (now ∷ times) k h =
      let first = check_for_timeouts c now in
      rw (resent-append, length-append)
        (omega (
          arith,
          check_all_within first.0 times k (check_for_timeouts-IsSound c now h),
          subst
              (λ o.
                length (promised_sends now (find k c.pending_acks)) + budget o
                ≤ budget (find k c.pending_acks))
              (sym (check_for_timeouts-find c now k h.distinct))
              (budget-promised now (find k c.pending_acks)),
          ap length (check_for_timeouts-resent c now k h.distinct),
        ))

  -- However often the timeouts of a sound connection are checked, a pending message is sent again at most three times.
  pub check_all_bounded :
      (c : Connection Value) (times : List ℕ) (k : ℕ)
      → IsSound c
      → length (resent k (check_all c times).1) ≤ 3
  check_all_bounded c times k h = ground (arith, check_all_within c times k h)

  abbrev pub copies : ℕ → Reliable Value → List (Reliable Value)
  copies zero m = []
  copies (suc n) m = m ∷ copies n m

  overdue_late :
      (now : ℕ) (p : PendingAck Value) → ack_timeout + p.time_sent < now → overdue now p ≡ true
  overdue_late now p h = lt→ltb ack_timeout (now - p.time_sent) (omega arith)

  check_all_from :
      (c : Connection Value) (times : List ℕ) (k n : ℕ) (p : PendingAck Value)
      → IsSound c
      → find k c.pending_acks ≡ some p
      → p.retry_count + n ≡ 3
      → length times ≡ suc n
      → Spaced p.time_sent times
      → (find k (check_all c times).0.pending_acks ≡ none)
        × (resent k (check_all c times).1 ≡ copies n p.message)
  unfolding check_all resent
  check_all_from c [] k n p h f r l sp = absurd (omega arith)
  check_all_from c (now ∷ later ∷ times) k zero p h f r l sp = absurd (omega arith)
  check_all_from c (now ∷ []) k zero p h f r l (late, sp) =
      let over = overdue_late now p late in
      let spent = le→not-ltb p.retry_count 3 (omega arith) in
      (
        ground (arith, check_for_timeouts-find c now k h.distinct, over, spent),
        rw (append-nil) (ground (arith, check_for_timeouts-resent c now k h.distinct, over, spent)),
      )
  check_all_from c (now ∷ times) k (suc n) p h f r l (late, sp) =
      let first = check_for_timeouts c now in
      let next : PendingAck Value = record p { retry_count = suc p.retry_count; time_sent = now } in
      let stays : find k first.0.pending_acks ≡ some next = ground (
        arith,
        check_for_timeouts-find c now k h.distinct,
        overdue_late now p late,
        lt→ltb p.retry_count 3 (omega arith),
      ) in
      let sends : resent k first.1 ≡ p.message ∷ [] = ground (
        arith,
        check_for_timeouts-resent c now k h.distinct,
        overdue_late now p late,
        lt→ltb p.retry_count 3 (omega arith),
      ) in
      let (gone, rest) =
        check_all_from first.0 times k n next (check_for_timeouts-IsSound c now h) stays
          (omega arith) (omega arith) sp in
      (gone, rw (resent-append, sends, rest) refl)

  -- A message that has just been sent for the first time and is never acknowledged is sent again at each of the
  -- next three checks and given up at the fourth, if each check comes more than five seconds after the one before.
  pub check_all_exhausted :
      (c : Connection Value) (times : List ℕ) (k : ℕ) (p : PendingAck Value)
      → IsSound c
      → find k c.pending_acks ≡ some p
      → p.retry_count ≡ 0
      → length times ≡ 4
      → Spaced p.time_sent times
      → (find k (check_all c times).0.pending_acks ≡ none)
        × (resent k (check_all c times).1 ≡ p.message ∷ p.message ∷ p.message ∷ [])
  check_all_exhausted c times k p h f r l sp = check_all_from c times k 3 p h f (omega arith) l sp
