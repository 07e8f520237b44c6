-- ===== src/Bridge/Connection/Pending.antt =====
-- The pending messages of a connection, and the invariant of a connection.
use ros2_modular_edge_offloa.Common.{
  ℕ, ◌≤◌, true, ◌≡◌, refl, ◌≢◌, arith, none, List, [], ◌∷◌, Bytes, ltb→lt,
}
use ros2_modular_edge_offloa.Common.Eq.{nat_eq}
use ros2_modular_edge_offloa.Common.Maps.{find, insert, erase}
use ros2_modular_edge_offloa.Common.Maps.Distinct.{Distinct, insert-Distinct, erase-Distinct}
use ros2_modular_edge_offloa.Bridge.Connection.{
  Connection, connecting, Delivery, not_connected, refused, accepted, Reliable, PendingAck,
  is_valid_component_id, send_reliable_message, mark, erase_all, check_for_timeouts, new_connection,
}

module _ {Value : Type 0} where
  -- No message has been repeated more than three times.
  abbrev pub Capped : List (ℕ × PendingAck Value) → Type 0
  Capped [] = Unit
  Capped ((k, p) ∷ m) = (p.retry_count ≤ 3) × Capped m

  pub record IsSound (c : Connection Value) : Type 0 where
    pub distinct : Distinct c.pending_acks
    pub capped : Capped c.pending_acks
    pub identified : c.component_id ≢ [] → is_valid_component_id c.component_id ≡ true
    pub settled : c.state ≢ connecting → c.component_id ≢ []

  pub insert-Capped :
      (k : ℕ) (p : PendingAck Value) (m : List (ℕ × PendingAck Value))
      → p.retry_count ≤ 3
      → Capped m
      → Capped (insert k p m)
  unfolding insert
  insert-Capped k p [] h hm = (h, tt)
  insert-Capped k p ((j, q) ∷ m) h (hq, hm) = ground (arith, insert-Capped k p m h hm)

  pub erase-Capped : (k : ℕ) (m : List (ℕ × PendingAck Value)) → Capped m → Capped (erase k m)
  unfolding erase
  erase-Capped k [] hm = tt
  erase-Capped k ((j, q) ∷ m) (hq, hm) = ground (arith, erase-Capped k m hm)

  pub find-mark-none :
      (now k : ℕ) (m : List (ℕ × PendingAck Value)) → find k m ≡ none → find k (mark now m).0 ≡ none
  unfolding find mark
  find-mark-none now k [] h = refl
  find-mark-none now k ((j, q) ∷ m) h = ground (arith, find-mark-none now k m)

  pub mark-Distinct :
      (now : ℕ) (m : List (ℕ × PendingAck Value)) → Distinct m → Distinct (mark now m).0
  unfolding mark
  mark-Distinct now [] d = tt
  mark-Distinct now ((j, q) ∷ m) (fresh, d) =
      ground (arith, find-mark-none now j m fresh, mark-Distinct now m d)

  pub mark-Capped : (now : ℕ) (m : List (ℕ × PendingAck Value)) → Capped m → Capped (mark now m).0
  unfolding mark
  mark-Capped now [] d = tt
  mark-Capped now ((j, q) ∷ m) (h, d) = ground (arith, mark-Capped now m d, ltb→lt q.retry_count 3)

  pub erase_all-Distinct :
      (ks : List ℕ) (m : List (ℕ × PendingAck Value)) → Distinct m → Distinct (erase_all ks m)
  unfolding erase_all
  erase_all-Distinct [] m d = d
  erase_all-Distinct (k ∷ ks) m d = erase_all-Distinct ks (erase k m) (erase-Distinct k m d)

  pub erase_all-Capped :
      (ks : List ℕ) (m : List (ℕ × PendingAck Value)) → Capped m → Capped (erase_all ks m)
  unfolding erase_all
  erase_all-Capped [] m d = d
  erase_all-Capped (k ∷ ks) m d = erase_all-Capped ks (erase k m) (erase-Capped k m d)

  pub check_for_timeouts-IsSound :
      (c : Connection Value) (now : ℕ) → IsSound c → IsSound (check_for_timeouts c now).0
  unfolding check_for_timeouts
  check_for_timeouts-IsSound c now h = record {
    distinct =
        erase_all-Distinct (mark now c.pending_acks).2 (mark now c.pending_acks).0
          (mark-Distinct now c.pending_acks h.distinct);
    capped =
        erase_all-Capped (mark now c.pending_acks).2 (mark now c.pending_acks).0
          (mark-Capped now c.pending_acks h.capped);
    identified = h.identified;
    settled = h.settled;
  }

  pub send_reliable_message-IsSound :
      (c : Connection Value) (m : Reliable Value) (d : Delivery) (now : ℕ)
      → IsSound c
      → IsSound (send_reliable_message c m d now).0
  unfolding send_reliable_message
  send_reliable_message-IsSound c m not_connected now h = h
  send_reliable_message-IsSound c m refused now h = record {
    distinct =
        erase-Distinct c.sequence_number _ (insert-Distinct c.sequence_number _ _ h.distinct);
    capped =
        erase-Capped c.sequence_number _
          (insert-Capped c.sequence_number _ _ (omega arith) h.capped);
    identified = h.identified;
    settled = h.settled;
  }
  send_reliable_message-IsSound c m accepted now h = record {
    distinct = insert-Distinct c.sequence_number _ _ h.distinct;
    capped = insert-Capped c.sequence_number _ _ (omega arith) h.capped;
    identified = h.identified;
    settled = h.settled;
  }

  pub new_connection-IsSound : (i t : ℕ) (ip : Bytes) → IsSound (new_connection Value i t ip)
  unfolding new_connection
  new_connection-IsSound i t ip = record {
    distinct = tt;
    capped = tt;
    identified = λ ne. absurd (ne refl);
    settled = λ ne. absurd (ne refl);
  }
