-- ===== src/Bridge/Transport/Loop/Attempt.antt =====
-- The retries of one connection attempt, and the cycles after which the handler gives up.
use ros2_modular_edge_offloa.Common.{
  ℕ, zero, suc, ◌+◌, ◌<◌, Bool, true, false, ◌≡◌, refl, ◌∙◌, arith, List, [], ◌∷◌, ◌++◌, All,
  append-nil, length,
}
use ros2_modular_edge_offloa.Bridge.Routing.{RoutingTable}
use ros2_modular_edge_offloa.Bridge.Transport.{
  TransportHandler, Action, connect, notify_disconnected, permanent_failure,
}
use ros2_modular_edge_offloa.Bridge.Transport.Loop.{
  Env, again, leave, attempts, attempt_connection, reconnect, iterate, run_internal,
  perform_handshake,
}

-- `n` calls of connect().
pub connect_calls : ℕ → List Action
connect_calls zero = []
connect_calls (suc n) = connect ∷ connect_calls n

attempts_first :
    (h : TransportHandler) (connects : ℕ → Bool) (left i k : ℕ)
    → h.shutdown_requested ≡ false
    → k < left
    → ((j : ℕ) → j < k → connects (i + j) ≡ false)
    → connects (i + k) ≡ true
    → attempts h connects left i ≡ (true, connect_calls (suc k))
unfolding attempts perform_handshake connect_calls
attempts_first h connects zero i k runs lt fails ok = absurd (omega arith)
attempts_first h connects (suc left) i zero runs lt fails ok =
    let e : i + 0 ≡ i = omega arith in
    let ok' : connects i ≡ true = rw e at ok in rw (runs, ok') refl
attempts_first h connects (suc left) i (suc k) runs lt fails ok =
    let e : i + 0 ≡ i = omega arith in
    let s : i + suc k ≡ suc i + k = omega arith in
    let no_i : connects i ≡ false = rw e at (fails 0 (omega arith)) in
    let ok' : connects (suc i + k) ≡ true = rw s at ok in
    rw (runs, no_i)
      (rw
        (attempts_first h connects left (suc i) k runs (omega arith)
          (λ j lt'.
            let s' : i + suc j ≡ suc i + j = omega arith in rw s' at (fails (suc j) (omega arith)))
          ok')
        refl)

attempts_none :
    (h : TransportHandler) (connects : ℕ → Bool) (left i : ℕ)
    → h.shutdown_requested ≡ false
    → ((j : ℕ) → connects j ≡ false)
    → attempts h connects left i ≡ (false, connect_calls left)
unfolding attempts connect_calls
attempts_none h connects zero i runs fails = refl
attempts_none h connects (suc left) i runs fails =
    rw (runs, fails i) (rw (attempts_none h connects left (suc i) runs fails) refl)

-- An attempt succeeds at the first of its retries at which connect() does, and calls connect() no more, if
-- the handler is not told to stop.
pub attempt_connection_first :
    (h : TransportHandler) (connects : ℕ → Bool) (k : ℕ)
    → h.shutdown_requested ≡ false
    → k < h.connect_max_retries
    → ((j : ℕ) → j < k → connects j ≡ false)
    → connects k ≡ true
    → attempt_connection h connects ≡ (true, connect_calls (suc k))
unfolding attempt_connection
attempt_connection_first h connects k runs lt fails ok =
    let z = λ (j : ℕ). let e : 0 + j ≡ j = omega arith in e in
    attempts_first h connects h.connect_max_retries 0 k runs lt (λ j l. rw (z j) (fails j l))
      (rw (z k) ok)

-- The world of a cycle in which no connection can be made.
abbrev pub IsDead : Env → Type 0
IsDead e = (j : ℕ) → e.connects j ≡ false

-- What `n` such cycles call.
pub dead_calls : ℕ → ℕ → List Action
dead_calls retries zero = []
dead_calls retries (suc zero) = connect_calls retries ++ notify_disconnected permanent_failure ∷ []
dead_calls retries (suc (suc n)) = connect_calls retries ++ dead_calls retries (suc n)

-- A handler whose thread is between two cycles, with `n` more cycles to fail before it gives up.
pub record IsTrying (h : TransportHandler) (n : ℕ) : Type 0 where
  pub runs : h.shutdown_requested ≡ false
  pub off : h.connected_status ≡ false
  pub down : h.tcp_up ≡ false
  pub cycles : h.failed_connect_cycles + n ≡ h.max_connect_cycles

module _ (t : RoutingTable) (h : TransportHandler) (e : Env) (dead : IsDead e) where
  one_more : TransportHandler
  one_more = record h { failed_connect_cycles = h.failed_connect_cycles + 1 }

  iterate_last :
      IsTrying h 1
      → iterate t h e ≡ (
        one_more,
        connect_calls h.connect_max_retries ++ notify_disconnected permanent_failure ∷ [],
        leave,
      )
  unfolding iterate reconnect attempt_connection one_more
  iterate_last w = ground (arith, attempts_none h e.connects h.connect_max_retries 0 w.runs dead)

  iterate_more :
      (n : ℕ)
      → IsTrying h (suc (suc n))
      → iterate t h e ≡ (one_more, connect_calls h.connect_max_retries, again)
  unfolding iterate reconnect attempt_connection one_more
  iterate_more n w = ground (arith, attempts_none h e.connects h.connect_max_retries 0 w.runs dead)

  one_more-IsTrying : (n : ℕ) → IsTrying h (suc n) → IsTrying one_more n
  unfolding one_more
  one_more-IsTrying n w = record {
    runs = w.runs;
    off = w.off;
    down = w.down;
    cycles = omega (arith, w.cycles);
  }

  run_last :
      (later : List Env)
      → IsTrying h 1
      → run_internal t h (e ∷ later) ≡ (
        record h { failed_connect_cycles = h.max_connect_cycles },
        connect_calls h.connect_max_retries ++ notify_disconnected permanent_failure ∷ [],
        true,
      )
  unfolding run_internal one_more
  run_last later w = ground (
    arith,
    iterate_last w,
    append-nil (connect_calls h.connect_max_retries ++ notify_disconnected permanent_failure ∷ []),
  )

  run_more :
      (n : ℕ) (later : List Env)
      → IsTrying h (suc (suc n))
      → run_internal t h (e ∷ later) ≡ (
        (run_internal t one_more later).0,
        connect_calls h.connect_max_retries ++ (run_internal t one_more later).1,
        (run_internal t one_more later).2,
      )
  unfolding run_internal
  run_more n later w = ground (arith, iterate_more n w)

-- With no connection to be had, and no stop, the thread of a handler that is not connected ends after exactly the cycles that were left to it, each with all
-- its retries, tells the observer once, and needs nothing of the rounds that were to follow.
pub run_internal_gives_up :
    (t : RoutingTable) (h : TransportHandler) (n : ℕ) (es later : List Env)
    → IsTrying h (suc n)
    → All IsDead es
    → length es ≡ suc n
    → run_internal t h (es ++ later) ≡ (
      record h { failed_connect_cycles = h.max_connect_cycles },
      dead_calls h.connect_max_retries (suc n),
      true,
    )
unfolding run_internal dead_calls
run_internal_gives_up t h n [] later w dead l = absurd (omega arith)
run_internal_gives_up t h zero (e ∷ []) later w (dead, _) l = run_last t h e dead later w
run_internal_gives_up t h (suc n) (e ∷ []) later w (dead, _) l = absurd (omega arith)
run_internal_gives_up t h zero (e ∷ x ∷ es) later w dead l = absurd (omega arith)
run_internal_gives_up t h (suc n) (e ∷ x ∷ es) later w (dead, deads) l =
    let h' = one_more t h e dead in
    let w' = one_more-IsTrying t h e dead (suc n) w in
    run_more t h e dead n (x ∷ es ++ later) w
    ∙ rw (run_internal_gives_up t h' n (x ∷ es) later w' deads (omega arith))
        (unfold one_more in refl)
