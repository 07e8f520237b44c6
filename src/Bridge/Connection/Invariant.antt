-- ===== src/Bridge/Connection/Invariant.antt =====
-- The invariant of a connection is kept by every message and by the whole thread.
use ros2_modular_edge_offloa.Common.{
  ℕ, true, false, ◌≡◌, ◌≢◌, ◌⊎◌, inl, inr, arith, List, [], ◌∷◌, Bytes, Bool-cases, Option-cases,
}
use ros2_modular_edge_offloa.Common.Int.{ℤ}
use ros2_modular_edge_offloa.Common.Eq.{nat_eq, bytes_beq}
use ros2_modular_edge_offloa.Common.Maps.Distinct.{erase-Distinct}
use ros2_modular_edge_offloa.Common.Split.{split_first}
use ros2_modular_edge_offloa.Bridge.Json.{JsonAccess}
use ros2_modular_edge_offloa.Bridge.Sessions.{SessionManager}
use ros2_modular_edge_offloa.Bridge.Connection.{
  Connection, ConnectionState, waiting_for_dp, operational, is_valid_component_id, set_state,
  send_dp_connection_confirmed, dp_connection_confirmed,
}
use ros2_modular_edge_offloa.Bridge.Connection.Handlers.{
  Env, Handled, handle_dp_info, handle_offload_request, handle_session_keepalive,
  handle_session_terminate_request, handle_ack, handle_code, identify, handle_received_message,
  connect_data_plane, is_connecting, is_empty,
}
use ros2_modular_edge_offloa.Bridge.Connection.Thread.{
  Round, Incoming, nothing, end_of_stream, receive_error, bytes, handle_incoming, loop_body,
  connection_thread_func, then_check,
}
use ros2_modular_edge_offloa.Bridge.Connection.Pending.{
  IsSound, erase-Capped, check_for_timeouts-IsSound, send_reliable_message-IsSound,
}

pub is_valid_component_id_ne : (id : Bytes) → is_valid_component_id id ≡ true → id ≢ []
unfolding is_valid_component_id split_first
is_valid_component_id_ne [] v = cc
is_valid_component_id_ne (b ∷ id) v = cc

pub is_empty_ne : (s : Bytes) → is_empty s ≡ false → s ≢ []
is_empty_ne [] h = cc
is_empty_ne (b ∷ s) h = cc

module _ {Value : Type 0} where
  pub set_state-IsSound :
      (c : Connection Value) (new_state : ConnectionState)
      → c.component_id ≢ []
      → IsSound c
      → IsSound (set_state c new_state)
  unfolding set_state
  set_state-IsSound c new_state ne h = record {
    distinct = h.distinct;
    capped = h.capped;
    identified = h.identified;
    settled = λ _. ne;
  }

  connect_data_plane-IsSound :
      (c : Connection Value) (s : SessionManager) (e : Env)
      → c.component_id ≢ []
      → IsSound c
      → IsSound (connect_data_plane c s e).connection
  unfolding connect_data_plane send_dp_connection_confirmed
  connect_data_plane-IsSound c s e ne h = ground (
    arith,
    h,
    set_state-IsSound c waiting_for_dp ne h,
    send_reliable_message-IsSound (set_state c operational) dp_connection_confirmed e.delivery e.now
        (set_state-IsSound c operational ne h),
  )

  change_dp-IsSound :
      (c : Connection Value) (host : Bytes) (port : ℤ)
      → IsSound c
      → IsSound (record c { dp_host = host; dp_port = port })
  change_dp-IsSound c host port h = record {
    distinct = h.distinct;
    capped = h.capped;
    identified = h.identified;
    settled = h.settled;
  }

module _ {Value : Type 0} ⦃json : JsonAccess Value⦄ where
  -- A DP_INFO changes nothing, or its host and port are taken and the data plane is tried.
  pub handle_dp_info_cases :
      (c : Connection Value) (s : SessionManager) (payload : Value) (e : Env)
      → (((handle_dp_info c s payload e).connection ≡ c)
          × ((handle_dp_info c s payload e).effects ≡ []))
        ⊎ ((is_connecting c.state ≡ true)
            × (host : Bytes) × (port : ℤ) × (handle_dp_info c s payload e
                ≡ connect_data_plane (record c { dp_host = host; dp_port = port }) s e))
  unfolding handle_dp_info
  handle_dp_info_cases c s payload e = grind arith

  handle_dp_info-IsSound :
      (c : Connection Value) (s : SessionManager) (payload : Value) (e : Env)
      → c.component_id ≢ []
      → IsSound c
      → IsSound (handle_dp_info c s payload e).connection
  handle_dp_info-IsSound c s payload e ne h = elim (handle_dp_info_cases c s payload e) [
    | inl (same, _) ↦ rw same h
    | inr (_, host, port, eq) ↦
        rw eq (connect_data_plane-IsSound _ s e ne (change_dp-IsSound c host port h))
  ]

  handle_offload_request-IsSound :
      (c : Connection Value) (s : SessionManager) (payload : Value)
      → IsSound c
      → IsSound (handle_offload_request c s payload).connection
  unfolding handle_offload_request
  handle_offload_request-IsSound c s payload h = ground arith

  handle_ack-IsSound :
      (c : Connection Value) (s : SessionManager) (payload : Value)
      → IsSound c
      → IsSound (handle_ack c s payload).connection
  unfolding handle_ack
  handle_ack-IsSound c s payload h = grind (arith, erase-Distinct, erase-Capped)

  keepalive-IsSound :
      (c : Connection Value) (s : SessionManager) (payload : Value) (now : ℕ)
      → IsSound c
      → IsSound (handle_session_keepalive c s payload now).connection
  unfolding handle_session_keepalive
  keepalive-IsSound c s payload now h = ground arith

  terminate-IsSound :
      (c : Connection Value) (s : SessionManager) (payload : Value)
      → IsSound c
      → IsSound (handle_session_terminate_request c s payload).connection
  unfolding handle_session_terminate_request
  terminate-IsSound c s payload h = ground arith

  handle_code-IsSound :
      (c : Connection Value) (s : SessionManager) (code : ℤ) (payload : Value) (e : Env)
      → c.component_id ≢ []
      → IsSound c
      → IsSound (handle_code c s code payload e).connection
  unfolding handle_code
  handle_code-IsSound c s code payload e ne h = grind (
    arith,
    handle_dp_info-IsSound c s payload e ne h,
    handle_offload_request-IsSound c s payload h,
    keepalive-IsSound c s payload e.now h,
    terminate-IsSound c s payload h,
    handle_ack-IsSound c s payload h,
  )

  name-IsSound :
      (c : Connection Value) (id : Bytes)
      → is_valid_component_id id ≡ true
      → IsSound c
      → IsSound (record c { component_id = id })
  name-IsSound c id v h = record {
    distinct = h.distinct;
    capped = h.capped;
    identified = λ _. v;
    settled = λ _. is_valid_component_id_ne id v;
  }

  identify-IsSound :
      (c : Connection Value) (s : SessionManager) (id : Bytes) (code : ℤ) (n : ℕ) (payload : Value)
      (e : Env)
      → IsSound c
      → IsSound (identify c s id code n payload e).connection
  identify-IsSound c s id code n payload e h = elim (Bool-cases (is_empty c.component_id)) [
    | inl empty ↦ rw empty (elim (Bool-cases (is_valid_component_id id)) [
      | inl v ↦ rw v (
          handle_code-IsSound (record c { component_id = id }) s code payload e
            (is_valid_component_id_ne id v) (name-IsSound c id v h))
      | inr w ↦ rw w h
    ])
    | inr known ↦ rw known (elim (Bool-cases (bytes_beq c.component_id id)) [
      | inl same ↦
          rw same (handle_code-IsSound c s code payload e (is_empty_ne c.component_id known) h)
      | inr other ↦ rw other h
    ])
  ]

  pub handle_received_message-IsSound :
      (c : Connection Value) (s : SessionManager) (message : Value) (e : Env)
      → IsSound c
      → IsSound (handle_received_message c s message e).connection
  unfolding handle_received_message
  handle_received_message-IsSound c s message e h =
      grind (arith, handle_ack-IsSound, identify-IsSound)

  handle_incoming-IsSound :
      (c : Connection Value) (s : SessionManager) (i : Incoming) (e : Env)
      → IsSound c
      → IsSound (handle_incoming c s i e).connection
  unfolding handle_incoming
  handle_incoming-IsSound c s nothing e h = h
  handle_incoming-IsSound c s end_of_stream e h = h
  handle_incoming-IsSound c s receive_error e h = h
  handle_incoming-IsSound c s (bytes b) e h = elim (Option-cases (json.parse b)) [
    | inl bad ↦ rw bad h
    | inr (m, good) ↦ rw good (handle_received_message-IsSound c s m e h)
  ]

  then_check-IsSound :
      (h : Handled Value) (now : ℕ) → IsSound h.connection → IsSound (then_check h now).connection
  then_check-IsSound h now i = ground (arith, check_for_timeouts-IsSound h.connection now i)

  loop_body-IsSound :
      (c : Connection Value) (s : SessionManager) (r : Round)
      → IsSound c
      → IsSound (loop_body c s r).connection
  unfolding loop_body
  loop_body-IsSound c s r h =
      then_check-IsSound (handle_incoming c s r.incoming r.env) r.checked_at
        (handle_incoming-IsSound c s r.incoming r.env h)

  -- The thread keeps a connection sound, whatever it receives: pending messages have distinct numbers and have been
  -- repeated at most three times, the id of the component is empty or a valid one, and only a connection with an id
  -- has left the first state.
  pub connection_thread_func-IsSound :
      (c : Connection Value) (s : SessionManager) (rounds : List Round)
      → IsSound c
      → IsSound (connection_thread_func c s rounds).connection
  unfolding connection_thread_func
  connection_thread_func-IsSound c s [] h = h
  connection_thread_func-IsSound c s (r ∷ rounds) h = ground (
    arith,
    loop_body-IsSound c s r h,
    connection_thread_func-IsSound (loop_body c s r).connection (loop_body c s r).sessions rounds,
  )
