-- ===== src/Bridge/Connection/Order.antt =====
-- The order of a connection's calls: no offload request goes on before the data plane is connected, and a
-- connection that has failed to connect it never forwards one.
use ros2_modular_edge_offloa.Common.{
  ℕ, Bool, true, false, ◌||◌, ◌≡◌, refl, ◌∙◌, ◌⊎◌, inl, inr, arith, Option, none, some, List, [],
  ◌∷◌, ◌++◌, Bytes, ◌==◌, if◌then◌else◌, Option-cases,
}
use ros2_modular_edge_offloa.Common.Int.{ℤ}
use ros2_modular_edge_offloa.Common.Eq.{nat_eq}
use ros2_modular_edge_offloa.Bridge.Json.{JsonAccess}
use ros2_modular_edge_offloa.Bridge.Sessions.{SessionManager}
use ros2_modular_edge_offloa.Bridge.Connection.{
  Connection, Delivery, not_connected, refused, accepted, PendingAck, Effect, transmit,
  transmit_ack, disconnect_client, message_forwarder, dp_connect_callback,
  component_registration_callback, set_state, send_reliable_message, send_dp_connection_confirmed,
  send_ack, resend, check_for_timeouts, mark, erase_all,
}
use ros2_modular_edge_offloa.Bridge.Connection.Handlers.{
  Env, Handled, Status, returned, raised, handle_dp_info, handle_offload_request,
  handle_session_keepalive, handle_session_terminate_request, handle_ack, handle_code, acknowledge,
  identify, handle_received_message, connect_data_plane, is_connecting, is_operational,
}
use ros2_modular_edge_offloa.Bridge.Connection.Thread.{
  Round, Incoming, nothing, end_of_stream, receive_error, bytes, handle_incoming, loop_body,
  connection_thread_func, then_check,
}
use ros2_modular_edge_offloa.Bridge.Connection.Invariant.{handle_dp_info_cases}

status_cases : (t : Status) → (t ≡ returned) ⊎ (t ≡ raised)
status_cases returned = inl refl
status_cases raised = inr refl

abbrev pub says_yes : Option Bool → Bool
says_yes none = false
says_yes (some r) = r

module _ {Value : Type 0} where
  -- Reads the calls in order. `opened` says whether a call of the data-plane callback has returned true; an
  -- offload request that goes on before that gives none.
  unfoldable pub audit : Bool → List (Effect Value) → Option Bool
  audit opened [] = some opened
  audit opened (transmit m seq_num ∷ es) = audit opened es
  audit opened (transmit_ack id n ∷ es) = audit opened es
  audit opened (disconnect_client id ∷ es) = audit opened es
  audit opened (message_forwarder id m ∷ es) =
      let rest = audit opened es in
      if m.message_code == 100 then (if opened then rest else none) else rest
  audit opened (dp_connect_callback id host port r ∷ es) = audit (opened || says_yes r) es
  audit opened (component_registration_callback id n ∷ es) = audit opened es

  audit-append :
      (o p : Bool) (xs ys : List (Effect Value))
      → audit o xs ≡ some p
      → audit o (xs ++ ys) ≡ audit p ys
  unfolding audit
  audit-append o p [] ys h = cc
  audit-append o p (transmit m n ∷ xs) ys h = audit-append o p xs ys h
  audit-append o p (transmit_ack id n ∷ xs) ys h = audit-append o p xs ys h
  audit-append o p (disconnect_client id ∷ xs) ys h = audit-append o p xs ys h
  audit-append o p (message_forwarder id m ∷ xs) ys h = ground (arith, audit-append o p xs ys)
  audit-append o p (dp_connect_callback id host port r ∷ xs) ys h =
      audit-append (o || says_yes r) p xs ys h
  audit-append o p (component_registration_callback id n ∷ xs) ys h = audit-append o p xs ys h

  audit-resend :
      (o : Bool) (m : List (ℕ × PendingAck Value)) (ks : List ℕ) → audit o (resend m ks) ≡ some o
  unfolding audit resend
  audit-resend o m [] = refl
  audit-resend o m (k ∷ ks) = ground (arith, audit-resend o m ks)

  audit-check :
      (o : Bool) (c : Connection Value) (now : ℕ) → audit o (check_for_timeouts c now).1 ≡ some o
  unfolding check_for_timeouts
  audit-check o c now =
      audit-resend o (erase_all (mark now c.pending_acks).2 (mark now c.pending_acks).0)
        (mark now c.pending_acks).1

  audit-send_ack :
      (o : Bool) (c : Connection Value) (n : ℕ) (d : Delivery) → audit o (send_ack c n d) ≡ some o
  unfolding audit send_ack
  audit-send_ack o c n not_connected = refl
  audit-send_ack o c n refused = refl
  audit-send_ack o c n accepted = refl

  -- The calls fit the states of the connection before and behind them.
  abbrev Fits : Connection Value → Handled Value → Type 0
  Fits c h = audit (is_operational c.state) h.effects ≡ some (is_operational h.connection.state)

  connect_data_plane-Fits :
      (c : Connection Value) (s : SessionManager) (e : Env)
      → is_connecting c.state ≡ true
      → Fits c (connect_data_plane c s e)
  unfolding connect_data_plane send_dp_connection_confirmed send_reliable_message set_state audit
  connect_data_plane-Fits c s e h = ground arith

module _ {Value : Type 0} ⦃json : JsonAccess Value⦄ where
  handle_dp_info-Fits :
      (c : Connection Value) (s : SessionManager) (payload : Value) (e : Env)
      → Fits c (handle_dp_info c s payload e)
  unfolding audit
  handle_dp_info-Fits c s payload e = elim (handle_dp_info_cases c s payload e) [
    | inl (same, silent) ↦ rw (same, silent, audit) refl
    | inr (first, host, port, eq) ↦
        rw eq (connect_data_plane-Fits (record c { dp_host = host; dp_port = port }) s e first)
  ]

  handle_offload_request-Fits :
      (c : Connection Value) (s : SessionManager) (payload : Value)
      → Fits c (handle_offload_request c s payload)
  unfolding handle_offload_request audit
  handle_offload_request-Fits c s payload = ground arith

  keepalive-Fits :
      (c : Connection Value) (s : SessionManager) (payload : Value) (now : ℕ)
      → Fits c (handle_session_keepalive c s payload now)
  unfolding handle_session_keepalive audit
  keepalive-Fits c s payload now = ground arith

  terminate-Fits :
      (c : Connection Value) (s : SessionManager) (payload : Value)
      → Fits c (handle_session_terminate_request c s payload)
  unfolding handle_session_terminate_request audit
  terminate-Fits c s payload = ground arith

  handle_ack-Fits :
      (c : Connection Value) (s : SessionManager) (payload : Value)
      → Fits c (handle_ack c s payload)
  unfolding handle_ack audit
  handle_ack-Fits c s payload = ground arith

  handle_code-Fits :
      (c : Connection Value) (s : SessionManager) (code : ℤ) (payload : Value) (e : Env)
      → Fits c (handle_code c s code payload e)
  unfolding handle_code audit
  handle_code-Fits c s code payload e = ground (
    arith,
    handle_dp_info-Fits c s payload e,
    handle_offload_request-Fits c s payload,
    keepalive-Fits c s payload e.now,
    terminate-Fits c s payload,
    handle_ack-Fits c s payload,
  )

  acknowledge-Fits :
      (c : Connection Value) (s : SessionManager) (code : ℤ) (n : ℕ) (payload : Value) (e : Env)
      → Fits c (acknowledge c s code n payload e)
  acknowledge-Fits c s code n payload e =
      audit-append (is_operational c.state) (is_operational c.state) (send_ack c n e.ack_delivery)
        (handle_code c s code payload e).effects
        (audit-send_ack (is_operational c.state) c n e.ack_delivery)
      ∙ handle_code-Fits c s code payload e

  identify-Fits :
      (c : Connection Value) (s : SessionManager) (id : Bytes) (code : ℤ) (n : ℕ) (payload : Value)
      (e : Env)
      → Fits c (identify c s id code n payload e)
  unfolding audit
  identify-Fits c s id code n payload e = ground (
    arith,
    acknowledge-Fits c s code n payload e,
    acknowledge-Fits (record c { component_id = id }) s code n payload e,
  )

  handle_received_message-Fits :
      (c : Connection Value) (s : SessionManager) (message : Value) (e : Env)
      → Fits c (handle_received_message c s message e)
  unfolding handle_received_message audit
  handle_received_message-Fits c s message e = grind (arith, handle_ack-Fits, identify-Fits)

  then_check-Fits :
      (c : Connection Value) (h : Handled Value) (now : ℕ) → Fits c h → Fits c (then_check h now)
  unfolding check_for_timeouts
  then_check-Fits c h now f = elim (status_cases h.status) [
    | inl ok ↦ rw ok (
        audit-append (is_operational c.state) (is_operational h.connection.state) h.effects
          (check_for_timeouts h.connection now).1 f
        ∙ audit-check (is_operational h.connection.state) h.connection now)
    | inr bad ↦ rw bad f
  ]

  handle_incoming-Fits :
      (c : Connection Value) (s : SessionManager) (i : Incoming) (e : Env)
      → Fits c (handle_incoming c s i e)
  unfolding handle_incoming audit
  handle_incoming-Fits c s nothing e = refl
  handle_incoming-Fits c s end_of_stream e = refl
  handle_incoming-Fits c s receive_error e = refl
  handle_incoming-Fits c s (bytes b) e = elim (Option-cases (json.parse b)) [
    | inl bad ↦ rw bad refl
    | inr (m, good) ↦ rw good (handle_received_message-Fits c s m e)
  ]

  loop_body-Fits :
      (c : Connection Value) (s : SessionManager) (r : Round) → Fits c (loop_body c s r)
  unfolding loop_body
  loop_body-Fits c s r =
      then_check-Fits c (handle_incoming c s r.incoming r.env) r.checked_at
        (handle_incoming-Fits c s r.incoming r.env)

  -- In any run of the thread an offload request goes on only if the data plane was connected before the run, or
  -- an earlier call of the data-plane callback has returned true; and a connection that was connecting or waiting is
  -- operational at the end exactly if such a call has.
  pub connection_thread_func-audit :
      (c : Connection Value) (s : SessionManager) (rounds : List Round)
      → audit (is_operational c.state) (connection_thread_func c s rounds).effects
        ≡ some (is_operational (connection_thread_func c s rounds).connection.state)
  unfolding connection_thread_func audit
  connection_thread_func-audit c s [] = refl
  connection_thread_func-audit c s (r ∷ rounds) =
      let h = loop_body c s r in
      ground (
        arith,
        loop_body-Fits c s r,
        audit-append (is_operational c.state) (is_operational h.connection.state) h.effects
            (connection_thread_func h.connection h.sessions rounds).effects,
        connection_thread_func-audit h.connection h.sessions rounds,
      )
