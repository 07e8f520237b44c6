-- ===== src/Bridge/Control/Gateways/Reached.antt =====
-- The events of the control plane in any order, and what holds after them.
use ros2_modular_edge_offloa.Common.{
  ℕ, Bool, ◌≡◌, refl, ◌⊎◌, inl, inr, arith, sym, subst, List, [], ◌∷◌, Bytes, Option-cases,
}
use ros2_modular_edge_offloa.Common.Eq.{nat_eq, bytes_eq}
use ros2_modular_edge_offloa.Common.Maps.{find}
use ros2_modular_edge_offloa.Bridge.Config.{GlobalConfig}
use ros2_modular_edge_offloa.Bridge.Json.{JsonAccess}
use ros2_modular_edge_offloa.Bridge.Routing.{get_destinations}
use ros2_modular_edge_offloa.Bridge.Sessions.{find_expired_sessions}
use ros2_modular_edge_offloa.Bridge.Connection.{
  Delivery, Effect, Forwarded, transmit, transmit_ack, disconnect_client, message_forwarder,
  dp_connect_callback, component_registration_callback,
}
use ros2_modular_edge_offloa.Bridge.Control.{
  ControlPlane, create_routing_rules_for_session, new_control_plane,
}
use ros2_modular_edge_offloa.Bridge.Control.Approval.{
  handle_om_message, handle_session_approved, handle_session_denied, forward_approval,
  forward_denial, approve_component, deny_component, assign_mec,
}
use ros2_modular_edge_offloa.Bridge.Control.Gateways.{
  send_om_message, register_component, establish_mgwcp_data_plane_connection,
  handle_new_mgwcp_connection, handle_mgwcp_disconnection, check_session_timeouts, open_session,
  forward_message_to_om, perform, perform_all, handle_mgwcp_message, session_timeout,
}
use ros2_modular_edge_offloa.Bridge.Control.Gateways.Owned.{
  Owned, IsOwned, create_transport_handler-Owned,
}
use ros2_modular_edge_offloa.Bridge.Control.Gateways.Rules.{create_rules-Owned, expire_all-Owned}

module _ (Value : Type 0) where
  pub data Event : Type 0 where
    -- a message of the manager
    om_message : Value → (ℕ → Delivery) → ℕ → Event
    connected : ℕ → Bytes → Bool → Event
    disconnected : ℕ → Bool → Event
    -- a message on a gateway's connection
    mgwcp_message : ℕ → Value → Delivery → Delivery → Bool → ℕ → Event
    maintenance : ℕ → Event

module _ {Value : Type 0} ⦃json : JsonAccess Value⦄ where
  abbrev pub after : ControlPlane Value → Event Value → ControlPlane Value
  after p (om_message message deliver now) = (handle_om_message p message deliver now).plane
  after p (connected t ip up) = (handle_new_mgwcp_connection p t ip up).0
  after p (disconnected t up) = (handle_mgwcp_disconnection p t up).0
  after p (mgwcp_message t message a d sent now) = (handle_mgwcp_message p t message a d sent now).0
  after p (maintenance now) = check_session_timeouts p now

  unfoldable pub after_all : ControlPlane Value → List (Event Value) → ControlPlane Value
  after_all p [] = p
  after_all p (e ∷ es) = after_all (after p e) es

module _ {Value : Type 0} where
  -- The handlers, the queues and the table are the same.
  abbrev Same : ControlPlane Value → ControlPlane Value → Type 0
  Same p q =
      (q.transport_handlers ≡ p.transport_handlers)
      × (q.next_queue ≡ p.next_queue)
      × (q.routing_table ≡ p.routing_table)

  Same-IsOwned : (p q : ControlPlane Value) → Same p q → IsOwned p → IsOwned q
  Same-IsOwned p q (h, n, t) o =
      subst (λ hs. Owned hs q.next_queue q.routing_table) (sym h)
        (subst (λ m. Owned p.transport_handlers m q.routing_table) (sym n)
          (subst (λ u. Owned p.transport_handlers p.next_queue u) (sym t) o))

  approve_component-Same :
      (p : ControlPlane Value) (id : Bytes) (payload : Value) (deliver : ℕ → Delivery) (now : ℕ)
      → Same p (approve_component p id payload deliver now).0
  unfolding approve_component
  approve_component-Same p id payload deliver now = ground arith

  deny_component-Same :
      (p : ControlPlane Value) (id r reason : Bytes) (deliver : ℕ → Delivery) (now : ℕ)
      → Same p (deny_component p id r reason deliver now).0
  unfolding deny_component
  deny_component-Same p id r reason deliver now = ground arith

  forward_approval-Same :
      (p : ControlPlane Value) (r : Bytes) (payload : Value) (deliver : ℕ → Delivery) (now : ℕ)
      → Same p (forward_approval p r payload deliver now).plane
  unfolding forward_approval
  forward_approval-Same p r payload deliver now = grind (arith, approve_component-Same)

  forward_denial-Same :
      (p : ControlPlane Value) (r reason : Bytes) (deliver : ℕ → Delivery) (now : ℕ)
      → Same p (forward_denial p r reason deliver now).plane
  unfolding forward_denial
  forward_denial-Same p r reason deliver now = grind (arith, deny_component-Same)

  new-Same :
      (p : ControlPlane Value) (t : ℕ) (ip : Bytes) (up : Bool)
      → Same p (handle_new_mgwcp_connection p t ip up).0
  unfolding handle_new_mgwcp_connection
  new-Same p t ip up = (refl, refl, refl)

  lost-Same :
      (p : ControlPlane Value) (t : ℕ) (up : Bool) → Same p (handle_mgwcp_disconnection p t up).0
  unfolding handle_mgwcp_disconnection
  lost-Same p t up = ground arith

  send_om-Same :
      (p : ControlPlane Value) (m : Forwarded Value) (sent : Bool)
      → Same p (send_om_message p m sent).0
  unfolding send_om_message
  send_om-Same p m sent = ground arith

module _ {Value : Type 0} ⦃json : JsonAccess Value⦄ where
  forward_om-Same :
      (p : ControlPlane Value) (id : Bytes) (m : Forwarded Value) (sent : Bool) (now : ℕ)
      → Same p (forward_message_to_om p id m sent now).plane
  unfolding forward_message_to_om open_session
  forward_om-Same p id m sent now = grind (arith, send_om-Same)

  denied-Same :
      (p : ControlPlane Value) (m : Value) (deliver : ℕ → Delivery) (now : ℕ)
      → Same p (handle_session_denied p m deliver now).plane
  unfolding handle_session_denied
  denied-Same p m deliver now = grind (arith, forward_denial-Same)

  -- The payload is read, or nothing happens.
  approved_cases :
      (p : ControlPlane Value) (m : Value) (deliver : ℕ → Delivery) (now : ℕ)
      → ((handle_session_approved p m deliver now).plane ≡ p)
        ⊎ ((r : Bytes) × (payload : Value) × (handle_session_approved p m deliver now
              ≡ forward_approval
                  (create_routing_rules_for_session
                    (record p { session_manager = assign_mec p.session_manager r payload })
                    r)
                  r
                  payload
                  deliver
                  now))
  unfolding handle_session_approved
  approved_cases p m deliver now = grind arith

  approved-Owned :
      (p : ControlPlane Value) (m : Value) (deliver : ℕ → Delivery) (now : ℕ)
      → IsOwned p
      → IsOwned (handle_session_approved p m deliver now).plane
  approved-Owned p m deliver now o = elim (approved_cases p m deliver now) [
    | inl same ↦ rw same o
    | inr (r, payload, eq) ↦
        let q : ControlPlane Value = record p {
          session_manager = assign_mec p.session_manager r payload;
        } in
        let made = create_routing_rules_for_session q r in
        rw eq (
          Same-IsOwned made (forward_approval made r payload deliver now).plane
            (forward_approval-Same made r payload deliver now) (create_rules-Owned q r o))
  ]

  perform-Owned :
      (p : ControlPlane Value) (t : ℕ) (e : Effect Value) (sent : Bool) (now : ℕ)
      → IsOwned p
      → IsOwned (perform p t e sent now).0
  unfolding perform establish_mgwcp_data_plane_connection register_component
  perform-Owned p t (transmit m n) sent now o = o
  perform-Owned p t (transmit_ack id n) sent now o = o
  perform-Owned p t (disconnect_client id) sent now o = o
  perform-Owned p t (message_forwarder id m) sent now o =
      Same-IsOwned p (forward_message_to_om p id m sent now).plane (forward_om-Same p id m sent now)
        o
  perform-Owned p t (dp_connect_callback id host port r) sent now o =
      create_transport_handler-Owned p id host port o
  perform-Owned p t (component_registration_callback id n) sent now o = o

  perform_all-Owned :
      (p : ControlPlane Value) (t : ℕ) (es : List (Effect Value)) (sent : Bool) (now : ℕ)
      → IsOwned p
      → IsOwned (perform_all p t es sent now).0
  unfolding perform_all
  perform_all-Owned p t [] sent now o = o
  perform_all-Owned p t (e ∷ es) sent now o =
      perform_all-Owned (perform p t e sent now).0 t es sent now (perform-Owned p t e sent now o)

  message-Owned :
      (p : ControlPlane Value) (t : ℕ) (m : Value) (a d : Delivery) (sent : Bool) (now : ℕ)
      → IsOwned p
      → IsOwned (handle_mgwcp_message p t m a d sent now).0
  unfolding handle_mgwcp_message
  message-Owned p t m a d sent now o = elim (Option-cases (find t p.mgwcp_connections)) [
    | inl none_there ↦ rw (handle_mgwcp_message, none_there) o
    | inr (c, there) ↦ rw (handle_mgwcp_message, there) (perform_all-Owned _ t _ sent now o)
  ]

  om_cases :
      (p : ControlPlane Value) (m : Value) (deliver : ℕ → Delivery) (now : ℕ)
      → ((handle_om_message p m deliver now).plane ≡ p)
        ⊎ (((handle_om_message p m deliver now).plane
              ≡ (handle_session_approved p m deliver now).plane)
            ⊎ ((handle_om_message p m deliver now).plane
                ≡ (handle_session_denied p m deliver now).plane))
  unfolding handle_om_message
  om_cases p m deliver now = ground arith

  om-Owned :
      (p : ControlPlane Value) (m : Value) (deliver : ℕ → Delivery) (now : ℕ)
      → IsOwned p
      → IsOwned (handle_om_message p m deliver now).plane
  unfolding handle_om_message
  om-Owned p m deliver now o =
      let q = (handle_session_denied p m deliver now).plane in
      let denied = Same-IsOwned p q (denied-Same p m deliver now) o in
      elim (om_cases p m deliver now) [
        | inl same ↦ rw same o
        | inr (inl a) ↦ rw a (approved-Owned p m deliver now o)
        | inr (inr d) ↦ rw d denied
      ]

  after-Owned : (p : ControlPlane Value) (e : Event Value) → IsOwned p → IsOwned (after p e)
  unfolding check_session_timeouts
  after-Owned p (om_message m deliver now) o = om-Owned p m deliver now o
  after-Owned p (connected t ip up) o =
      Same-IsOwned p (handle_new_mgwcp_connection p t ip up).0 (new-Same p t ip up) o
  after-Owned p (disconnected t up) o =
      Same-IsOwned p (handle_mgwcp_disconnection p t up).0 (lost-Same p t up) o
  after-Owned p (mgwcp_message t m a d sent now) o = message-Owned p t m a d sent now o
  after-Owned p (maintenance now) o =
      expire_all-Owned p (find_expired_sessions p.session_manager session_timeout now) o

  after_all-Owned :
      (p : ControlPlane Value) (es : List (Event Value)) → IsOwned p → IsOwned (after_all p es)
  unfolding after_all
  after_all-Owned p [] o = o
  after_all-Owned p (e ∷ es) o = after_all-Owned (after p e) es (after-Owned p e o)

  -- After any events, in any order: each transport handler stands under the id of its gateway and has a queue of
  -- its own, and each route of the routing table leads to the queue of a handler.
  pub reached-IsOwned :
      (config : GlobalConfig) (es : List (Event Value))
      → IsOwned (after_all (new_control_plane config) es)
  unfolding new_control_plane find get_destinations
  reached-IsOwned config es =
      after_all-Owned (new_control_plane config) es (record {
        named = λ id h found. cc;
        separate = λ id jd h g found same. cc;
        routed = λ k. tt;
      })
