-- ===== src/Bridge/Control/Gateways.antt =====
-- The gateways' connections to the control plane: a new one, its messages with the callbacks put in, its end.
pub mod Reconnect
pub mod Owned
pub mod Rules
pub mod Reached
use ros2_modular_edge_offloa.Common.{
  ℕ, suc, ◌+◌, Bool, true, false, not, ◌&&◌, ◌||◌, Option, none, some, List, [], ◌∷◌, ◌++◌, Bytes,
  map, ◌==◌, if◌then◌else◌,
}
use ros2_modular_edge_offloa.Common.Eq.{nat_eq, bytes_eq}
use ros2_modular_edge_offloa.Common.Maps.{find, insert, erase}
use ros2_modular_edge_offloa.Common.Int.{ℤ}
use ros2_modular_edge_offloa.Bridge.Json.{JsonAccess}
use ros2_modular_edge_offloa.Bridge.Routing.{RoutingTable}
use ros2_modular_edge_offloa.Bridge.Sessions.{
  SessionManager, create_session, find_expired_sessions, remove_session,
}
use ros2_modular_edge_offloa.Bridge.Transport.{TransportHandler}
use ros2_modular_edge_offloa.Bridge.Connection.{
  Connection, new_connection, Delivery, Effect, Forwarded, transmit, transmit_ack,
  disconnect_client, message_forwarder, dp_connect_callback, component_registration_callback,
}
use ros2_modular_edge_offloa.Bridge.Connection.Handlers.{
  Env, Handled, Status, returned, raised, handle_received_message,
}
use ros2_modular_edge_offloa.Bridge.Connection.Thread.{start, stop}
use ros2_modular_edge_offloa.Bridge.Control.{
  ControlPlane, Call, om_send, on_connection, bridge_component_id,
  create_transport_handler_for_mgwdp, remove_routing_rules_for_session, is_empty,
}
use ros2_modular_edge_offloa.Bridge.Control.Approval.{Outcome, silent}

abbrev pub session_timeout : ℕ
session_timeout = 20000000000

module _ {Value : Type 0} where
  -- `sent` is what send_data returns.
  unfoldable pub send_om_message :
      ControlPlane Value → Forwarded Value → Bool → ControlPlane Value × List (Call Value)
  send_om_message p message sent = if not p.om_connected then (p, []) else (
    if sent then p else record p { om_connected = false },
    om_send message bridge_component_id ∷ [],
  )

  unfoldable pub establish_mgwcp_data_plane_connection :
      ControlPlane Value → Bytes → Bytes → ℤ → ControlPlane Value × Option Bool
  establish_mgwcp_data_plane_connection p mgwcp_component_id dp_host dp_port =
      create_transport_handler_for_mgwdp p mgwcp_component_id dp_host dp_port

  -- The third callback of a connection.
  unfoldable pub register_component : ControlPlane Value → Bytes → ℕ → ControlPlane Value
  register_component p component_id transport_id = record p {
    component_id_to_transport_id = insert component_id transport_id p.component_id_to_transport_id;
  }

  -- A connection that the map holds under the id is destroyed, which stops it, and with it its sessions.
  abbrev drop_old : ControlPlane Value → ℕ → Bool → SessionManager × List (Call Value)
  drop_old p transport_client_id client_connected =
      elim (find transport_client_id p.mgwcp_connections) [
        | none ↦ (p.session_manager, [])
        | some old ↦
            let stopped = stop old p.session_manager client_connected in
            (stopped.1, map (on_connection transport_client_id) stopped.2)
      ]

  unfoldable pub handle_new_mgwcp_connection :
      ControlPlane Value → ℕ → Bytes → Bool → ControlPlane Value × List (Call Value)
  handle_new_mgwcp_connection p transport_client_id client_ip client_connected =
      let dropped = drop_old p transport_client_id client_connected in
      (
        record p {
          session_manager = dropped.0;
          next_mgwcp_connection_id = suc p.next_mgwcp_connection_id;
          mgwcp_connections =
              insert transport_client_id
                (start
                  (new_connection Value p.next_mgwcp_connection_id transport_client_id client_ip)
                  client_connected)
                p.mgwcp_connections;
        },
        dropped.1,
      )

  unfoldable pub handle_mgwcp_disconnection :
      ControlPlane Value → ℕ → Bool → ControlPlane Value × List (Call Value)
  handle_mgwcp_disconnection p transport_client_id client_connected =
      elim (find transport_client_id p.mgwcp_connections) [
        | none ↦ (p, [])
        | some connection ↦
            let stopped = stop connection p.session_manager client_connected in
            (
              record p {
                session_manager = stopped.1;
                mgwcp_connections = erase transport_client_id p.mgwcp_connections;
                component_id_to_transport_id =
                    if is_empty connection.component_id
                    then p.component_id_to_transport_id
                    else erase connection.component_id p.component_id_to_transport_id;
              },
              map (on_connection transport_client_id) stopped.2,
            )
      ]

  -- find_expired_sessions gives the ids; each loses its routes, then it is removed.
  unfoldable pub expire_all : ControlPlane Value → List Bytes → ControlPlane Value
  expire_all p [] = p
  expire_all p (request_id ∷ expired_sessions) =
      let q = remove_routing_rules_for_session p request_id in
      expire_all (record q { session_manager = (remove_session q.session_manager request_id).0 })
        expired_sessions

  unfoldable pub check_session_timeouts : ControlPlane Value → ℕ → ControlPlane Value
  check_session_timeouts p now =
      expire_all p (find_expired_sessions p.session_manager session_timeout now)

module _ {Value : Type 0} ⦃json : JsonAccess Value⦄ where
  abbrev has_request : Value → Bool
  has_request payload =
      json.contains payload "request_id"
      && json.contains payload "task_id"
      && json.contains payload "task_name"

  -- The session of an offload request; none if a conversion throws.
  unfoldable pub open_session : ControlPlane Value → Bytes → Value → ℕ → Option (ControlPlane Value)
  open_session p mgwcp_component_id payload now =
      if not (has_request payload)
      then some p
      else (elim (json.get_text (json.at_key payload "request_id")) [
        | none ↦ none
        | some request_id ↦ elim (json.get_uint32 (json.at_key payload "task_id")) [
          | none ↦ none
          | some task_id ↦ elim (json.get_text (json.at_key payload "task_name")) [
            | none ↦ none
            | some task_name ↦ some (record p {
              session_manager =
                  (create_session p.session_manager request_id mgwcp_component_id task_id task_name
                    p.global_config now).0;
            })
          ]
        ]
      ])

  unfoldable pub forward_message_to_om :
      ControlPlane Value → Bytes → Forwarded Value → Bool → ℕ → Outcome Value
  forward_message_to_om p mgwcp_component_id message sent now =
      let opened =
        if message.message_code == 100
        then open_session p mgwcp_component_id message.payload now
        else some p in
      elim opened [
        | none ↦ record { plane = p; calls = []; status = raised }
        | some q ↦
            let forwarded = send_om_message q message sent in
            record { plane = forwarded.0; calls = forwarded.1; status = returned }
      ]

  -- One effect of a connection: the callbacks are the control plane's own functions.
  unfoldable pub perform :
      ControlPlane Value → ℕ → Effect Value → Bool → ℕ → ControlPlane Value × List (Call Value)
  perform p t (transmit m seq_num) sent now = (p, on_connection t (transmit m seq_num) ∷ [])
  perform p t (transmit_ack id n) sent now = (p, on_connection t (transmit_ack id n) ∷ [])
  perform p t (disconnect_client id) sent now = (p, on_connection t (disconnect_client id) ∷ [])
  perform p t (message_forwarder id m) sent now =
      let forwarded = forward_message_to_om p id m sent now in (forwarded.plane, forwarded.calls)
  perform p t (dp_connect_callback id host port r) sent now =
      ((establish_mgwcp_data_plane_connection p id host port).0, [])
  perform p t (component_registration_callback id n) sent now = (register_component p id n, [])

  unfoldable pub perform_all :
      ControlPlane Value
      → ℕ
      → List (Effect Value)
      → Bool
      → ℕ
      → ControlPlane Value × List (Call Value)
  perform_all p t [] sent now = (p, [])
  perform_all p t (e ∷ es) sent now =
      let first = perform p t e sent now in
      let rest = perform_all first.0 t es sent now in (rest.0, first.1 ++ rest.1)

  -- A message of a gateway: its connection's handler, then what the handler has called, in order.
  unfoldable pub handle_mgwcp_message :
      ControlPlane Value
      → ℕ
      → Value
      → Delivery
      → Delivery
      → Bool
      → ℕ
      → ControlPlane Value × List (Call Value)
  handle_mgwcp_message p t message ack_delivery delivery sent now =
      elim (find t p.mgwcp_connections) [
        | none ↦ (p, [])
        | some connection ↦
            let h = handle_received_message connection p.session_manager message (record {
              ack_delivery = ack_delivery;
              delivery = delivery;
              dp_connects =
                  λ id host port. (establish_mgwcp_data_plane_connection p id host port).1;
              now = now;
            }) in
            perform_all
              (record p {
                session_manager = h.sessions;
                mgwcp_connections = insert t h.connection p.mgwcp_connections;
              })
              t h.effects sent now
      ]
