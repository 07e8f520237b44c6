-- ===== src/Bridge/Control/Approval.antt =====
-- What the bridge does with the messages of the offloading manager.
pub mod Routes
pub mod Delivered
pub mod Denied
use ros2_modular_edge_offloa.Common.{
  ℕ, Bool, true, false, not, ◌&&◌, ◌||◌, Option, none, some, List, [], ◌∷◌, ◌++◌, Bytes, codes, map,
  if◌then◌else◌,
}
use ros2_modular_edge_offloa.Common.Int.{ℤ, pos, negsuc}
use ros2_modular_edge_offloa.Common.Eq.{nat_eq, bytes_eq}
use ros2_modular_edge_offloa.Common.Maps.{find, insert}
use ros2_modular_edge_offloa.Common.Decimal.{int_to_string}
use ros2_modular_edge_offloa.Bridge.Json.{JsonAccess}
use ros2_modular_edge_offloa.Bridge.Sessions.{
  ActiveSession, SessionManager, get_session, remove_session, set_assigned_mec,
}
use ros2_modular_edge_offloa.Bridge.Connection.{
  Connection, Delivery, Effect, send_session_approved, send_session_denied,
}
use ros2_modular_edge_offloa.Bridge.Connection.Handlers.{Status, returned, raised, is_code}
use ros2_modular_edge_offloa.Bridge.Control.{
  ControlPlane, Call, on_connection, create_routing_rules_for_session, is_empty,
}

abbrev printed : Option ℤ → Option Bytes
printed none = none
printed (some z) = some (int_to_string z)

pub record Outcome (Value : Type 0) : Type 0 where
  pub plane : ControlPlane Value
  pub calls : List (Call Value)
  pub status : Status

module _ {Value : Type 0} where
  abbrev pub silent : ControlPlane Value → Outcome Value
  silent p = record { plane = p; calls = []; status = returned }

  -- What a connection gives back takes its place in the map.
  abbrev pub with_connection :
      ControlPlane Value
      → ℕ
      → Connection Value × List (Effect Value)
      → ControlPlane Value × List (Call Value)
  with_connection p transport_id sent = (
    record p { mgwcp_connections = insert transport_id sent.0 p.mgwcp_connections },
    map (on_connection transport_id) sent.1,
  )

  -- The connection of a component, through both maps.
  abbrev pub connection_of : ControlPlane Value → Bytes → Option (ℕ × Connection Value)
  connection_of p component_id = elim (find component_id p.component_id_to_transport_id) [
    | none ↦ none
    | some transport_id ↦ elim (find transport_id p.mgwcp_connections) [
      | none ↦ none
      | some connection ↦ some (transport_id, connection)
    ]
  ]

  -- `deliver` is what the transport says to a message for each of its clients.
  unfoldable pub approve_component :
      ControlPlane Value
      → Bytes
      → Value
      → (ℕ → Delivery)
      → ℕ
      → ControlPlane Value × List (Call Value)
  approve_component p component_id payload deliver now = elim (connection_of p component_id) [
    | none ↦ (p, [])
    | some at ↦ with_connection p at.0 (send_session_approved at.1 payload (deliver at.0) now)
  ]

  unfoldable pub deny_component :
      ControlPlane Value
      → Bytes
      → Bytes
      → Bytes
      → (ℕ → Delivery)
      → ℕ
      → ControlPlane Value × List (Call Value)
  deny_component p component_id request_id reason deliver now =
      elim (connection_of p component_id) [
        | none ↦ (p, [])
        | some at ↦
            with_connection p at.0 (send_session_denied at.1 request_id reason (deliver at.0) now)
      ]

  -- The part behind create_routing_rules_for_session: first the vehicle's gateway, then the edge's.
  unfoldable pub forward_approval :
      ControlPlane Value → Bytes → Value → (ℕ → Delivery) → ℕ → Outcome Value
  forward_approval p request_id payload deliver now =
      elim (get_session p.session_manager request_id) [
        | none ↦ silent p
        | some session ↦
            let vhc = approve_component p session.mgwcp_component_id payload deliver now in
            let mec = approve_component vhc.0 session.assigned_mec_id payload deliver now in
            if is_empty session.assigned_mec_id
            then record { plane = vhc.0; calls = vhc.1; status = returned }
            else record { plane = mec.0; calls = vhc.1 ++ mec.1; status = returned }
      ]

  -- The session is removed before it is looked up.
  unfoldable pub forward_denial :
      ControlPlane Value → Bytes → Bytes → (ℕ → Delivery) → ℕ → Outcome Value
  forward_denial p request_id reason deliver now =
      let q = record p { session_manager = (remove_session p.session_manager request_id).0 } in
      elim (get_session q.session_manager request_id) [
        | none ↦ silent q
        | some session ↦
            let vhc = deny_component q session.mgwcp_component_id request_id reason deliver now in
            record { plane = vhc.0; calls = vhc.1; status = returned }
      ]

module _ {Value : Type 0} ⦃json : JsonAccess Value⦄ where
  -- A request id that is a text, or an integer as text; the exceptions are caught.
  unfoldable pub read_request_id : Value → Option Bytes
  read_request_id v =
      if json.is_string v
      then json.get_text v
      else if json.is_integer v
      then printed (json.get_int64 v)
      else none

  -- is_string has made sure that get<std::string> does not throw.
  abbrev pub assign_mec : SessionManager → Bytes → Value → SessionManager
  assign_mec s request_id payload =
      if json.contains payload "assigned_mec_id"
        && json.is_string (json.at_key payload "assigned_mec_id")
      then (elim (json.get_text (json.at_key payload "assigned_mec_id")) [
        | none ↦ s
        | some mec_id ↦ (set_assigned_mec s request_id mec_id).0
      ])
      else s

  unfoldable pub handle_session_approved :
      ControlPlane Value → Value → (ℕ → Delivery) → ℕ → Outcome Value
  handle_session_approved p om_response deliver now =
      let payload = json.at_key om_response "payload" in
      if not (json.contains om_response "payload") || not (json.contains payload "request_id")
      then silent p
      else (elim (read_request_id (json.at_key payload "request_id")) [
        | none ↦ silent p
        | some request_id ↦
            forward_approval
              (create_routing_rules_for_session
                (record p { session_manager = assign_mec p.session_manager request_id payload })
                request_id)
              request_id payload deliver now
      ])

  -- value() with a default: none if the member is there and is no text.
  abbrev reason_of : Value → Option Bytes
  reason_of payload =
      if json.contains payload "reason_description"
      then json.get_text (json.at_key payload "reason_description")
      else some (codes "No reason provided")

  unfoldable pub handle_session_denied :
      ControlPlane Value → Value → (ℕ → Delivery) → ℕ → Outcome Value
  handle_session_denied p om_response deliver now =
      let payload = json.at_key om_response "payload" in
      if not (json.contains om_response "payload") || not (json.contains payload "request_id")
      then silent p
      else (elim (read_request_id (json.at_key payload "request_id")) [
        | none ↦ silent p
        | some request_id ↦ elim (reason_of payload) [
          | none ↦ record { plane = p; calls = []; status = raised }
          | some reason ↦ forward_denial p request_id reason deliver now
        ]
      ])

  unfoldable pub handle_om_message : ControlPlane Value → Value → (ℕ → Delivery) → ℕ → Outcome Value
  handle_om_message p message deliver now =
      if not (json.contains message "message_code") || not (json.contains message "payload")
      then silent p
      else (elim (json.get_int (json.at_key message "message_code")) [
        | none ↦ record { plane = p; calls = []; status = raised }
        | some code ↦
            if is_code code 200
            then handle_session_approved p message deliver now
            else if is_code code 201
            then handle_session_denied p message deliver now
            else silent p
      ])
