-- ===== src/Bridge/Control.antt =====
-- bridge/src/BridgeControlPlane.cpp: what joins the bridge's parts. Here are its state, the transport handlers
-- that it makes, and the routes of a session.
--
-- The calls of other threads are steps on one state. A queue that make_shared makes gets the next number.
pub mod Approval
pub mod Gateways
pub mod Startup
mod Tests
use ros2_modular_edge_offloa.Common.{
  ℕ, suc, ◌+◌, Bool, true, false, Option, none, some, List, [], ◌∷◌, Bytes, codes, if◌then◌else◌,
}
use ros2_modular_edge_offloa.Common.Int.{ℤ, u8}
use ros2_modular_edge_offloa.Common.Eq.{bytes_eq}
use ros2_modular_edge_offloa.Common.Maps.{find, insert}
use ros2_modular_edge_offloa.Common.Decimal.{stoi}
use ros2_modular_edge_offloa.Common.Split.{split_first}
use ros2_modular_edge_offloa.Wire.Parse.{construct_routing_key}
use ros2_modular_edge_offloa.Bridge.Config.{GlobalConfig}
use ros2_modular_edge_offloa.Bridge.Routing.{RoutingTable, add_route, remove_routes_for_key}
use ros2_modular_edge_offloa.Bridge.Sessions.{
  SessionManager, ActiveSession, get_session, set_routing_rules_created,
}
use ros2_modular_edge_offloa.Bridge.Transport.{TransportHandler, new_handler, made, throws}
use ros2_modular_edge_offloa.Bridge.Transport.Loop.{start_thread}
use ros2_modular_edge_offloa.Bridge.Connection.{Connection, Effect, Forwarded}

module _ (Value : Type 0) where
  pub record ControlPlane : Type 0 where
    pub global_config : GlobalConfig
    pub session_manager : SessionManager
    pub routing_table : RoutingTable
    pub om_connected : Bool
    pub mgwcp_connections : List (ℕ × Connection Value)
    pub component_id_to_transport_id : List (Bytes × ℕ)
    pub next_mgwcp_connection_id : ℕ
    pub transport_handlers : List (Bytes × TransportHandler)
    pub next_queue : ℕ

  -- The calls of the control plane on the manager's connection and on the gateways' connections.
  pub data Call : Type 0 where
    -- a message of a gateway, with the bridge's id
    om_send : Forwarded Value → Bytes → Call
    on_connection : ℕ → Effect Value → Call

abbrev pub bridge_component_id : Bytes
bridge_component_id = codes "15:10"

-- The two numbers of a component id as bytes: none without a colon, some none if std::stoi throws.
abbrev both : Option ℤ → Option ℤ → Option (ℕ × ℕ)
both (some group) (some id) = some (u8 group, u8 id)
both (some group) none = none
both none id = none

unfoldable pub component_numbers : Bytes → Option (Option (ℕ × ℕ))
component_numbers component_id = elim (split_first b':' component_id) [
  | none ↦ none
  | some parts ↦ some (both (stoi parts.0) (stoi parts.1))
]

unfoldable pub add_routes : RoutingTable → ℕ → ℕ → List ℕ → ℕ → RoutingTable
add_routes t group id [] queue = t
add_routes t group id (msg_type ∷ types) queue =
    add_routes (add_route t (construct_routing_key group id msg_type) (some queue)) group id types
      queue

unfoldable pub remove_routes : RoutingTable → ℕ → ℕ → List ℕ → RoutingTable
remove_routes t group id [] = t
remove_routes t group id (msg_type ∷ types) =
    remove_routes (remove_routes_for_key t (construct_routing_key group id msg_type)) group id types

abbrev is_empty : Bytes → Bool
is_empty [] = true
is_empty (c ∷ s) = false

module _ {Value : Type 0} where
  -- The object that the constructor makes.
  unfoldable pub new_control_plane : GlobalConfig → ControlPlane Value
  new_control_plane config = record {
    global_config = config;
    session_manager = [];
    routing_table = record { actual_map = []; max_expected_routes = 1000 };
    om_connected = false;
    mgwcp_connections = [];
    component_id_to_transport_id = [];
    next_mgwcp_connection_id = 1;
    transport_handlers = [];
    next_queue = 0;
  }

  -- The result is none if the constructor of the handler throws; its other arguments are the defaults.
  unfoldable pub create_transport_handler_for_mgwdp :
      ControlPlane Value → Bytes → Bytes → ℤ → ControlPlane Value × Option Bool
  create_transport_handler_for_mgwdp p mgwcp_component_id host port =
      elim (find mgwcp_component_id p.transport_handlers) [
        | some handler ↦ (p, some true)
        | none ↦
            elim (new_handler mgwcp_component_id host port (some p.next_queue)
              (some p.routing_table) 5 8192 2) [
                | throws reason ↦ (record p { next_queue = suc p.next_queue }, none)
                | made handler ↦ (
                  record p {
                    next_queue = suc p.next_queue;
                    transport_handlers =
                        insert mgwcp_component_id (start_thread handler) p.transport_handlers;
                  },
                  some true,
                )
              ]
      ]

  -- The mec's own function of the same text, which nothing calls.
  pub create_transport_handler_for_mec :
      ControlPlane Value → Bytes → Bytes → ℤ → ControlPlane Value × Option Bool
  create_transport_handler_for_mec p mec_component_id host port =
      create_transport_handler_for_mgwdp p mec_component_id host port

  abbrev pub flagged : ControlPlane Value → Bytes → RoutingTable → Bool → ControlPlane Value
  flagged p request_id table created = record p {
    routing_table = table;
    session_manager = (set_routing_rules_created p.session_manager request_id created).0;
  }

  -- The second loop of create_routing_rules_for_session and the flag. An id without a colon and an id that is
  -- no number leave the routes of the first loop in the table.
  unfoldable pub create_reverse_routes :
      ControlPlane Value → Bytes → ActiveSession → ℕ → ControlPlane Value
  create_reverse_routes p request_id session queue =
      if is_empty session.assigned_mec_id
      then flagged p request_id p.routing_table true
      else (elim (component_numbers session.assigned_mec_id) [
        | none ↦ p
        | some none ↦ p
        | some (some mec) ↦
            flagged p request_id
              (add_routes p.routing_table mec.0 mec.1 session.output_message_types queue) true
      ])

  unfoldable pub create_routing_rules_for_session : ControlPlane Value → Bytes → ControlPlane Value
  create_routing_rules_for_session p request_id = elim (get_session p.session_manager request_id) [
    | none ↦ p
    | some session ↦ elim (component_numbers session.mgwcp_component_id) [
      | none ↦ p
      | some none ↦ p
      | some (some source) ↦ elim (find session.mgwcp_component_id p.transport_handlers) [
        | none ↦ p
        | some mgwcp_handler ↦ elim (find session.assigned_mec_id p.transport_handlers) [
          | none ↦ p
          | some mec_handler ↦
              create_reverse_routes
                (record p {
                  routing_table =
                      add_routes p.routing_table source.0 source.1 session.input_message_types
                        mec_handler.input_queue;
                })
                request_id session mgwcp_handler.input_queue
        ]
      ]
    ]
  ]

  -- The second loop of remove_routing_rules_for_session and the flag; `table` is the table behind the first.
  unfoldable pub remove_reverse_routes :
      ControlPlane Value → Bytes → ActiveSession → RoutingTable → ControlPlane Value
  remove_reverse_routes p request_id session table =
      if is_empty session.assigned_mec_id
      then flagged p request_id table false
      else (elim (component_numbers session.assigned_mec_id) [
        | none ↦ flagged p request_id table false
        | some none ↦ record p { routing_table = table }
        | some (some mec) ↦
            flagged p request_id (remove_routes table mec.0 mec.1 session.output_message_types)
              false
      ])

  unfoldable pub remove_routing_rules_for_session : ControlPlane Value → Bytes → ControlPlane Value
  remove_routing_rules_for_session p request_id = elim (get_session p.session_manager request_id) [
    | none ↦ p
    | some session ↦ elim (component_numbers session.mgwcp_component_id) [
      | none ↦ p
      | some none ↦ p
      | some (some source) ↦
          remove_reverse_routes p request_id session
            (remove_routes p.routing_table source.0 source.1 session.input_message_types)
    ]
  ]
