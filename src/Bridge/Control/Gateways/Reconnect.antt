-- ===== src/Bridge/Control/Gateways/Reconnect.antt =====
-- A gateway that connects again before its old connection has ended.
use ros2_modular_edge_offloa.Common.{
  ℕ, Bool, false, ◌≡◌, refl, ◌≢◌, ◌∙◌, none, some, [], ◌∷◌, Bytes,
}
use ros2_modular_edge_offloa.Common.Eq.{nat_eq, bytes_eq}
use ros2_modular_edge_offloa.Common.Maps.{find, find-erase_self, find-erase_ne}
use ros2_modular_edge_offloa.Bridge.Connection.{Connection, Delivery}
use ros2_modular_edge_offloa.Bridge.Control.{ControlPlane, is_empty}
use ros2_modular_edge_offloa.Bridge.Control.Approval.{approve_component}
use ros2_modular_edge_offloa.Bridge.Control.Gateways.{handle_mgwcp_disconnection}

full-is_empty : (s : Bytes) → s ≢ [] → is_empty s ≡ false
full-is_empty [] h = absurd (h refl)
full-is_empty (c ∷ s) h = refl

module _ {Value : Type 0} where
  forgotten :
      (p : ControlPlane Value) (id : Bytes) (payload : Value) (deliver : ℕ → Delivery) (now : ℕ)
      → find id p.component_id_to_transport_id ≡ none
      → approve_component p id payload deliver now ≡ (p, [])
  unfolding approve_component
  forgotten p id payload deliver now h = rw (approve_component, h) refl

  -- When an old connection of a component ends, a new one of the same component stays in the map of connections
  -- but is no longer found by the component's id, so no approval reaches the component.
  pub handle_mgwcp_disconnection_forgets :
      (p : ControlPlane Value) (t u : ℕ) (old new : Connection Value) (up : Bool) (payload : Value)
      (deliver : ℕ → Delivery) (now : ℕ)
      → t ≢ u
      → find t p.mgwcp_connections ≡ some old
      → find u p.mgwcp_connections ≡ some new
      → new.component_id ≡ old.component_id
      → old.component_id ≢ []
      → let q = (handle_mgwcp_disconnection p t up).0 in
        (find u q.mgwcp_connections ≡ some new)
        × (approve_component q new.component_id payload deliver now ≡ (q, []))
  unfolding handle_mgwcp_disconnection
  handle_mgwcp_disconnection_forgets p t u old new up payload deliver now ne ho hn same full =
      rw (handle_mgwcp_disconnection, ho, full-is_empty old.component_id full)
        (
          find-erase_ne t u p.mgwcp_connections ne ∙ hn,
          rw same (
              forgotten _ old.component_id payload deliver now
                (find-erase_self old.component_id p.component_id_to_transport_id)),
        )
