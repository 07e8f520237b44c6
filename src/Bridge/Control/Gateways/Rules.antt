-- ===== src/Bridge/Control/Gateways/Rules.antt =====
-- Making and removing the rules of a session leaves every route at the queue of a handler.
use ros2_modular_edge_offloa.Common.{
  ℕ, ◌≡◌, refl, ◌⊎◌, inl, inr, Option, none, some, List, [], ◌∷◌, Bytes, Option-cases, Bool-cases,
}
use ros2_modular_edge_offloa.Common.Eq.{bytes_eq}
use ros2_modular_edge_offloa.Common.Maps.{find}
use ros2_modular_edge_offloa.Bridge.Routing.{RoutingTable}
use ros2_modular_edge_offloa.Bridge.Sessions.{ActiveSession, get_session, remove_session}
use ros2_modular_edge_offloa.Bridge.Transport.{TransportHandler}
use ros2_modular_edge_offloa.Bridge.Control.{
  ControlPlane, add_routes, remove_routes, create_reverse_routes, create_routing_rules_for_session,
  remove_reverse_routes, remove_routing_rules_for_session, component_numbers, is_empty,
}
use ros2_modular_edge_offloa.Bridge.Control.Gateways.{expire_all}
use ros2_modular_edge_offloa.Bridge.Control.Gateways.Owned.{
  HasOwner, Leads, Owned, IsOwned, add_routes-Leads, remove_routes-Leads,
}

numbers_cases :
    (o : Option (Option (ℕ × ℕ)))
    → (o ≡ none) ⊎ ((o ≡ some none) ⊎ ((n : ℕ × ℕ) × (o ≡ some (some n))))
numbers_cases none = inl refl
numbers_cases (some none) = inr (inl refl)
numbers_cases (some (some n)) = inr (inr (n, refl))

relead :
    (hs : List (Bytes × TransportHandler)) (n : ℕ) (t u : RoutingTable)
    → Leads hs u
    → Owned hs n t
    → Owned hs n u
relead hs n t u l o = record { named = o.named; separate = o.separate; routed = l }

module _ {Value : Type 0} where
  reverse-Owned :
      (p : ControlPlane Value) (r : Bytes) (s : ActiveSession) (q : ℕ)
      → HasOwner p.transport_handlers q
      → IsOwned p
      → IsOwned (create_reverse_routes p r s q)
  unfolding create_reverse_routes
  reverse-Owned p r s q own o = elim (Bool-cases (is_empty s.assigned_mec_id)) [
    | inl e ↦ rw (create_reverse_routes, e) o
    | inr f ↦ elim (numbers_cases (component_numbers s.assigned_mec_id)) [
      | inl bad ↦ rw (create_reverse_routes, f, bad) o
      | inr (inl worse) ↦ rw (create_reverse_routes, f, worse) o
      | inr (inr (mec, good)) ↦
          rw (create_reverse_routes, f, good)
            (relead p.transport_handlers p.next_queue p.routing_table
              (add_routes p.routing_table mec.0 mec.1 s.output_message_types q)
              (add_routes-Leads p.transport_handlers p.routing_table mec.0 mec.1
                s.output_message_types q own o.routed)
              o)
    ]
  ]

  pub create_rules-Owned :
      (p : ControlPlane Value) (r : Bytes)
      → IsOwned p
      → IsOwned (create_routing_rules_for_session p r)
  unfolding create_routing_rules_for_session
  create_rules-Owned p r o = elim (Option-cases (get_session p.session_manager r)) [
    | inl a ↦ rw (create_routing_rules_for_session, a) o
    | inr (s, a) ↦ elim (numbers_cases (component_numbers s.mgwcp_component_id)) [
      | inl b ↦ rw (create_routing_rules_for_session, a, b) o
      | inr (inl b) ↦ rw (create_routing_rules_for_session, a, b) o
      | inr (inr (src, b)) ↦ elim (Option-cases (find s.mgwcp_component_id p.transport_handlers)) [
        | inl c ↦ rw (create_routing_rules_for_session, a, b, c) o
        | inr (vhc, c) ↦ elim (Option-cases (find s.assigned_mec_id p.transport_handlers)) [
          | inl d ↦ rw (create_routing_rules_for_session, a, b, c, d) o
          | inr (mec, d) ↦
              let table =
                add_routes p.routing_table src.0 src.1 s.input_message_types mec.input_queue in
              rw (create_routing_rules_for_session, a, b, c, d)
                (reverse-Owned (record p { routing_table = table }) r s vhc.input_queue
                  (s.mgwcp_component_id, vhc, c, refl)
                  (relead p.transport_handlers p.next_queue p.routing_table table
                    (add_routes-Leads p.transport_handlers p.routing_table src.0 src.1
                      s.input_message_types mec.input_queue (s.assigned_mec_id, mec, d, refl)
                      o.routed)
                    o))
        ]
      ]
    ]
  ]

  remove_reverse-Owned :
      (p : ControlPlane Value) (r : Bytes) (s : ActiveSession) (t : RoutingTable)
      → Leads p.transport_handlers t
      → IsOwned p
      → IsOwned (remove_reverse_routes p r s t)
  unfolding remove_reverse_routes
  remove_reverse-Owned p r s t l o =
      let base = relead p.transport_handlers p.next_queue p.routing_table t l o in
      elim (Bool-cases (is_empty s.assigned_mec_id)) [
        | inl e ↦ rw (remove_reverse_routes, e) base
        | inr f ↦ elim (numbers_cases (component_numbers s.assigned_mec_id)) [
          | inl bad ↦ rw (remove_reverse_routes, f, bad) base
          | inr (inl worse) ↦ rw (remove_reverse_routes, f, worse) base
          | inr (inr (mec, good)) ↦
              rw (remove_reverse_routes, f, good)
                (relead p.transport_handlers p.next_queue t
                  (remove_routes t mec.0 mec.1 s.output_message_types)
                  (remove_routes-Leads p.transport_handlers t mec.0 mec.1 s.output_message_types l)
                  base)
        ]
      ]

  remove_rules-Owned :
      (p : ControlPlane Value) (r : Bytes)
      → IsOwned p
      → IsOwned (remove_routing_rules_for_session p r)
  unfolding remove_routing_rules_for_session
  remove_rules-Owned p r o = elim (Option-cases (get_session p.session_manager r)) [
    | inl a ↦ rw (remove_routing_rules_for_session, a) o
    | inr (s, a) ↦ elim (numbers_cases (component_numbers s.mgwcp_component_id)) [
      | inl b ↦ rw (remove_routing_rules_for_session, a, b) o
      | inr (inl b) ↦ rw (remove_routing_rules_for_session, a, b) o
      | inr (inr (src, b)) ↦
          let table = remove_routes p.routing_table src.0 src.1 s.input_message_types in
          rw (remove_routing_rules_for_session, a, b)
            (remove_reverse-Owned p r s table
              (remove_routes-Leads p.transport_handlers p.routing_table src.0 src.1
                s.input_message_types o.routed)
              o)
    ]
  ]

  pub expire_all-Owned :
      (p : ControlPlane Value) (expired : List Bytes) → IsOwned p → IsOwned (expire_all p expired)
  unfolding expire_all
  expire_all-Owned p [] o = o
  expire_all-Owned p (r ∷ expired) o =
      let q = remove_routing_rules_for_session p r in
      expire_all-Owned (record q { session_manager = (remove_session q.session_manager r).0 })
        expired (remove_rules-Owned p r o)
