-- ===== src/Bridge/Control/Approval/Delivered.antt =====
-- From the approval of a session to the delivery of its frames.
use ros2_modular_edge_offloa.Common.{
  ℕ, true, false, ◌≡◌, refl, ◌∙◌, ap, sym, inl, arith, some, [], ◌∷◌, ◌++◌, map, append-nil, Bytes,
}
use ros2_modular_edge_offloa.Bridge.Json.{JsonAccess}
use ros2_modular_edge_offloa.Bridge.Routing.{RoutingTable, get_destinations}
use ros2_modular_edge_offloa.Bridge.Transport.{enqueue, process_buffer}
use ros2_modular_edge_offloa.Bridge.Transport.Framing.{
  OutMessage, frame, key_of, Fits, process_buffer-frames,
}
use ros2_modular_edge_offloa.Bridge.Connection.{Delivery}
use ros2_modular_edge_offloa.Bridge.Control.{ControlPlane, create_routing_rules_for_session}
use ros2_modular_edge_offloa.Bridge.Control.Approval.{
  handle_session_approved, forward_approval, approve_component, read_request_id, assign_mec,
}
use ros2_modular_edge_offloa.Bridge.Control.Approval.Routes.{
  Ready, session_queues, create_routing_rules_for_session_lem,
}

process_buffer-frame :
    (t : RoutingTable) (m : OutMessage)
    → Fits m
    → process_buffer t false (frame m)
      ≡ ([], map (λ queue. enqueue queue (frame m)) (get_destinations t (key_of m)))
process_buffer-frame t m fit =
    let sends = map (λ queue. enqueue queue (frame m)) (get_destinations t (key_of m)) in
    let same : frame m ++ [] ++ [] ≡ frame m = append-nil (frame m ++ []) ∙ append-nil (frame m) in
    ap (process_buffer t false) (sym same)
    ∙ process_buffer-frames t (m ∷ []) m 0 (fit, tt) fit (inl (omega arith))
    ∙ ap (λ s. ([], s)) (append-nil sends)

module _ {Value : Type 0} where
  approve_component-table :
      (p : ControlPlane Value) (id : Bytes) (payload : Value) (deliver : ℕ → Delivery) (now : ℕ)
      → (approve_component p id payload deliver now).0.routing_table ≡ p.routing_table
  unfolding approve_component
  approve_component-table p id payload deliver now = ground arith

  forward_approval-table :
      (p : ControlPlane Value) (r : Bytes) (payload : Value) (deliver : ℕ → Delivery) (now : ℕ)
      → (forward_approval p r payload deliver now).plane.routing_table ≡ p.routing_table
  unfolding forward_approval
  forward_approval-table p r payload deliver now = grind (arith, approve_component-table)

module _ {Value : Type 0} ⦃json : JsonAccess Value⦄ where
  -- The manager's message names a request, and the session with the edge that it assigns is ready.
  pub record Approves (p : ControlPlane Value) (message : Value) : Type 0 where
    pub request_id : Bytes
    pub has_payload : json.contains message "payload" ≡ true
    pub has_request : json.contains (json.at_key message "payload") "request_id" ≡ true
    pub reads :
        read_request_id (json.at_key (json.at_key message "payload") "request_id") ≡ some request_id
    pub ready :
        Ready
          (record p {
            session_manager =
                assign_mec p.session_manager request_id (json.at_key message "payload");
          })
          request_id

  approved_lem :
      (p : ControlPlane Value) (message : Value) (deliver : ℕ → Delivery) (now : ℕ)
      (a : Approves p message)
      → handle_session_approved p message deliver now
        ≡ forward_approval
            (create_routing_rules_for_session
              (record p {
                session_manager =
                    assign_mec p.session_manager a.request_id (json.at_key message "payload");
              })
              a.request_id)
            a.request_id
            (json.at_key message "payload")
            deliver
            now
  unfolding handle_session_approved
  approved_lem p message deliver now a =
      rw (handle_session_approved, a.has_payload, a.has_request, a.reads) refl

  -- Once the manager has approved a session, a frame is delivered to the queues that its key had before and to those
  -- that the session's rules give it: a frame of an input type from the vehicle to the edge's queue, one of an output
  -- type from the edge to the vehicle's. The conditions: the message has a payload with a readable request id of a
  -- session that is stored; the ids of the session's vehicle and of the edge that the message assigns are two numbers;
  -- a transport handler stands under each of them; the frame's payload is no longer than a 32-bit size can say, and
  -- the handler that receives the frame is not told to stop and holds nothing else.
  pub handle_session_approved_delivers :
      (p : ControlPlane Value) (message : Value) (deliver : ℕ → Delivery) (now : ℕ)
      (a : Approves p message) (m : OutMessage)
      → Fits m
      → process_buffer
          (handle_session_approved p message deliver now).plane.routing_table
          false
          (frame m)
        ≡ (
          [],
          map
              (λ queue. enqueue queue (frame m))
              (get_destinations p.routing_table (key_of m) ++ session_queues a.ready (key_of m)),
        )
  handle_session_approved_delivers p message deliver now a m fit =
      let payload = json.at_key message "payload" in
      let q : ControlPlane Value = record p {
        session_manager = assign_mec p.session_manager a.request_id payload;
      } in
      let made = create_routing_rules_for_session q a.request_id in
      let table : (handle_session_approved p message deliver now).plane.routing_table
          ≡ made.routing_table =
        ap (λ o. o.plane.routing_table) (approved_lem p message deliver now a)
        ∙ forward_approval-table made a.request_id payload deliver now in
      let (routes, _) = create_routing_rules_for_session_lem q a.request_id a.ready (key_of m) in
      rw (table, ← routes) (process_buffer-frame made.routing_table m fit)
