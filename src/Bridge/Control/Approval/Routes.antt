-- ===== src/Bridge/Control/Approval/Routes.antt =====
-- The routes of an approved session.
use ros2_modular_edge_offloa.Common.{
  ℕ, Bool, true, false, ◌≡◌, refl, ◌∙◌, ap, sym, arith, Option, some, List, [], ◌∷◌, ◌++◌,
  append_assoc, append-nil, Bytes, if◌then◌else◌,
}
use ros2_modular_edge_offloa.Common.Eq.{bytes_eq}
use ros2_modular_edge_offloa.Common.Maps.{find, find-update_self}
use ros2_modular_edge_offloa.Common.Split.{split_first}
use ros2_modular_edge_offloa.Wire.Parse.{RoutingKey, key_beq, construct_routing_key}
use ros2_modular_edge_offloa.Bridge.Routing.{RoutingTable, get_destinations, add_route}
use ros2_modular_edge_offloa.Bridge.Routing.Laws.{get_destinations-add_route}
use ros2_modular_edge_offloa.Bridge.Sessions.{ActiveSession, get_session, set_routing_rules_created}
use ros2_modular_edge_offloa.Bridge.Transport.{TransportHandler}
use ros2_modular_edge_offloa.Bridge.Control.{
  ControlPlane, component_numbers, add_routes, is_empty, create_reverse_routes, flagged,
  create_routing_rules_for_session,
}

-- The queue once for each of the types whose key is `k`.
pub queues_for : RoutingKey → ℕ → ℕ → List ℕ → ℕ → List ℕ
queues_for k group id [] queue = []
queues_for k group id (msg_type ∷ types) queue =
    let rest = queues_for k group id types queue in
    if key_beq (construct_routing_key group id msg_type) k then queue ∷ rest else rest

append_if :
    (b : Bool) (ds qs : List ℕ) (q : ℕ)
    → (if b then ds ++ q ∷ [] else ds) ++ qs ≡ ds ++ (if b then q ∷ qs else qs)
append_if true ds qs q = append_assoc ds (q ∷ []) qs
append_if false ds qs q = refl

pub get_destinations-add_routes :
    (t : RoutingTable) (k : RoutingKey) (group id : ℕ) (types : List ℕ) (queue : ℕ)
    → get_destinations (add_routes t group id types queue) k
      ≡ get_destinations t k ++ queues_for k group id types queue
unfolding add_routes queues_for
get_destinations-add_routes t k group id [] queue = sym (append-nil (get_destinations t k))
get_destinations-add_routes t k group id (msg_type ∷ types) queue =
    let key = construct_routing_key group id msg_type in
    let rest = queues_for k group id types queue in
    get_destinations-add_routes (add_route t key (some queue)) k group id types queue
    ∙ ap (λ ds. ds ++ rest) (get_destinations-add_route t key k queue)
    ∙ append_if (key_beq key k) (get_destinations t k) rest queue

-- A session whose routes can be made: it is known, both ids are numbers, both handlers are there.
pub record Ready {Value : Type 0} (p : ControlPlane Value) (request_id : Bytes) : Type 0 where
  pub session : ActiveSession
  pub vhc_group : ℕ
  pub vhc_id : ℕ
  pub mec_group : ℕ
  pub mec_id : ℕ
  pub vhc_handler : TransportHandler
  pub mec_handler : TransportHandler
  pub known : get_session p.session_manager request_id ≡ some session
  pub vhc_numbers : component_numbers session.mgwcp_component_id ≡ some (some (vhc_group, vhc_id))
  pub mec_numbers : component_numbers session.assigned_mec_id ≡ some (some (mec_group, mec_id))
  pub vhc_found : find session.mgwcp_component_id p.transport_handlers ≡ some vhc_handler
  pub mec_found : find session.assigned_mec_id p.transport_handlers ≡ some mec_handler

-- What the session's rules add to the destinations of a key: for an input type of the vehicle the edge's queue, for
-- an output type of the edge the vehicle's queue.
abbrev pub session_queues :
    {Value : Type 0} {p : ControlPlane Value} {r : Bytes} → Ready p r → RoutingKey → List ℕ
session_queues ready k =
    queues_for k ready.vhc_group ready.vhc_id ready.session.input_message_types
      ready.mec_handler.input_queue
    ++ queues_for k ready.mec_group ready.mec_id ready.session.output_message_types
        ready.vhc_handler.input_queue

numbers-is_empty :
    (b : Bytes) (x : Option (ℕ × ℕ)) → component_numbers b ≡ some x → is_empty b ≡ false
unfolding component_numbers split_first
numbers-is_empty [] x h = cc
numbers-is_empty (c ∷ b) x h = refl

module _ {Value : Type 0} where
  reverse_lem :
      (p : ControlPlane Value) (r : Bytes) (s : ActiveSession) (queue g i : ℕ)
      → component_numbers s.assigned_mec_id ≡ some (some (g, i))
      → create_reverse_routes p r s queue
        ≡ flagged p r (add_routes p.routing_table g i s.output_message_types queue) true
  unfolding create_reverse_routes
  reverse_lem p r s queue g i h = rw (numbers-is_empty s.assigned_mec_id (some (g, i)) h, h) refl

  rules_lem :
      (p : ControlPlane Value) (r : Bytes) (ready : Ready p r)
      → create_routing_rules_for_session p r
        ≡ flagged p r
            (add_routes
              (add_routes p.routing_table ready.vhc_group ready.vhc_id
                ready.session.input_message_types ready.mec_handler.input_queue)
              ready.mec_group
              ready.mec_id
              ready.session.output_message_types
              ready.vhc_handler.input_queue)
            true
  unfolding create_routing_rules_for_session
  rules_lem p r ready =
      rw
        (
          create_routing_rules_for_session, ready.known, ready.vhc_numbers, ready.vhc_found,
          ready.mec_found,
        )
        (reverse_lem _ r ready.session ready.vhc_handler.input_queue ready.mec_group ready.mec_id
          ready.mec_numbers)

  get_session-flag :
      (p : ControlPlane Value) (r : Bytes) (s : ActiveSession) (table : RoutingTable)
      → get_session p.session_manager r ≡ some s
      → get_session (flagged p r table true).session_manager r
        ≡ some (record s { routing_rules_created = true })
  unfolding get_session set_routing_rules_created
  get_session-flag p r s table h = ground (
    arith,
    h,
    find-update_self r (λ t. record t { routing_rules_created = true }) s p.session_manager h,
  )

  -- The rules of a ready session add its queues behind the destinations of each key, and mark the session.
  pub create_routing_rules_for_session_lem :
      (p : ControlPlane Value) (r : Bytes) (ready : Ready p r) (k : RoutingKey)
      → (get_destinations (create_routing_rules_for_session p r).routing_table k
          ≡ get_destinations p.routing_table k ++ session_queues ready k)
        × (get_session (create_routing_rules_for_session p r).session_manager r
            ≡ some (record ready.session { routing_rules_created = true }))
  create_routing_rules_for_session_lem p r ready k =
      let first =
        add_routes p.routing_table ready.vhc_group ready.vhc_id ready.session.input_message_types
          ready.mec_handler.input_queue in
      let table =
        add_routes first ready.mec_group ready.mec_id ready.session.output_message_types
          ready.vhc_handler.input_queue in
      rw (rules_lem p r ready) (
        (get_destinations-add_routes first k ready.mec_group ready.mec_id
              ready.session.output_message_types ready.vhc_handler.input_queue
            ∙ ap
                (λ ds.
                  ds
                  ++ queues_for k ready.mec_group ready.mec_id ready.session.output_message_types
                      ready.vhc_handler.input_queue)
                (get_destinations-add_routes p.routing_table k ready.vhc_group ready.vhc_id
                  ready.session.input_message_types ready.mec_handler.input_queue)
            ∙ append_assoc (get_destinations p.routing_table k) _ _),
        get_session-flag p r ready.session table ready.known,
      )

  handlers-create :
      (p : ControlPlane Value) (r : Bytes) (ready : Ready p r)
      → (create_routing_rules_for_session p r).transport_handlers ≡ p.transport_handlers
  handlers-create p r ready = rw (rules_lem p r ready) refl

  created_ready :
      (p : ControlPlane Value) (r : Bytes)
      → Ready p r
      → Ready (create_routing_rules_for_session p r) r
  created_ready p r ready = record {
    session = record ready.session { routing_rules_created = true };
    vhc_group = ready.vhc_group;
    vhc_id = ready.vhc_id;
    mec_group = ready.mec_group;
    mec_id = ready.mec_id;
    vhc_handler = ready.vhc_handler;
    mec_handler = ready.mec_handler;
    known = (create_routing_rules_for_session_lem p r ready (construct_routing_key 0 0 0)).1;
    vhc_numbers = ready.vhc_numbers;
    mec_numbers = ready.mec_numbers;
    vhc_found = rw (handlers-create p r ready) ready.vhc_found;
    mec_found = rw (handlers-create p r ready) ready.mec_found;
  }

  -- If the rules of a session are made twice, each of its routes is in the table twice, since the mark is not looked
  -- at: the destinations of every key are those from before and twice those of the session. The session is stored,
  -- the ids of its two components are two numbers each, and a transport handler stands under each of them.
  pub create_routing_rules_for_session_again :
      (p : ControlPlane Value) (r : Bytes) (ready : Ready p r) (k : RoutingKey)
      → get_destinations
          (create_routing_rules_for_session (create_routing_rules_for_session p r) r).routing_table
          k
        ≡ get_destinations p.routing_table k ++ session_queues ready k ++ session_queues ready k
  unfolding created_ready
  create_routing_rules_for_session_again p r ready k =
      let (before, _) = create_routing_rules_for_session_lem p r ready k in
      let (after, _) =
        create_routing_rules_for_session_lem (create_routing_rules_for_session p r) r
          (created_ready p r ready) k in
      after ∙ ap (λ ds. ds ++ session_queues ready k) before
