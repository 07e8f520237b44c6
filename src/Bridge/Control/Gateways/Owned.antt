-- ===== src/Bridge/Control/Gateways/Owned.antt =====
-- Who owns the queues: each transport handler has a queue of its own, and every route leads to the queue of one.
use ros2_modular_edge_offloa.Common.{
  ℕ, suc, ◌<◌, ◌≡◌, refl, ◌∙◌, ◌⊎◌, inl, inr, arith, none, some, List, [], ◌∷◌, Bytes, All,
  All-append, Option-cases, Bool-cases,
}
use ros2_modular_edge_offloa.Common.Int.{ℤ}
use ros2_modular_edge_offloa.Common.Eq.{bytes_eq, bytes_beq_iff}
use ros2_modular_edge_offloa.Common.Maps.{find, insert, find-insert, find-insert_ne}
use ros2_modular_edge_offloa.Wire.Parse.{RoutingKey, construct_routing_key, key_beq}
use ros2_modular_edge_offloa.Bridge.Routing.{
  RoutingTable, get_destinations, add_route, remove_routes_for_key,
}
use ros2_modular_edge_offloa.Bridge.Routing.Laws.{
  get_destinations-add_route, get_destinations-remove,
}
use ros2_modular_edge_offloa.Bridge.Transport.{
  TransportHandler, new_handler, Constructed, InvalidArgument, made, throws,
}
use ros2_modular_edge_offloa.Bridge.Transport.Loop.{start_thread}
use ros2_modular_edge_offloa.Bridge.Control.{
  ControlPlane, create_transport_handler_for_mgwdp, add_routes, remove_routes,
}

-- The queue is the input queue of a handler.
abbrev pub HasOwner : List (Bytes × TransportHandler) → ℕ → Type 0
HasOwner handlers queue =
    (id : Bytes) × (h : TransportHandler) × (find id handlers ≡ some h) × (h.input_queue ≡ queue)

-- Every route leads to the queue of a handler.
abbrev pub Leads : List (Bytes × TransportHandler) → RoutingTable → Type 0
Leads handlers t = (k : RoutingKey) → All (HasOwner handlers) (get_destinations t k)

pub record Owned (handlers : List (Bytes × TransportHandler)) (next : ℕ) (t : RoutingTable)
    : Type 0 where
  pub named :
      (id : Bytes) (h : TransportHandler)
      → find id handlers ≡ some h
      → (h.gateway_id ≡ id) × (h.input_queue < next)
  pub separate :
      (id jd : Bytes) (h g : TransportHandler)
      → find id handlers ≡ some h
      → find jd handlers ≡ some g
      → h.input_queue ≡ g.input_queue
      → id ≡ jd
  pub routed : Leads handlers t

made_cases :
    (c : Constructed)
    → ((reason : InvalidArgument) × (c ≡ throws reason)) ⊎ ((h : TransportHandler) × (c ≡ made h))
made_cases (made h) = inr (h, refl)
made_cases (throws reason) = inl (reason, refl)

new_handler_made :
    (id host : Bytes) (port : ℤ) (q : ℕ) (t : RoutingTable) (h : TransportHandler)
    → new_handler id host port (some q) (some t) 5 8192 2 ≡ made h
    → (h.gateway_id ≡ id) × (h.input_queue ≡ q)
unfolding new_handler
new_handler_made id host port q t h e = ground arith

add_route-Leads :
    (hs : List (Bytes × TransportHandler)) (t : RoutingTable) (key : RoutingKey) (q : ℕ)
    → HasOwner hs q
    → Leads hs t
    → Leads hs (add_route t key (some q))
add_route-Leads hs t key q o l k = elim (Bool-cases (key_beq key k)) [
  | inl hit ↦
      rw (get_destinations-add_route t key k q, hit)
        (All-append (HasOwner hs) (get_destinations t k) (q ∷ []) (l k) (o, tt))
  | inr miss ↦ rw (get_destinations-add_route t key k q, miss) (l k)
]

remove-Leads :
    (hs : List (Bytes × TransportHandler)) (t : RoutingTable) (key : RoutingKey)
    → Leads hs t
    → Leads hs (remove_routes_for_key t key)
remove-Leads hs t key l k = elim (Bool-cases (key_beq key k)) [
  | inl hit ↦ rw (get_destinations-remove t key k, hit) tt
  | inr miss ↦ rw (get_destinations-remove t key k, miss) (l k)
]

pub add_routes-Leads :
    (hs : List (Bytes × TransportHandler)) (t : RoutingTable) (g i : ℕ) (types : List ℕ) (q : ℕ)
    → HasOwner hs q
    → Leads hs t
    → Leads hs (add_routes t g i types q)
unfolding add_routes
add_routes-Leads hs t g i [] q o l = l
add_routes-Leads hs t g i (m ∷ types) q o l =
    add_routes-Leads hs (add_route t (construct_routing_key g i m) (some q)) g i types q o
      (add_route-Leads hs t (construct_routing_key g i m) q o l)

pub remove_routes-Leads :
    (hs : List (Bytes × TransportHandler)) (t : RoutingTable) (g i : ℕ) (types : List ℕ)
    → Leads hs t
    → Leads hs (remove_routes t g i types)
unfolding remove_routes
remove_routes-Leads hs t g i [] l = l
remove_routes-Leads hs t g i (m ∷ types) l =
    remove_routes-Leads hs (remove_routes_for_key t (construct_routing_key g i m)) g i types
      (remove-Leads hs t (construct_routing_key g i m) l)

-- A handler under a new id does not take the owner from any queue.
insert-HasOwner :
    (hs : List (Bytes × TransportHandler)) (id : Bytes) (h : TransportHandler)
    → find id hs ≡ none
    → (queues : List ℕ) → All (HasOwner hs) queues
    → All (HasOwner (insert id h hs)) queues
insert-HasOwner hs id h fresh [] a = tt
insert-HasOwner hs id h fresh (q ∷ queues) ((jd, g, found, own), a) = (
  (jd, g, find-insert_ne id jd h hs (λ e. cc) ∙ found, own),
  insert-HasOwner hs id h fresh queues a,
)

insert-Owned :
    (hs : List (Bytes × TransportHandler)) (n : ℕ) (t : RoutingTable) (id : Bytes)
    (h : TransportHandler)
    → find id hs ≡ none
    → h.gateway_id ≡ id
    → h.input_queue ≡ n
    → Owned hs n t
    → Owned (insert id h hs) (suc n) t
insert-Owned hs n t id h fresh name queue o = record {
  named = λ jd g found.
      ground (arith, found, find-insert id jd h hs, bytes_beq_iff id jd, o.named jd g, name, queue);
  separate = λ jd kd g f hg hf same. ground (
    arith,
    hg,
    hf,
    same,
    find-insert id jd h hs,
    find-insert id kd h hs,
    bytes_beq_iff id jd,
    bytes_beq_iff id kd,
    o.named jd g,
    o.named kd f,
    o.separate jd kd g f,
    queue,
  );
  routed = λ k. insert-HasOwner hs id h fresh (get_destinations t k) (o.routed k);
}

module _ {Value : Type 0} where
  abbrev pub IsOwned : ControlPlane Value → Type 0
  IsOwned p = Owned p.transport_handlers p.next_queue p.routing_table

  more-Owned :
      (p : ControlPlane Value) → IsOwned p → IsOwned (record p { next_queue = suc p.next_queue })
  more-Owned p o = record {
    named = λ id h found. ground (arith, o.named id h found);
    separate = o.separate;
    routed = o.routed;
  }

  pub create_transport_handler-Owned :
      (p : ControlPlane Value) (id host : Bytes) (port : ℤ)
      → IsOwned p
      → IsOwned (create_transport_handler_for_mgwdp p id host port).0
  unfolding create_transport_handler_for_mgwdp start_thread
  create_transport_handler-Owned p id host port o =
      elim (Option-cases (find id p.transport_handlers)) [
        | inr (h, known) ↦ rw (create_transport_handler_for_mgwdp, known) o
        | inl fresh ↦
            elim (made_cases
              (new_handler id host port (some p.next_queue) (some p.routing_table) 5 8192 2)) [
                | inl (reason, thrown) ↦
                    rw (create_transport_handler_for_mgwdp, fresh, thrown) (more-Owned p o)
                | inr (h, built) ↦
                    let (name, queue) =
                      new_handler_made id host port p.next_queue p.routing_table h built in
                    rw (create_transport_handler_for_mgwdp, fresh, built)
                      (insert-Owned p.transport_handlers p.next_queue p.routing_table id
                        (start_thread h) fresh name queue o)
              ]
      ]
