-- ===== src/Discovery/Registry/Stale.antt =====
-- A client that registers twice.
use ros2_modular_edge_offloa.Common.{
  true, false, ◌≡◌, ◌≢◌, arith, none, some, if◌then◌else◌, ==_iff,
}
use ros2_modular_edge_offloa.Common.Eq.{nat_eq}
use ros2_modular_edge_offloa.Common.Maps.{find, find-insert, find-erase}
use ros2_modular_edge_offloa.Discovery.Registry.{
  ComponentId, id_beq, id_beq_iff, id_eq, ComponentInfo, id_of, ComponentRegistry,
  find_by_client_id, is_id_taken, register_component, unregister_component,
}

id_after :
    (r : ComponentRegistry) (i : ComponentInfo) (k : ComponentId)
    → is_id_taken r (id_of i) ≡ false
    → find k (register_component r i).0.client_id_by_component_id
      ≡ (if id_beq (id_of i) k then some i.client_id else find k r.client_id_by_component_id)
unfolding register_component
id_after r i k free = rw free (find-insert (id_of i) k i.client_id r.client_id_by_component_id)

client_after :
    (r : ComponentRegistry) (i : ComponentInfo)
    → is_id_taken r (id_of i) ≡ false
    → find i.client_id (register_component r i).0.registry_by_client_id ≡ some i
unfolding register_component
client_after r i free = rw free (
    ground (
      arith,
      find-insert i.client_id i.client_id i r.registry_by_client_id,
      ==_iff i.client_id i.client_id,
    ))

-- If a client registers under two free ids that differ and then disconnects, the first id stays taken although
-- the client is registered no more.
pub unregister_component_stale :
    (r : ComponentRegistry) (first second : ComponentInfo)
    → first.client_id ≡ second.client_id
    → id_of first ≢ id_of second
    → is_id_taken r (id_of first) ≡ false
    → is_id_taken r (id_of second) ≡ false
    → let once = (register_component r first).0 in
      let twice = (register_component once second).0 in
      let gone = unregister_component twice second.client_id in
      (is_id_taken gone (id_of first) ≡ true) × (find_by_client_id gone second.client_id ≡ none)
unfolding is_id_taken find_by_client_id unregister_component
unregister_component_stale r first second same differ free_first free_second =
    let once = (register_component r first).0 in
    let still_free : is_id_taken once (id_of second) ≡ false = ground (
      arith,
      id_after r first (id_of second) free_first,
      id_beq_iff (id_of first) (id_of second),
    ) in
    let twice = (register_component once second).0 in
    let known = client_after once second still_free in
    rw (known, unregister_component)
      (
        ground (
          arith,
          find-erase (id_of second) (id_of first) twice.client_id_by_component_id,
          id_after once second (id_of first) still_free,
          id_after r first (id_of first) free_first,
          id_beq_iff (id_of first) (id_of first),
          id_beq_iff (id_of second) (id_of first),
        ),
        ground (
          arith,
          find-erase second.client_id second.client_id twice.registry_by_client_id,
          ==_iff second.client_id second.client_id,
        ),
      )
