-- ===== src/Discovery/Service/Events/Keepalive.antt =====
-- What a keep-alive does.
use ros2_modular_edge_offloa.Common.{ℕ, ◌<◌, ◌≡◌, refl, arith, some, [], ◌∷◌, ◌++◌, Bytes}
use ros2_modular_edge_offloa.Common.Eq.{nat_eq}
use ros2_modular_edge_offloa.Common.Int.{pos, u8}
use ros2_modular_edge_offloa.Common.Decimal.{to_string, is_space}
use ros2_modular_edge_offloa.Common.Extract.{extract_char}
use ros2_modular_edge_offloa.Common.Extract.Printed.{
  extract_int-to_string_then, extract_int-to_string,
}
use ros2_modular_edge_offloa.Common.Maps.{find-update_self}
use ros2_modular_edge_offloa.Discovery.Protocol.{KeepalivePing, keepalive_response}
use ros2_modular_edge_offloa.Discovery.Registry.{
  id_of, ComponentInfo, find_by_client_id, update_keepalive,
}
use ros2_modular_edge_offloa.Discovery.Registry.Consistent.{IsConsistent}
use ros2_modular_edge_offloa.Discovery.Service.{DiscoveryService, send_response}
use ros2_modular_edge_offloa.Discovery.Service.Events.{keepalive_id, handle_keepalive, pong}

-- `group.id`, as a component prints its id.
abbrev pub printed_id : ComponentInfo → Bytes
printed_id info = to_string info.group_id ++ b'.' ∷ to_string info.id_in_group

extract_char_dot : (s : Bytes) → extract_char (b'.' ∷ s) ≡ some (b'.', s)
unfolding extract_char is_space
extract_char_dot s = ground arith

u8_small : (n : ℕ) → n < 256 → u8 (pos n) ≡ n
u8_small n h = omega arith

keepalive_id-printed_id :
    (info : ComponentInfo)
    → info.group_id < 256
    → info.id_in_group < 256
    → keepalive_id (printed_id info) ≡ some (id_of info)
unfolding keepalive_id
keepalive_id-printed_id info hg hi =
    rw
      (
        extract_int-to_string_then info.group_id b'.' (to_string info.id_in_group) (omega arith)
            (λ d. omega arith),
        extract_char_dot (to_string info.id_in_group),
        extract_int-to_string info.id_in_group (omega arith),
      )
      (rw (u8_small info.group_id hg, u8_small info.id_in_group hi) refl)

-- A keep-alive with the id of a registered component, printed as group.id, sets the time at which the component
-- was last seen and is answered with OK, if the registry is consistent and both parts of the id are bytes.
pub handle_keepalive-printed_id :
    (s : DiscoveryService) (client c : ℕ) (info : ComponentInfo) (ping : KeepalivePing) (now : ℕ)
    → IsConsistent s.registry
    → find_by_client_id s.registry c ≡ some info
    → info.group_id < 256
    → info.id_in_group < 256
    → ping.component_id ≡ printed_id info
    → (find_by_client_id (handle_keepalive s client ping now).0.registry c
        ≡ some (record info { last_seen = now }))
      × ((handle_keepalive s client ping now).1
          ≡ send_response client (keepalive_response pong) ∷ [])
unfolding handle_keepalive update_keepalive find_by_client_id
handle_keepalive-printed_id s client c info ping now v known hg hi printed =
    let read : keepalive_id ping.component_id ≡ some (id_of info) =
      rw printed (keepalive_id-printed_id info hg hi) in
    ground (
      arith,
      read,
      v.own c info,
      known,
      find-update_self c (λ i. record i { last_seen = now }) info s.registry.registry_by_client_id,
    )
