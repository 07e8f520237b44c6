-- ===== src/Discovery/Service/Events/Purge.antt =====
-- Who is forgotten: clients that disconnect, and clients that were not seen for the time-out.
use ros2_modular_edge_offloa.Common.{
  ℕ, ◌-◌, true, none, some, List, [], ◌∷◌, map, ◌==◌, if◌then◌else◌,
}
use ros2_modular_edge_offloa.Common.Eq.{nat_eq}
use ros2_modular_edge_offloa.Common.Maps.{find, erase}
use ros2_modular_edge_offloa.Discovery.Registry.{
  ComponentInfo, ComponentRegistry, find_by_client_id, unregister_component, get_all_client_ids,
}
use ros2_modular_edge_offloa.Discovery.Service.{DiscoveryService}
use ros2_modular_edge_offloa.Common.{◌≡◌, ◌≤◌, inl, inr, arith, Bool-cases, Option-cases, ==_iff}
use ros2_modular_edge_offloa.Common.Maps.{find-erase}
use ros2_modular_edge_offloa.Discovery.Registry.Consistent.{elem}
use ros2_modular_edge_offloa.Discovery.Service.Events.{
  forget_client, forget_clients, stop, on_client_disconnected, purge_client, purge_clients,
  purge_stale_clients, keepalive_timeout,
}

-- The second registry knows no component that the first does not know.
abbrev Below : ComponentRegistry → ComponentRegistry → Type 0
Below r r' =
    (c : ℕ) (info : ComponentInfo)
    → find_by_client_id r' c ≡ some info
    → find_by_client_id r c ≡ some info

unregister-find :
    (r : ComponentRegistry) (id c : ℕ)
    → find_by_client_id (unregister_component r id) c
      ≡ (if id == c then none else find_by_client_id r c)
unfolding unregister_component find_by_client_id
unregister-find r id c = elim (Option-cases (find id r.registry_by_client_id)) [
  | inl missing ↦ rw (missing, unregister_component) (ground (arith, missing, ==_iff id c))
  | inr (info, known) ↦ rw (known, unregister_component) (find-erase id c r.registry_by_client_id)
]

forget_clients-Below :
    (s : DiscoveryService) (ids : List ℕ) → Below s.registry (forget_clients s ids).registry
unfolding forget_clients forget_client
forget_clients-Below s [] c info h = h
forget_clients-Below s (id ∷ ids) c info h =
    let later = forget_clients-Below (forget_client s id) ids c info h in
    ground (arith, later, unregister-find s.registry id c)

stop-Below : (s : DiscoveryService) → Below s.registry (stop s).0.registry
unfolding stop
stop-Below s c info h =
    let s1 : DiscoveryService = record s { shutting_down = true } in
    ground (arith, forget_clients-Below s1 (map (λ p. p.0) s.client_ip_addresses) c info)

without : DiscoveryService → ℕ → DiscoveryService
without s id = record s {
  client_ip_addresses = erase id s.client_ip_addresses;
  registry = unregister_component s.registry id;
}

disconnected-Below :
    (s : DiscoveryService) (id : ℕ)
    → Below (unregister_component s.registry id) (on_client_disconnected s id).0.registry
unfolding on_client_disconnected without
disconnected-Below s id c info h = elim (Option-cases (find_by_client_id s.registry id)) [
  | inl missing ↦ ground (arith, missing, unregister-find s.registry id c)
  | inr (component, known) ↦ ground (arith, known, stop-Below (without s id) c info)
]

purge_client-Below :
    (s : DiscoveryService) (now id : ℕ) → Below s.registry (purge_client s now id).0.registry
unfolding purge_client
purge_client-Below s now id c info h = elim (Option-cases (find_by_client_id s.registry id)) [
  | inl missing ↦ ground (arith, missing)
  | inr (component, known) ↦
      ground (arith, known, disconnected-Below s id c info, unregister-find s.registry id c)
]

-- The client of the round stays only if it was seen in time.
purge_client_fresh :
    (s : DiscoveryService) (now id : ℕ) (info : ComponentInfo)
    → find_by_client_id (purge_client s now id).0.registry id ≡ some info
    → now - info.last_seen ≤ keepalive_timeout
unfolding purge_client
purge_client_fresh s now id info h = elim (Option-cases (find_by_client_id s.registry id)) [
  | inl missing ↦ absurd (ground (arith, missing))
  | inr (component, known) ↦ ground (
    arith,
    known,
    ==_iff id id,
    disconnected-Below s id id info,
    unregister-find s.registry id id,
  )
]

purge_clients-Below :
    (s : DiscoveryService) (now : ℕ) (ids : List ℕ)
    → Below s.registry (purge_clients s now ids).0.registry
unfolding purge_clients
purge_clients-Below s now [] c info h = h
purge_clients-Below s now (id ∷ ids) c info h =
    purge_client-Below s now id c info
      (purge_clients-Below (purge_client s now id).0 now ids c info h)

purge_clients_fresh :
    (s : DiscoveryService) (now : ℕ) (ids : List ℕ) (c : ℕ) (info : ComponentInfo)
    → elem c ids ≡ true
    → find_by_client_id (purge_clients s now ids).0.registry c ≡ some info
    → now - info.last_seen ≤ keepalive_timeout
unfolding purge_clients
purge_clients_fresh s now [] c info m h = absurd (cc)
purge_clients_fresh s now (id ∷ ids) c info m h = elim (Bool-cases (id == c)) [
  | inl same ↦
      let e : id ≡ c = (==_iff id c).0 same in
      purge_client_fresh s now id info
        (rw e (purge_clients-Below (purge_client s now c).0 now ids c info (rw e at h)))
  | inr other ↦ purge_clients_fresh (purge_client s now id).0 now ids c info (ground arith) h
]

find-elem :
    (m : List (ℕ × ComponentInfo)) (c : ℕ) (info : ComponentInfo)
    → find c m ≡ some info
    → elem c (map (λ p. p.0) m) ≡ true
unfolding find
find-elem [] c info h = absurd (cc)
find-elem ((k, v) ∷ m) c info h = ground (arith, find-elem m c info)

-- After a purge every component that is still registered was seen within the last fifteen seconds.
pub purge_stale_clients_fresh :
    (s : DiscoveryService) (now c : ℕ) (info : ComponentInfo)
    → find_by_client_id (purge_stale_clients s now).0.registry c ≡ some info
    → now - info.last_seen ≤ keepalive_timeout
unfolding purge_stale_clients get_all_client_ids find_by_client_id
purge_stale_clients_fresh s now c info h =
    let ids = get_all_client_ids s.registry in
    let before = purge_clients-Below s now ids c info h in
    purge_clients_fresh s now ids c info (find-elem s.registry.registry_by_client_id c info before)
      h

purge_client_keeps :
    (s : DiscoveryService) (now id c : ℕ) (info : ComponentInfo)
    → s.p2p_mode ≡ true
    → now - info.last_seen ≤ keepalive_timeout
    → find_by_client_id s.registry c ≡ some info
    → (find_by_client_id (purge_client s now id).0.registry c ≡ some info)
      × ((purge_client s now id).0.p2p_mode ≡ true)
unfolding purge_client on_client_disconnected
purge_client_keeps s now id c info p2p fresh h =
    elim (Option-cases (find_by_client_id s.registry id)) [
      | inl missing ↦ ground (arith, missing)
      | inr (component, known) ↦ ground (arith, known, ==_iff id c, unregister-find s.registry id c)
    ]

purge_clients_keeps :
    (s : DiscoveryService) (now : ℕ) (ids : List ℕ) (c : ℕ) (info : ComponentInfo)
    → s.p2p_mode ≡ true
    → now - info.last_seen ≤ keepalive_timeout
    → find_by_client_id s.registry c ≡ some info
    → find_by_client_id (purge_clients s now ids).0.registry c ≡ some info
unfolding purge_clients
purge_clients_keeps s now [] c info p2p fresh h = h
purge_clients_keeps s now (id ∷ ids) c info p2p fresh h =
    let one = purge_client_keeps s now id c info p2p fresh h in
    purge_clients_keeps (purge_client s now id).0 now ids c info one.1 fresh one.0

-- In the P2P mode a purge forgets no component that was seen within the last fifteen seconds.
pub purge_stale_clients_keeps :
    (s : DiscoveryService) (now c : ℕ) (info : ComponentInfo)
    → s.p2p_mode ≡ true
    → now - info.last_seen ≤ keepalive_timeout
    → find_by_client_id s.registry c ≡ some info
    → find_by_client_id (purge_stale_clients s now).0.registry c ≡ some info
unfolding purge_stale_clients
purge_stale_clients_keeps s now c info p2p fresh h =
    purge_clients_keeps s now (get_all_client_ids s.registry) c info p2p fresh h
