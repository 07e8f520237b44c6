-- ===== src/Discovery/Service/Events.antt =====
-- The other handlers: connections, keep-alive, queries, the purge of stale clients, and the dispatch of what was
-- received. disconnect_client of the transport calls onClientDisconnected before it returns.
pub mod Purge
pub mod Query
pub mod Keepalive
use ros2_modular_edge_offloa.Common.{
  ℕ, ◌+◌, ◌-◌, ◌*◌, ◌%◌, ◌^◌, Bool, true, false, not, ◌&&◌, ◌||◌, Option, none, some, List, [], ◌∷◌,
  ◌++◌, Bytes, codes, map, length, ltb, ◌==◌, if◌then◌else◌,
}
use ros2_modular_edge_offloa.Common.Eq.{nat_eq, bytes_beq}
use ros2_modular_edge_offloa.Common.Int.{ℤ, pos, u8}
use ros2_modular_edge_offloa.Common.Maps.{find, insert, erase}
use ros2_modular_edge_offloa.Common.Extract.{extract_int, extract_char}
use ros2_modular_edge_offloa.Discovery.Protocol.{
  ComponentType, vehicle, mec, bridge, offload_manager, test, ErrorCode, Message,
  registration_request, error, keepalive_ping, keepalive_response, component_query, component_list,
  KeepalivePing, KeepaliveResponse, ErrorMessage, ComponentQuery, ComponentListResponse,
  string_to_component_type, component_type_to_string,
}
use ros2_modular_edge_offloa.Discovery.Protocol.Codec.{Decoded, decoded, fails, decode_message}
use ros2_modular_edge_offloa.Discovery.Protocol.Component.{ComponentData, format_component_data}
use ros2_modular_edge_offloa.Discovery.Registry.{
  ComponentInfo, ComponentId, ComponentRegistry, is_om, find_by_client_id, unregister_component,
  get_all_client_ids, get_all_components, update_keepalive,
}
use ros2_modular_edge_offloa.Discovery.Service.{
  DiscoveryService, Effect, disconnect_client, disconnect, send_response, Blank,
}
use ros2_modular_edge_offloa.Discovery.Service.Registration.{handle_registration}

unfoldable pub on_client_connected : DiscoveryService → ℕ → Bytes → DiscoveryService
on_client_connected s client_id ip_address = record s {
  client_ip_addresses = insert client_id ip_address s.client_ip_addresses;
}

-- onClientDisconnected while the service shuts down.
unfoldable pub forget_client : DiscoveryService → ℕ → DiscoveryService
forget_client s client_id = record s {
  client_ip_addresses = erase client_id s.client_ip_addresses;
  registry = unregister_component s.registry client_id;
}

pub forget_clients : DiscoveryService → List ℕ → DiscoveryService
unfolding forget_client
forget_clients s [] = s
forget_clients s (id ∷ ids) = forget_clients (forget_client s id) ids

-- compare_exchange_strong on the flag: only the first call disconnects the server, which calls
-- onClientDisconnected for each client that is connected.
unfoldable pub stop : DiscoveryService → DiscoveryService × List Effect
unfolding forget_clients
stop s = if s.shutting_down then (s, []) else (
  forget_clients (record s { shutting_down = true }) (map (λ p. p.0) s.client_ip_addresses),
  disconnect ∷ [],
)

unfoldable pub on_client_disconnected : DiscoveryService → ℕ → DiscoveryService × List Effect
unfolding stop
on_client_disconnected s client_id =
    let s1 : DiscoveryService = record s {
      client_ip_addresses = erase client_id s.client_ip_addresses;
    } in
    elim (find_by_client_id s.registry client_id) [
      | none ↦ (s1, [])
      | some component ↦
          let s2 : DiscoveryService = record s1 {
            registry = unregister_component s.registry client_id;
          } in
          if not s.p2p_mode && is_om component.component_type && not s.shutting_down
          then stop s2
          else (s2, [])
    ]

abbrev pub second : ℕ
second = 1000000000

abbrev pub keepalive_timeout : ℕ
keepalive_timeout = 15 * second

-- One round of the loop over the ids.
unfoldable pub purge_client : DiscoveryService → ℕ → ℕ → DiscoveryService × List Effect
unfolding on_client_disconnected
purge_client s now client_id = elim (find_by_client_id s.registry client_id) [
  | none ↦ (s, [])
  | some component ↦
      if ltb keepalive_timeout (now - component.last_seen)
      then (let r = on_client_disconnected s client_id in (r.0, disconnect_client client_id ∷ r.1))
      else (s, [])
]

pub purge_clients : DiscoveryService → ℕ → List ℕ → DiscoveryService × List Effect
unfolding purge_client
purge_clients s now [] = (s, [])
purge_clients s now (id ∷ ids) =
    let first = purge_client s now id in
    let later = purge_clients first.0 now ids in (later.0, first.1 ++ later.1)

unfoldable pub purge_stale_clients : DiscoveryService → ℕ → DiscoveryService × List Effect
unfolding purge_clients
purge_stale_clients s now = purge_clients s now (get_all_client_ids s.registry)

-- The part of the loop of start() behind process_events. Half of fifteen seconds are seven.
unfoldable pub after_events : DiscoveryService → ℕ → DiscoveryService × List Effect
unfolding purge_stale_clients
after_events s now =
    let r = purge_stale_clients s now in
    if ltb (7 * second) (now - s.last_purge_time)
    then (record r.0 { last_purge_time = now }, r.1)
    else (s, [])

infixl 5 ◌>>=◌
abbrev ◌>>=◌ {ℓ κ} : {A : Type ℓ} {B : Type κ} → Option A → (A → Option B) → Option B
none >>= f = none
some a >>= f = f a

-- `ss >> group_id >> dot >> id_in_group`, with uint8_t parameters to follow; `none` is a malformed id.
unfoldable pub keepalive_id : Bytes → Option ComponentId
keepalive_id text = do
  group ← extract_int text
  dot ← extract_char group.1
  id ← extract_int dot.1
  if dot.0 == b'.' then some (record { group = u8 group.0; id = u8 id.0 }) else none

abbrev pub pong : KeepaliveResponse
pong = record {
  response = codes "OK";
  next_interval_ms = pos 5000;
  human_readable_message = codes "Keepalive acknowledged.";
}

unfoldable pub handle_keepalive :
    DiscoveryService → ℕ → KeepalivePing → ℕ → DiscoveryService × List Effect
unfolding keepalive_id
handle_keepalive s client_id ping now = elim (keepalive_id ping.component_id) [
  | none ↦ (s, [])
  | some id ↦
      let r = update_keepalive s.registry id now in
      let s1 : DiscoveryService = record s { registry = r.0 } in
      if r.1 then (s1, send_response client_id (keepalive_response pong) ∷ []) else (s1, [])
]

abbrev pub same_type : ComponentType → ComponentType → Bool
same_type vehicle vehicle = true
same_type mec mec = true
same_type bridge bridge = true
same_type offload_manager offload_manager = true
same_type test test = true
same_type _ _ = false

-- The filtering loop.
pub of_type : ComponentType → List ComponentInfo → List ComponentInfo
of_type t [] = []
of_type t (component ∷ components) =
    let rest = of_type t components in
    if same_type component.component_type t then component ∷ rest else rest

abbrev pub data_of : ComponentInfo → ComponentData
data_of info = record {
  component_type = component_type_to_string info.component_type;
  group_id = info.group_id;
  id_in_group = info.id_in_group;
  subtype = info.component_subtype;
}

abbrev pub refused_query : ComponentListResponse
refused_query = record {
  component_count = 0;
  component_data_list = [];
  human_readable_message =
      codes "Invalid filter: only single component types allowed (V, M, B, O, T)";
}

-- The entries are printed as format_component_data prints them.
unfoldable pub list_response : ComponentRegistry → Bytes → ComponentListResponse
unfolding of_type
list_response r filter =
    let found = of_type (string_to_component_type filter) (get_all_components r) in
    record {
      component_count = length found % 2 ^ 32;
      component_data_list = map (λ info. format_component_data (data_of info)) found;
      human_readable_message = codes "Component query successful";
    }

unfoldable pub handle_component_query : DiscoveryService → ℕ → ComponentQuery → List Effect
unfolding list_response
handle_component_query s client_id query =
    let filter = query.component_type_filter in
    if bytes_beq filter (codes "ALL") || length filter == 0
    then send_response client_id (component_list refused_query) ∷ []
    else send_response client_id (component_list (list_response s.registry filter)) ∷ []

abbrev pub malformed : ErrorMessage
malformed = record {
  error_code = ErrorCode.protocol;
  human_readable_message = codes "Malformed or invalid message received.";
}

-- Messages of the other types are only logged.
abbrev pub handle_message :
    DiscoveryService → ℕ → Blank → ℕ → Message → DiscoveryService × List Effect
unfolding handle_keepalive handle_component_query
handle_message s client_id blank now (registration_request req) =
    handle_registration s client_id req blank now
handle_message s client_id blank now (keepalive_ping ping) = handle_keepalive s client_id ping now
handle_message s client_id blank now (component_query query) =
    (s, handle_component_query s client_id query)
handle_message s client_id blank now _ = (s, [])

unfoldable pub on_data_received :
    DiscoveryService → ℕ → Bytes → Blank → ℕ → DiscoveryService × List Effect
unfolding handle_message
on_data_received s client_id data_received blank now = elim (decode_message data_received) [
  | fails status ↦ (s, send_response client_id (error malformed) ∷ [])
  | decoded message ↦ handle_message s client_id blank now message
]
