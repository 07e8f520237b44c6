-- ===== src/Bridge/Sessions.antt =====
-- bridge/src/SessionManager.cpp: the active sessions by request id. Times are ticks of the steady clock, and
-- a call that reads the clock takes the time as an argument.
pub mod Laws
pub mod Keyed
mod Tests
use ros2_modular_edge_offloa.Common.{
  ℕ, suc, ◌+◌, ◌-◌, Bool, true, false, Option, none, some, List, [], ◌∷◌, Bytes, map, length, ltb,
  if◌then◌else◌,
}
use ros2_modular_edge_offloa.Common.Eq.{bytes_beq, bytes_eq}
use ros2_modular_edge_offloa.Common.Maps.{find, insert, erase, update}
use ros2_modular_edge_offloa.Bridge.Config.{GlobalConfig, TaskConfig, get_task_config}

pub record ActiveSession : Type 0 where
  pub request_id : Bytes
  pub mgwcp_component_id : Bytes
  pub task_id : ℕ
  pub task_name : Bytes
  pub input_message_types : List ℕ
  pub output_message_types : List ℕ
  pub assigned_mec_id : Bytes
  pub last_keepalive : ℕ
  pub created_at : ℕ
  pub vhc_dp_connected : Bool
  pub mec_dp_connected : Bool
  pub routing_rules_created : Bool

-- `sessions_`
abbrev pub SessionManager : Type 0
SessionManager = List (Bytes × ActiveSession)

unfoldable pub get_session : SessionManager → Bytes → Option ActiveSession
get_session s request_id = find request_id s

unfoldable pub create_session :
    SessionManager → Bytes → Bytes → ℕ → Bytes → GlobalConfig → ℕ → SessionManager × Bool
create_session s request_id mgwcp_component_id task_id task_name global_config now =
    elim (find request_id s) [
      | some existing ↦ (s, false)
      | none ↦ elim (get_task_config global_config task_id) [
        | none ↦ (s, false)
        | some task_config ↦
            let session : ActiveSession = record {
              request_id = request_id;
              mgwcp_component_id = mgwcp_component_id;
              task_id = task_id;
              task_name = task_name;
              input_message_types = task_config.input_message_types;
              output_message_types = task_config.output_message_types;
              assigned_mec_id = [];
              last_keepalive = now;
              created_at = now;
              vhc_dp_connected = false;
              mec_dp_connected = false;
              routing_rules_created = false;
            } in
            (insert request_id session s, true)
      ]
    ]

unfoldable pub remove_session : SessionManager → Bytes → SessionManager × Bool
remove_session s request_id = elim (find request_id s) [
  | none ↦ (s, false)
  | some session ↦ (erase request_id s, true)
]

unfoldable pub get_sessions_for_mgwcp : SessionManager → Bytes → List ActiveSession
get_sessions_for_mgwcp [] id = []
get_sessions_for_mgwcp ((k, session) ∷ s) id =
    let rest = get_sessions_for_mgwcp s id in
    if bytes_beq session.mgwcp_component_id id then session ∷ rest else rest

-- The setters look the session up, write one field of it, and say whether it was there.
abbrev pub change : (ActiveSession → ActiveSession) → SessionManager → Bytes → SessionManager × Bool
change f s request_id = elim (find request_id s) [
  | none ↦ (s, false)
  | some session ↦ (update request_id f s, true)
]

unfoldable pub update_keepalive : SessionManager → Bytes → ℕ → SessionManager × Bool
update_keepalive s request_id now =
    change (λ session. record session { last_keepalive = now }) s request_id

unfoldable pub set_assigned_mec : SessionManager → Bytes → Bytes → SessionManager × Bool
set_assigned_mec s request_id mec_id =
    change (λ session. record session { assigned_mec_id = mec_id }) s request_id

unfoldable pub set_vhc_dp_connected : SessionManager → Bytes → Bool → SessionManager × Bool
set_vhc_dp_connected s request_id connected =
    change (λ session. record session { vhc_dp_connected = connected }) s request_id

unfoldable pub set_mec_dp_connected : SessionManager → Bytes → Bool → SessionManager × Bool
set_mec_dp_connected s request_id connected =
    change (λ session. record session { mec_dp_connected = connected }) s request_id

unfoldable pub set_routing_rules_created : SessionManager → Bytes → Bool → SessionManager × Bool
set_routing_rules_created s request_id created =
    change (λ session. record session { routing_rules_created = created }) s request_id

-- The loop tests each session, and its push_back is commented out.
unfoldable pub find_expired_sessions : SessionManager → ℕ → ℕ → List Bytes
find_expired_sessions [] timeout_duration now = []
find_expired_sessions ((k, session) ∷ s) timeout_duration now =
    let expired_sessions = find_expired_sessions s timeout_duration now in
    if ltb timeout_duration (now - session.last_keepalive)
    then expired_sessions
    else expired_sessions

pub get_active_session_count : SessionManager → ℕ
get_active_session_count s = length s

pub get_all_request_ids : SessionManager → List Bytes
get_all_request_ids s = map (λ p. p.0) s

-- The sessions that stay, and the count of the others.
unfoldable pub cleanup_sessions_for_mgwcp : SessionManager → Bytes → SessionManager × ℕ
cleanup_sessions_for_mgwcp [] id = ([], 0)
cleanup_sessions_for_mgwcp ((k, session) ∷ s) id =
    let rest = cleanup_sessions_for_mgwcp s id in
    if bytes_beq session.mgwcp_component_id id
    then (rest.0, suc rest.1)
    else ((k, session) ∷ rest.0, rest.1)
