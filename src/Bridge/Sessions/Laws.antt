-- ===== src/Bridge/Sessions/Laws.antt =====
-- The session manager as a map from request ids: what each call does to the session of each id.
use ros2_modular_edge_offloa.Common.{
  ℕ, false, ◌≡◌, refl, Option, none, some, arith, [], ◌∷◌, Bytes, length, Option-cases,
  if◌then◌else◌, inl, inr,
}
use ros2_modular_edge_offloa.Common.Eq.{bytes_beq, bytes_beq_iff, bytes_eq}
use ros2_modular_edge_offloa.Common.Maps.{find, update, find-insert, find-erase}
use ros2_modular_edge_offloa.Common.Maps.Distinct.{Distinct}
use ros2_modular_edge_offloa.Bridge.Config.{GlobalConfig, TaskConfig, get_task_config}
use ros2_modular_edge_offloa.Bridge.Sessions.{
  ActiveSession, SessionManager, get_session, create_session, remove_session, update_keepalive,
  set_assigned_mec, set_vhc_dp_connected, set_mec_dp_connected, set_routing_rules_created,
  cleanup_sessions_for_mgwcp, change, find_expired_sessions, get_sessions_for_mgwcp,
}
use ros2_modular_edge_offloa.Bridge.Sessions.Keyed.{
  Call, create, remove, keepalive, assign, vhc_connected, mec_connected, rules_created, cleanup,
  call, IsKeyed,
}

-- A new session has the message types of its task, no MEC, and nothing connected.
abbrev new_session : Bytes → Bytes → ℕ → Bytes → ℕ → TaskConfig → ActiveSession
new_session id component task name now t = record {
  request_id = id;
  mgwcp_component_id = component;
  task_id = task;
  task_name = name;
  input_message_types = t.input_message_types;
  output_message_types = t.output_message_types;
  assigned_mec_id = [];
  last_keepalive = now;
  created_at = now;
  vhc_dp_connected = false;
  mec_dp_connected = false;
  routing_rules_created = false;
}

abbrev created : Bytes → Bytes → ℕ → Bytes → ℕ → Option TaskConfig → Option ActiveSession
created id component task name now none = none
created id component task name now (some t) = some (new_session id component task name now t)

abbrev or_else : Option ActiveSession → Option ActiveSession → Option ActiveSession
or_else none other = other
or_else (some v) other = some v

abbrev changed : (ActiveSession → ActiveSession) → Option ActiveSession → Option ActiveSession
changed f none = none
changed f (some v) = some (f v)

abbrev unless_of : Bytes → Option ActiveSession → Option ActiveSession
unless_of component none = none
unless_of component (some v) = if bytes_beq v.mgwcp_component_id component then none else some v

-- The specification: a call changes the session of one id only, but for a clean-up, which removes the
-- sessions of one component.
abbrev pub effect : Call → Bytes → Option ActiveSession → Option ActiveSession
effect (create id component task name config now) k o =
    if bytes_beq id k
    then or_else o (created id component task name now (get_task_config config task))
    else o
effect (remove id) k o = if bytes_beq id k then none else o
effect (keepalive id now) k o =
    if bytes_beq id k then changed (λ v. record v { last_keepalive = now }) o else o
effect (assign id mec) k o =
    if bytes_beq id k then changed (λ v. record v { assigned_mec_id = mec }) o else o
effect (vhc_connected id b) k o =
    if bytes_beq id k then changed (λ v. record v { vhc_dp_connected = b }) o else o
effect (mec_connected id b) k o =
    if bytes_beq id k then changed (λ v. record v { mec_dp_connected = b }) o else o
effect (rules_created id b) k o =
    if bytes_beq id k then changed (λ v. record v { routing_rules_created = b }) o else o
effect (cleanup component) k o = unless_of component o

find-update :
    (k j : Bytes) (f : ActiveSession → ActiveSession) (s : SessionManager)
    → find j (update k f s) ≡ (if bytes_beq k j then changed f (find j s) else find j s)
unfolding find update
find-update k j f [] = ground arith
find-update k j f ((i, w) ∷ s) =
    ground (arith, bytes_beq_iff k j, bytes_beq_iff i k, bytes_beq_iff i j, find-update k j f s)

find-change :
    (f : ActiveSession → ActiveSession) (s : SessionManager) (id k : Bytes)
    → find k (change f s id).0 ≡ (if bytes_beq id k then changed f (find k s) else find k s)
find-change f s id k = elim (Option-cases (find id s)) [
  | inl missing ↦ ground (arith, missing, bytes_beq_iff id k)
  | inr (v, found) ↦ ground (arith, found, find-update id k f s)
]

find-cleanup :
    (s : SessionManager) (component k : Bytes)
    → Distinct s
    → find k (cleanup_sessions_for_mgwcp s component).0 ≡ unless_of component (find k s)
unfolding find cleanup_sessions_for_mgwcp
find-cleanup [] component k d = refl
find-cleanup ((j, v) ∷ s) component k (fresh, d) =
    ground (arith, bytes_beq_iff j k, find-cleanup s component k d)

find-create :
    (s : SessionManager) (id component : Bytes) (task : ℕ) (name : Bytes) (config : GlobalConfig)
    (now : ℕ) (k : Bytes)
    → find k (create_session s id component task name config now).0
      ≡ effect (create id component task name config now) k (find k s)
unfolding create_session
find-create s id component task name config now k = elim (Option-cases (find id s)) [
  | inr (session, found) ↦ ground (arith, found, bytes_beq_iff id k)
  | inl missing ↦ elim (Option-cases (get_task_config config task)) [
    | inl unknown ↦ ground (arith, missing, unknown, bytes_beq_iff id k)
    | inr (t, known) ↦ ground (
      arith,
      missing,
      known,
      bytes_beq_iff id k,
      find-insert id k (new_session id component task name now t) s,
    )
  ]
]

-- Each call does to the session of every id what the specification says, if every session is stored once.
pub get_session-call :
    (s : SessionManager) (c : Call) (k : Bytes)
    → IsKeyed s
    → get_session (call s c) k ≡ effect c k (get_session s k)
unfolding get_session create_session remove_session update_keepalive set_assigned_mec
    set_vhc_dp_connected set_mec_dp_connected set_routing_rules_created
get_session-call s (create id component task name config now) k v =
    find-create s id component task name config now k
get_session-call s (remove id) k v = ground (arith, find-erase id k s, bytes_beq_iff id k)
get_session-call s (keepalive id now) k v = find-change _ s id k
get_session-call s (assign id mec) k v = find-change _ s id k
get_session-call s (vhc_connected id b) k v = find-change _ s id k
get_session-call s (mec_connected id b) k v = find-change _ s id k
get_session-call s (rules_created id b) k v = find-change _ s id k
get_session-call s (cleanup component) k v = find-cleanup s component k v.once

-- No session is ever reported as expired, whatever the clock and the time-out are.
pub find_expired_sessions_never :
    (s : SessionManager) (timeout_duration now : ℕ)
    → find_expired_sessions s timeout_duration now ≡ []
unfolding find_expired_sessions
find_expired_sessions_never [] timeout_duration now = refl
find_expired_sessions_never ((k, v) ∷ s) timeout_duration now =
    ground (arith, find_expired_sessions_never s timeout_duration now)

-- A clean-up reports as many sessions as the component had, leaves it none, and leaves another component
-- those it had, in their order.
pub cleanup-get_sessions_for_mgwcp :
    (s : SessionManager) (component other : Bytes)
    → ((cleanup_sessions_for_mgwcp s component).1 ≡ length (get_sessions_for_mgwcp s component))
      × (get_sessions_for_mgwcp (cleanup_sessions_for_mgwcp s component).0 other
          ≡ (if bytes_beq component other then [] else get_sessions_for_mgwcp s other))
unfolding cleanup_sessions_for_mgwcp get_sessions_for_mgwcp
cleanup-get_sessions_for_mgwcp [] component other = (refl, ground arith)
cleanup-get_sessions_for_mgwcp ((k, v) ∷ s) component other = ground (
  arith,
  cleanup-get_sessions_for_mgwcp s component other,
  bytes_beq_iff component other,
  bytes_beq_iff v.mgwcp_component_id component,
  bytes_beq_iff v.mgwcp_component_id other,
)
