-- ===== src/Bridge/Sessions/Keyed.antt =====
-- The sessions are stored once each, under their own request ids.
use ros2_modular_edge_offloa.Common.{
  ℕ, Bool, ◌≡◌, refl, none, arith, [], ◌∷◌, Bytes, All, Option-cases, inl, inr,
}
use ros2_modular_edge_offloa.Common.Eq.{bytes_beq_iff, bytes_eq}
use ros2_modular_edge_offloa.Common.Maps.{find, insert, erase, update}
use ros2_modular_edge_offloa.Common.Maps.Distinct.{
  Distinct, insert-Distinct, erase-Distinct, update-Distinct,
}
use ros2_modular_edge_offloa.Bridge.Config.{GlobalConfig, get_task_config}
use ros2_modular_edge_offloa.Bridge.Sessions.{
  ActiveSession, SessionManager, create_session, remove_session, update_keepalive, set_assigned_mec,
  set_vhc_dp_connected, set_mec_dp_connected, set_routing_rules_created, cleanup_sessions_for_mgwcp,
  change,
}

abbrev pub Own : SessionManager → Type 0
Own = All (λ p. p.1.request_id ≡ p.0)

pub record IsKeyed (s : SessionManager) : Type 0 where
  pub once : Distinct s
  pub own : Own s

insert-Own :
    (k : Bytes) (v : ActiveSession) (s : SessionManager)
    → v.request_id ≡ k
    → Own s
    → Own (insert k v s)
unfolding insert
insert-Own k v [] e o = (e, tt)
insert-Own k v ((j, w) ∷ s) e (oj, o) = ground (arith, bytes_beq_iff j k, insert-Own k v s e o)

erase-Own : (k : Bytes) (s : SessionManager) → Own s → Own (erase k s)
unfolding erase
erase-Own k [] o = tt
erase-Own k ((j, w) ∷ s) (oj, o) = ground (arith, erase-Own k s o)

update-Own :
    (k : Bytes) (f : ActiveSession → ActiveSession) (s : SessionManager)
    → ((v : ActiveSession) → (f v).request_id ≡ v.request_id)
    → Own s
    → Own (update k f s)
unfolding update
update-Own k f [] keep o = tt
update-Own k f ((j, w) ∷ s) keep (oj, o) = ground (arith, keep w, update-Own k f s keep o)

cleanup-Own : (s : SessionManager) (id : Bytes) → Own s → Own (cleanup_sessions_for_mgwcp s id).0
unfolding cleanup_sessions_for_mgwcp
cleanup-Own [] id o = tt
cleanup-Own ((k, v) ∷ s) id (ok, o) = ground (arith, cleanup-Own s id o)

find-cleanup_none :
    (s : SessionManager) (id k : Bytes)
    → find k s ≡ none
    → find k (cleanup_sessions_for_mgwcp s id).0 ≡ none
unfolding cleanup_sessions_for_mgwcp find
find-cleanup_none [] id k h = refl
find-cleanup_none ((j, v) ∷ s) id k h = ground (arith, find-cleanup_none s id k)

cleanup-Distinct :
    (s : SessionManager) (id : Bytes) → Distinct s → Distinct (cleanup_sessions_for_mgwcp s id).0
unfolding cleanup_sessions_for_mgwcp
cleanup-Distinct [] id d = tt
cleanup-Distinct ((j, v) ∷ s) id (fresh, d) =
    ground (arith, find-cleanup_none s id j fresh, cleanup-Distinct s id d)

-- The calls that change the sessions.
pub data Call : Type 0 where
  create : Bytes → Bytes → ℕ → Bytes → GlobalConfig → ℕ → Call
  remove : Bytes → Call
  keepalive : Bytes → ℕ → Call
  assign : Bytes → Bytes → Call
  vhc_connected mec_connected rules_created : Bytes → Bool → Call
  cleanup : Bytes → Call

abbrev pub call : SessionManager → Call → SessionManager
call s (create id component task name config now) =
    (create_session s id component task name config now).0
call s (remove id) = (remove_session s id).0
call s (keepalive id now) = (update_keepalive s id now).0
call s (assign id mec) = (set_assigned_mec s id mec).0
call s (vhc_connected id b) = (set_vhc_dp_connected s id b).0
call s (mec_connected id b) = (set_mec_dp_connected s id b).0
call s (rules_created id b) = (set_routing_rules_created s id b).0
call s (cleanup component) = (cleanup_sessions_for_mgwcp s component).0

change-IsKeyed :
    (f : ActiveSession → ActiveSession) (s : SessionManager) (id : Bytes)
    → ((v : ActiveSession) → (f v).request_id ≡ v.request_id)
    → IsKeyed s
    → IsKeyed (change f s id).0
change-IsKeyed f s id keep v = elim (Option-cases (find id s)) [
  | inl missing ↦ rw (missing, change) v
  | inr (session, found) ↦
      rw (found, change)
        (record { once = update-Distinct id f s v.once; own = update-Own id f s keep v.own })
]

create-IsKeyed :
    (s : SessionManager) (id component : Bytes) (task : ℕ) (name : Bytes) (config : GlobalConfig)
    (now : ℕ)
    → IsKeyed s
    → IsKeyed (create_session s id component task name config now).0
unfolding create_session
create-IsKeyed s id component task name config now v = elim (Option-cases (find id s)) [
  | inr (session, found) ↦ rw (found, create_session) v
  | inl missing ↦ elim (Option-cases (get_task_config config task)) [
    | inl unknown ↦ rw (missing, unknown, create_session) v
    | inr (t, known) ↦
        rw (missing, known, create_session)
          (record { once = insert-Distinct id _ s v.once; own = insert-Own id _ s refl v.own })
  ]
]

remove-IsKeyed : (s : SessionManager) (id : Bytes) → IsKeyed s → IsKeyed (remove_session s id).0
unfolding remove_session
remove-IsKeyed s id v = elim (Option-cases (find id s)) [
  | inl missing ↦ rw (missing, remove_session) v
  | inr (session, found) ↦
      rw (found, remove_session)
        (record { once = erase-Distinct id s v.once; own = erase-Own id s v.own })
]

-- Every call keeps each session stored once, under its own request id.
pub call-IsKeyed : (s : SessionManager) (c : Call) → IsKeyed s → IsKeyed (call s c)
unfolding update_keepalive set_assigned_mec set_vhc_dp_connected set_mec_dp_connected
    set_routing_rules_created
call-IsKeyed s (create id component task name config now) v =
    create-IsKeyed s id component task name config now v
call-IsKeyed s (remove id) v = remove-IsKeyed s id v
call-IsKeyed s (keepalive id now) v = change-IsKeyed _ s id (λ x. refl) v
call-IsKeyed s (assign id mec) v = change-IsKeyed _ s id (λ x. refl) v
call-IsKeyed s (vhc_connected id b) v = change-IsKeyed _ s id (λ x. refl) v
call-IsKeyed s (mec_connected id b) v = change-IsKeyed _ s id (λ x. refl) v
call-IsKeyed s (rules_created id b) v = change-IsKeyed _ s id (λ x. refl) v
call-IsKeyed s (cleanup component) v = record {
  once = cleanup-Distinct s component v.once;
  own = cleanup-Own s component v.own;
}
