-- ===== src/Bridge/Control/Approval/Denied.antt =====
-- What becomes of a denial.
use ros2_modular_edge_offloa.Common.{ℕ, ◌≡◌, refl, arith, none, [], Bytes}
use ros2_modular_edge_offloa.Common.Eq.{bytes_eq}
use ros2_modular_edge_offloa.Common.Maps.{find-erase_self}
use ros2_modular_edge_offloa.Bridge.Json.{JsonAccess}
use ros2_modular_edge_offloa.Bridge.Sessions.{SessionManager, get_session, remove_session}
use ros2_modular_edge_offloa.Bridge.Connection.{Delivery}
use ros2_modular_edge_offloa.Bridge.Control.{ControlPlane}
use ros2_modular_edge_offloa.Bridge.Control.Approval.{forward_denial, handle_session_denied}

get_session-remove_session :
    (s : SessionManager) (r : Bytes) → get_session (remove_session s r).0 r ≡ none
unfolding get_session remove_session
get_session-remove_session s r = ground (arith, find-erase_self r s)

module _ {Value : Type 0} where
  forward_denial_silent :
      (p : ControlPlane Value) (r reason : Bytes) (deliver : ℕ → Delivery) (now : ℕ)
      → (forward_denial p r reason deliver now).calls ≡ []
  unfolding forward_denial
  forward_denial_silent p r reason deliver now =
      rw (forward_denial, get_session-remove_session p.session_manager r) refl

module _ {Value : Type 0} ⦃json : JsonAccess Value⦄ where
  -- No denial of the offloading manager reaches a gateway, whatever the sessions and the connections are: the
  -- session is removed before its gateway is looked up in it.
  pub handle_session_denied_silent :
      (p : ControlPlane Value) (message : Value) (deliver : ℕ → Delivery) (now : ℕ)
      → (handle_session_denied p message deliver now).calls ≡ []
  unfolding handle_session_denied
  handle_session_denied_silent p message deliver now = grind (arith, forward_denial_silent)
