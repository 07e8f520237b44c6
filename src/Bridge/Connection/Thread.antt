-- ===== src/Bridge/Connection/Thread.antt =====
-- start, stop and connection_thread_func. The thread is run against a list of what the world does in each round
-- of its loop; the time that stop waits for the thread leaves no trace.
use ros2_modular_edge_offloa.Common.{
  ℕ, Bool, true, false, not, ◌||◌, Option, none, some, List, [], ◌∷◌, ◌++◌, Bytes, if◌then◌else◌,
}
use ros2_modular_edge_offloa.Bridge.Json.{JsonAccess}
use ros2_modular_edge_offloa.Bridge.Sessions.{SessionManager, cleanup_sessions_for_mgwcp}
use ros2_modular_edge_offloa.Bridge.Connection.{
  Connection, Effect, disconnect_client, check_for_timeouts,
}
use ros2_modular_edge_offloa.Bridge.Connection.Handlers.{
  Env, Handled, returned, raised, handle_received_message, is_empty,
}

module _ {Value : Type 0} where
  unfoldable pub start : Connection Value → Bool → Connection Value
  start c client_connected =
      if c.running then c else if not client_connected then c else record c { running = true }

  -- The sessions of the gateway are removed with its connection.
  unfoldable pub stop :
      Connection Value
      → SessionManager
      → Bool
      → Connection Value × SessionManager × List (Effect Value)
  stop c s client_connected = (
    record c { running = false },
    if is_empty c.component_id then s else (cleanup_sessions_for_mgwcp s c.component_id).0,
    if client_connected then disconnect_client c.transport_client_id ∷ [] else [],
  )

-- What data_available_from and receive_from give: nothing in time, the end of the stream, an error, or bytes (no
-- more than 8191).
pub data Incoming : Type 0 where
  nothing end_of_stream receive_error : Incoming
  bytes : Bytes → Incoming

pub record Round : Type 0 where
  -- whether another thread has stopped the connection
  pub stopped : Bool
  pub client_connected : Bool
  pub incoming : Incoming
  pub env : Env
  -- the clock at check_for_timeouts
  pub checked_at : ℕ

module _ {Value : Type 0} ⦃json : JsonAccess Value⦄ where
  abbrev handle_parsed : Option Value → Connection Value → SessionManager → Env → Handled Value
  handle_parsed none c s e = record {
    connection = c;
    sessions = s;
    effects = [];
    status = returned;
  }
  handle_parsed (some message) c s e = handle_received_message c s message e

  -- The body of the loop before check_for_timeouts; an error of the socket leaves the loop as an exception does.
  unfoldable pub handle_incoming :
      Connection Value → SessionManager → Incoming → Env → Handled Value
  handle_incoming c s nothing e = record {
    connection = c;
    sessions = s;
    effects = [];
    status = returned;
  }
  handle_incoming c s end_of_stream e = record {
    connection = c;
    sessions = s;
    effects = [];
    status = returned;
  }
  handle_incoming c s receive_error e = record {
    connection = c;
    sessions = s;
    effects = [];
    status = raised;
  }
  handle_incoming c s (bytes json_str) e = handle_parsed (json.parse json_str) c s e

  -- check_for_timeouts is behind the handler, and is not reached when that throws.
  abbrev pub then_check : Handled Value → ℕ → Handled Value
  then_check h now = elim h.status [
    | raised ↦ h
    | returned ↦
        let checked = check_for_timeouts h.connection now in
        record h { connection = checked.0; effects = h.effects ++ checked.1 }
  ]

  unfoldable pub loop_body : Connection Value → SessionManager → Round → Handled Value
  loop_body c s r = then_check (handle_incoming c s r.incoming r.env) r.checked_at

  unfoldable pub connection_thread_func :
      Connection Value → SessionManager → List Round → Handled Value
  connection_thread_func c s [] = record {
    connection = c;
    sessions = s;
    effects = [];
    status = returned;
  }
  connection_thread_func c s (r ∷ rounds) =
      let h = loop_body c s r in
      let rest = connection_thread_func h.connection h.sessions rounds in
      if r.stopped || not c.running || not r.client_connected
      then record { connection = c; sessions = s; effects = []; status = returned }
      else (elim h.status [
        | raised ↦ h
        | returned ↦ record rest { effects = h.effects ++ rest.effects }
      ])
