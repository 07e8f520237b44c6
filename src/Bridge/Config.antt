-- ===== src/Bridge/Config.antt =====
-- bridge/src/GlobalConfig.cpp: the tasks of the global configuration. The JSON document is given by what
-- nlohmann::json answers to the accesses that the code makes: the outer Option of a field says whether
-- `contains` finds it, the inner one whether its conversion succeeds or throws.
pub mod Index
mod Tests
use ros2_modular_edge_offloa.Common.{
  ℕ, ◌+◌, ◌%◌, ◌^◌, Bool, true, false, Option, none, some, List, [], ◌∷◌, ◌++◌, Bytes, length,
  get_elem?,
}
use ros2_modular_edge_offloa.Common.Eq.{nat_eq}
use ros2_modular_edge_offloa.Common.Maps.{find, insert}

pub record TaskConfig : Type 0 where
  pub task_id : ℕ
  pub task_name : Bytes
  pub input_message_types : List ℕ
  pub output_message_types : List ℕ

pub record GlobalConfig : Type 0 where
  pub tasks : List TaskConfig
  pub task_id_to_index : List (ℕ × ℕ)
  pub default_session_timeout : ℕ
  pub max_concurrent_sessions : ℕ

pub default_config : GlobalConfig
default_config = record {
  tasks = [];
  task_id_to_index = [];
  default_session_timeout = 300;
  max_concurrent_sessions = 100;
}

-- `task_id` and `task_name` are read without a test; `none` is a value of another type, which throws. A missing key is
-- undefined behaviour of the JSON library and not modelled.
pub record TaskJson : Type 0 where
  pub task_id : Option ℕ
  pub task_name : Option Bytes
  pub input_message_types : Option (List (Option ℕ))
  pub output_message_types : Option (List (Option ℕ))

pub record ConfigJson : Type 0 where
  pub available_tasks : Option (List TaskJson)
  pub default_session_timeout : Option (Option ℕ)
  pub max_concurrent_sessions : Option (Option ℕ)

infixl 5 ◌>>=◌
abbrev pub ◌>>=◌ {ℓ κ} : {A : Type ℓ} {B : Type κ} → Option A → (A → Option B) → Option B
none >>= f = none
some a >>= f = f a

-- The loop over the message types, each cast to uint8_t; `none` is an exception.
message_types : List (Option ℕ) → Option (List ℕ)
message_types [] = some []
message_types (m ∷ ms) = do n ← m; rest ← message_types ms; some ((n % 256) ∷ rest)

optional_types : Option (List (Option ℕ)) → Option (List ℕ)
unfolding message_types
optional_types none = some []
optional_types (some ms) = message_types ms

pub parse_task : TaskJson → Option TaskConfig
unfolding optional_types
parse_task j = do
  id ← j.task_id
  name ← j.task_name
  inputs ← optional_types j.input_message_types
  outputs ← optional_types j.output_message_types
  some (record {
    task_id = id;
    task_name = name;
    input_message_types = inputs;
    output_message_types = outputs;
  })

-- task_id_to_index_[task.task_id] = tasks_.size(); tasks_.push_back(task)
unfoldable pub add_task : GlobalConfig → TaskConfig → GlobalConfig
add_task c task = record c {
  tasks = c.tasks ++ task ∷ [];
  task_id_to_index = insert task.task_id (length c.tasks) c.task_id_to_index;
}

-- The tasks before one that throws stay in the configuration.
pub parse_tasks : GlobalConfig → List TaskJson → GlobalConfig × Bool
unfolding add_task
parse_tasks c [] = (c, true)
parse_tasks c (j ∷ js) = elim (parse_task j) [
  | none ↦ (c, false)
  | some task ↦ parse_tasks (add_task c task) js
]

parse_available : GlobalConfig → Option (List TaskJson) → GlobalConfig × Bool
unfolding parse_tasks
parse_available c none = (c, true)
parse_available c (some js) = parse_tasks c js

-- uint32_t addition of the ten seconds.
parse_timeout : GlobalConfig → Option (Option ℕ) → GlobalConfig × Bool
parse_timeout c none = (c, true)
parse_timeout c (some none) = (c, false)
parse_timeout c (some (some n)) = (record c { default_session_timeout = (n + 10) % 2 ^ 32 }, true)

parse_limit : GlobalConfig → Option (Option ℕ) → GlobalConfig × Bool
parse_limit c none = (c, true)
parse_limit c (some none) = (c, false)
parse_limit c (some (some n)) = (record c { max_concurrent_sessions = n }, true)

-- A step that threw ends the others.
abbrev pub then_parse :
    GlobalConfig × Bool → (GlobalConfig → GlobalConfig × Bool) → GlobalConfig × Bool
then_parse (c, true) next = next c
then_parse (c, false) next = (c, false)

-- The second part is what parse_from_json returns; the first is the object after the call.
unfoldable pub parse_from_json : GlobalConfig → ConfigJson → GlobalConfig × Bool
unfolding parse_available parse_timeout parse_limit
parse_from_json c j =
    let cleared : GlobalConfig = record c { tasks = []; task_id_to_index = [] } in
    then_parse (parse_available cleared j.available_tasks) λ c1.
      then_parse (parse_timeout c1 j.default_session_timeout)
        λ c2. parse_limit c2 j.max_concurrent_sessions

-- nullptr is `none`. `&tasks_[i]` is out of bounds if the index is; that is `none` here as well, and
-- the invariant excludes it.
unfoldable pub get_task_config : GlobalConfig → ℕ → Option TaskConfig
get_task_config c id = do i ← find id c.task_id_to_index; get_elem? c.tasks i
