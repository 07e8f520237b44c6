-- ===== src/Bridge/Config/Index.antt =====
-- The index always points at a task with the id that is asked for.
use ros2_modular_edge_offloa.Common.{
  ℕ, zero, suc, ◌<◌, Bool, true, false, ◌≡◌, refl, inl, inr, Option, none, some, arith, List, [],
  ◌∷◌, ◌++◌, length, get_elem?, length-append, Option-cases, Bool-cases, if◌then◌else◌, ◌==◌,
}
use ros2_modular_edge_offloa.Common.Eq.{nat_eq}
use ros2_modular_edge_offloa.Common.Maps.{find, find-insert}
use ros2_modular_edge_offloa.Bridge.Config.{
  TaskConfig, GlobalConfig, TaskJson, ConfigJson, parse_task, add_task, parse_tasks,
  parse_available, parse_timeout, parse_limit, parse_from_json, get_task_config, then_parse,
}

-- The last of the tasks with the id.
pub last_task : ℕ → List TaskConfig → Option TaskConfig
last_task id [] = none
last_task id (task ∷ tasks) = elim (last_task id tasks) [
  | some t ↦ some t
  | none ↦ if task.task_id == id then some task else none
]

get_elem?-append_left {ℓ} :
    {A : Type ℓ} (xs ys : List A) (i : ℕ) → i < length xs → get_elem? (xs ++ ys) i ≡ get_elem? xs i
get_elem?-append_left [] ys i h = elim h [ ]
get_elem?-append_left (x ∷ xs) ys zero h = refl
get_elem?-append_left (x ∷ xs) ys (suc i) h = get_elem?-append_left xs ys i (omega arith)

get_elem?-append_last {ℓ} :
    {A : Type ℓ} (xs : List A) (y : A) → get_elem? (xs ++ y ∷ []) (length xs) ≡ some y
get_elem?-append_last [] y = refl
get_elem?-append_last (x ∷ xs) y = get_elem?-append_last xs y

last_task-append :
    (id : ℕ) (tasks : List TaskConfig) (task : TaskConfig)
    → last_task id (tasks ++ task ∷ [])
      ≡ (if task.task_id == id then some task else last_task id tasks)
unfolding last_task
last_task-append id [] task = refl
last_task-append id (x ∷ tasks) task = ground (arith, last_task-append id tasks task)

-- Every index is that of a task, and a look-up gives the last task of its id.
pub record IsIndexed (c : GlobalConfig) : Type 0 where
  pub in_range : (id i : ℕ) → find id c.task_id_to_index ≡ some i → i < length c.tasks
  pub exact : (id : ℕ) → get_task_config c id ≡ last_task id c.tasks

module _ (c : GlobalConfig) (task : TaskConfig) (v : IsIndexed c) where
  add_task-in_range :
      (id i : ℕ)
      → find id (add_task c task).task_id_to_index ≡ some i
      → i < length (add_task c task).tasks
  unfolding add_task
  add_task-in_range id i e = ground (
    arith,
    find-insert task.task_id id (length c.tasks) c.task_id_to_index,
    v.in_range id i,
    length-append c.tasks (task ∷ []),
  )

  add_task-exact :
      (id : ℕ) → get_task_config (add_task c task) id ≡ last_task id (add_task c task).tasks
  unfolding add_task get_task_config
  add_task-exact id = elim (Bool-cases (task.task_id == id)) [
    | inl same ↦
        rw
          (
            find-insert task.task_id id (length c.tasks) c.task_id_to_index,
            last_task-append id c.tasks task,
            same,
          )
          (get_elem?-append_last c.tasks task)
    | inr other ↦
        rw
          (
            find-insert task.task_id id (length c.tasks) c.task_id_to_index,
            last_task-append id c.tasks task,
            other,
          )
          (elim (Option-cases (find id c.task_id_to_index)) [
            | inl missing ↦ ground (arith, v.exact id)
            | inr (i, found) ↦ ground (
              arith,
              v.exact id,
              v.in_range id i found,
              get_elem?-append_left c.tasks (task ∷ []) i,
            )
          ])
  ]

  add_task-IsIndexed : IsIndexed (add_task c task)
  add_task-IsIndexed = record { in_range = add_task-in_range; exact = add_task-exact }

parse_tasks-IsIndexed :
    (c : GlobalConfig) (js : List TaskJson) → IsIndexed c → IsIndexed (parse_tasks c js).0
unfolding parse_tasks
parse_tasks-IsIndexed c [] v = v
parse_tasks-IsIndexed c (j ∷ js) v = elim (Option-cases (parse_task j)) [
  | inl bad ↦ rw (bad, parse_tasks) v
  | inr (task, good) ↦
      rw (good, parse_tasks)
        (parse_tasks-IsIndexed (add_task c task) js (add_task-IsIndexed c task v))
]

-- The index depends on these two fields alone.
same_index :
    (c d : GlobalConfig)
    → d.tasks ≡ c.tasks
    → d.task_id_to_index ≡ c.task_id_to_index
    → IsIndexed c
    → IsIndexed d
unfolding get_task_config
same_index c d e f v = record {
  in_range = λ id i h. rw e (v.in_range id i (rw f at h));
  exact = λ id. rw (e, f) (v.exact id);
}

parse_timeout_same :
    (c : GlobalConfig) (o : Option (Option ℕ)) → IsIndexed c → IsIndexed (parse_timeout c o).0
unfolding parse_timeout
parse_timeout_same c none v = v
parse_timeout_same c (some none) v = v
parse_timeout_same c (some (some n)) v = same_index c _ refl refl v

parse_limit_same :
    (c : GlobalConfig) (o : Option (Option ℕ)) → IsIndexed c → IsIndexed (parse_limit c o).0
unfolding parse_limit
parse_limit_same c none v = v
parse_limit_same c (some none) v = v
parse_limit_same c (some (some n)) v = same_index c _ refl refl v

cleared-IsIndexed : (c : GlobalConfig) → IsIndexed (record c { tasks = []; task_id_to_index = [] })
unfolding get_task_config find last_task
cleared-IsIndexed c = record { in_range = λ id i e. absurd (cc); exact = λ id. refl }

parse_available-IsIndexed :
    (c : GlobalConfig) (o : Option (List TaskJson))
    → IsIndexed c
    → IsIndexed (parse_available c o).0
unfolding parse_available
parse_available-IsIndexed c none v = v
parse_available-IsIndexed c (some js) v = parse_tasks-IsIndexed c js v

then_parse-IsIndexed :
    (r : GlobalConfig × Bool) (next : GlobalConfig → GlobalConfig × Bool)
    → IsIndexed r.0
    → ((c : GlobalConfig) → IsIndexed c → IsIndexed (next c).0)
    → IsIndexed (then_parse r next).0
then_parse-IsIndexed (c, true) next v keep = keep c v
then_parse-IsIndexed (c, false) next v keep = v

-- After parse_from_json, whether it succeeded or an exception stopped it half way, every index is in range and
-- a look-up answers with the last task of the id among those that were stored, or with nullptr if none has it.
pub parse_from_json-IsIndexed :
    (c : GlobalConfig) (j : ConfigJson) → IsIndexed (parse_from_json c j).0
unfolding parse_from_json
parse_from_json-IsIndexed c j =
    let cleared : GlobalConfig = record c { tasks = []; task_id_to_index = [] } in
    let limit = λ (c2 : GlobalConfig). parse_limit c2 j.max_concurrent_sessions in
    let timeout =
      λ (c1 : GlobalConfig). then_parse (parse_timeout c1 j.default_session_timeout) limit in
    then_parse-IsIndexed (parse_available cleared j.available_tasks) timeout
      (parse_available-IsIndexed cleared j.available_tasks (cleared-IsIndexed c))
      λ c1 v1.
        then_parse-IsIndexed (parse_timeout c1 j.default_session_timeout) limit
          (parse_timeout_same c1 j.default_session_timeout v1)
          λ c2 v2. parse_limit_same c2 j.max_concurrent_sessions v2
