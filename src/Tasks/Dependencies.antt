-- ===== src/Tasks/Dependencies.antt =====
-- Dependency edges between tasks, and the promotion of tasks whose prerequisites are merged
-- (src/tasks/dependencies.ts). The walk takes fuel: one round for each edge and two more.
pub mod Walk
pub mod Cycles
pub mod Readiness
use nightshift0s.Prelude.{
  ℕ, zero, suc, ◌+◌, String, Bool, true, false, not, ◌&&◌, Option, none, some, List, [], ◌∷◌, ◌++◌,
  map, ◌==◌, nat_Eq, keep, find, any, contains, is_some, or_else, length, if◌then◌else◌,
}
use nightshift0s.Db.Columns.Tasks.{TaskState, backlog, ready, task_state_Eq}
use nightshift0s.Db.Schema.{TaskRow, TaskDependencyRow}
use nightshift0s.Db.State.{Db, update_rows, emit}
use nightshift0s.Tasks.Transitions.{guard, state_event}

abbrev pub link : ℕ → ℕ → TaskDependencyRow
link task_id depends_on_task_id = record {
  task_id = task_id;
  depends_on_task_id = depends_on_task_id;
}

-- `SELECT depends_on_task_id FROM task_dependencies WHERE task_id = :id`
unfoldable pub list_dependency_ids : List TaskDependencyRow → ℕ → List ℕ
list_dependency_ids deps id = map (λ d. d.depends_on_task_id) (keep (λ d. d.task_id == id) deps)

-- The loop over the queue; `none` means that the fuel ran out.
unfoldable pub walk : List TaskDependencyRow → ℕ → ℕ → List ℕ → List ℕ → Option Bool
walk deps task_id zero visited queue = none
walk deps task_id (suc fuel) visited [] = some false
walk deps task_id (suc fuel) visited (current ∷ queue) = elim (current == task_id) [
  | true ↦ some true
  | false ↦ elim (contains visited current) [
    | true ↦ walk deps task_id fuel visited queue
    | false ↦ walk deps task_id fuel (current ∷ visited) (queue ++ list_dependency_ids deps current)
  ]
]

abbrev pub walk_fuel : List TaskDependencyRow → ℕ
walk_fuel deps = length deps + 2

unfoldable pub would_create_cycle : List TaskDependencyRow → ℕ → ℕ → Bool
would_create_cycle deps task_id depends_on_task_id =
    or_else (walk deps task_id (walk_fuel deps) [] (depends_on_task_id ∷ [])) false

abbrev pub has_edge : List TaskDependencyRow → ℕ → ℕ → Bool
has_edge deps a b = any (λ d. d.task_id == a && d.depends_on_task_id == b) deps

pub data DependencyError : Type 0 where
  self_dependency : DependencyError
  task_not_found : ℕ → DependencyError
  cross_project duplicate cycle : DependencyError

-- `constraint_failed` is the error of an insert that its foreign keys or its unique index refuse.
pub data AddResult : Type 0 where
  added : TaskDependencyRow → AddResult
  rejected : DependencyError → AddResult
  constraint_failed : AddResult

abbrev pub get_task : Db → ℕ → Option TaskRow
get_task db id = find (λ t. t.id == id) db.tasks

-- The checks after both tasks are found; `none` passes.
unfoldable pub check_edge : Db → TaskRow → TaskRow → ℕ → ℕ → Option DependencyError
check_edge db task depends_on task_id depends_on_task_id =
    if not (task.project_id == depends_on.project_id)
    then some cross_project
    else if has_edge db.dependencies task_id depends_on_task_id
    then some duplicate
    else if would_create_cycle db.dependencies task_id depends_on_task_id
    then some cycle
    else none

-- The checks before the link is queued.
unfoldable pub check_dependency : Db → ℕ → ℕ → Option DependencyError
unfolding check_edge
check_dependency db task_id depends_on_task_id =
    if task_id == depends_on_task_id then some self_dependency else elim (get_task db task_id) [
      | none ↦ some (task_not_found task_id)
      | some task ↦ elim (get_task db depends_on_task_id) [
        | none ↦ some (task_not_found depends_on_task_id)
        | some depends_on ↦ check_edge db task depends_on task_id depends_on_task_id
      ]
    ]

-- The link, which inserts and checks nothing but the constraints of the table.
unfoldable pub insert_dependency : Db → ℕ → ℕ → Db × AddResult
insert_dependency db task_id depends_on_task_id =
    if is_some (get_task db task_id)
      && is_some (get_task db depends_on_task_id)
      && not (has_edge db.dependencies task_id depends_on_task_id)
    then (
      record db { dependencies = db.dependencies ++ link task_id depends_on_task_id ∷ [] },
      added (link task_id depends_on_task_id),
    )
    else (db, constraint_failed)

abbrev insert_if_passed : (Db → Db) → Db → ℕ → ℕ → Option DependencyError → Db × AddResult
insert_if_passed meanwhile db task_id depends_on_task_id (some e) = (db, rejected e)
insert_if_passed meanwhile db task_id depends_on_task_id none =
    insert_dependency (meanwhile db) task_id depends_on_task_id

-- `meanwhile` is what the links do that run between the checks and the link of this call.
unfoldable pub add_dependency : (meanwhile : Db → Db) → Db → ℕ → ℕ → Db × AddResult
unfolding check_dependency insert_dependency
add_dependency meanwhile db task_id depends_on_task_id =
    insert_if_passed meanwhile db task_id depends_on_task_id
      (check_dependency db task_id depends_on_task_id)

-- Returns whether an edge was there.
unfoldable pub remove_dependency : Db → ℕ → ℕ → Db × Bool
remove_dependency db task_id depends_on_task_id = (
  record db {
    dependencies =
        keep (λ d. not (d.task_id == task_id && d.depends_on_task_id == depends_on_task_id))
          db.dependencies;
  },
  has_edge db.dependencies task_id depends_on_task_id,
)

-- The inner query: a dependency of the task whose row has no merge commit.
unfoldable pub has_unmerged : Db → ℕ → Bool
has_unmerged db id =
    any
      (λ d.
        d.task_id == id
        && any (λ dep. dep.id == d.depends_on_task_id && not (is_some dep.merge_sha)) db.tasks)
      db.dependencies

abbrev in_project : Option ℕ → TaskRow → Bool
in_project none t = true
in_project (some project) t = t.project_id == project

unfoldable pub is_candidate : Db → Option ℕ → TaskRow → Bool
is_candidate db project t = t.state == backlog && in_project project t && not (has_unmerged db t.id)

abbrev pub make_ready : ℕ → TaskRow → TaskRow
make_ready now t = record t { state = ready; updated_at = now }

-- One round of the loop over the candidates.
unfoldable pub promote : Db → ℕ → TaskRow → Db × List TaskRow
promote db now candidate = elim (find (guard candidate.id backlog) db.tasks) [
  | none ↦ (db, [])
  | some row ↦ (
    emit (record db { tasks = update_rows (guard candidate.id backlog) (make_ready now) db.tasks })
        now (state_event candidate.project_id candidate.id backlog ready "system" "deps_merged"),
    make_ready now row ∷ [],
  )
]

unfoldable pub promote_all : Db → ℕ → List TaskRow → Db × List TaskRow
promote_all db now [] = (db, [])
promote_all db now (candidate ∷ candidates) =
    let (db', first) = promote db now candidate in
    let (db'', others) = promote_all db' now candidates in (db'', first ++ others)

unfoldable pub recompute_readiness : Db → ℕ → Option ℕ → Db × List TaskRow
recompute_readiness db now project = promote_all db now (keep (is_candidate db project) db.tasks)
