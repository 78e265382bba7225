-- ===== src/Tasks/Crud.antt =====
-- Creating, editing and deleting tasks (src/tasks/tasks.ts).
-- No operation deletes a project, so the check of one holds until the link of its insert runs.
pub mod Checks
pub mod Kept
pub mod Examples
use nightshift0s.Prelude.{
  ℕ, suc, String, Bool, true, false, not, ◌&&◌, ◌||◌, Option, none, some, or_else, List, [], ◌∷◌,
  ◌++◌, ◌==◌, nat_Eq, string_Eq, contains, find, keep, ltb, if◌then◌else◌,
}
use nightshift0s.Prelude.Int.{ℤ, pos, negsuc, ◌+ℤ◌, max_ℤ}
use nightshift0s.Prelude.Json.{
  Number, natural, negative, fraction, infinite, Json, null, absent, number, string,
}
use nightshift0s.Prelude.Text.{codes, trim_text, utf16_length}
use nightshift0s.Db.Columns.Tasks.{
  TaskState, draft, backlog, cancelled, done, task_state_Eq, TaskCategory, functional, style, chore,
  security, RiskTier, trivial, lite, full,
}
use nightshift0s.Db.Schema.{TaskRow, TaskDependencyRow, RunRow}
use nightshift0s.Db.Events.{EventRow}
use nightshift0s.Db.State.{Db, update_rows}
use nightshift0s.Tasks.Fields.{
  Checked, acceptance_field, assert_one_of, assert_priority, cannot_delete, categories,
  category_field, creatable_states, deletable_states, description_field, existing_project, invalid,
  normalise_text, risk_tier_field, risk_tiers, state_field, valid, validate_title, ◌>>=◌,
}

pub record CreateTaskInput : Type 0 where
  pub project_id : Number
  pub title : Json
  pub description : Json
  pub acceptance_criteria : Json
  pub state : Json
  pub priority : Json
  pub category : Json
  pub risk_tier : Json

pub record UpdateTaskInput : Type 0 where
  pub title : Json
  pub description : Json
  pub acceptance_criteria : Json
  pub priority : Json
  pub category : Json
  pub risk_tier : Json

abbrev highest : ℤ → List TaskRow → ℤ
highest m [] = m
highest m (t ∷ rows) = highest (max_ℤ m t.priority) rows

abbrev above : List TaskRow → ℤ
above [] = pos 0
above (t ∷ rows) = highest t.priority rows +ℤ pos 1

unfoldable pub next_priority_for_project : List TaskRow → ℕ → ℤ
next_priority_for_project rows project = above (keep (λ t. t.project_id == project) rows)

-- The row without its id and its times; a priority that is not given is set inside the link.
pub record NewTask : Type 0 where
  pub project_id : ℕ
  pub title : String
  pub description : Option String
  pub acceptance_criteria : Option String
  pub state : TaskState
  pub category : TaskCategory
  pub risk_tier : RiskTier
  pub priority : Option ℤ

unfoldable pub check_create : Db → CreateTaskInput → Checked NewTask
unfolding validate_title normalise_text assert_one_of assert_priority
check_create db input = do
  project ← existing_project db.projects input.project_id
  title ← validate_title input.title
  description ← normalise_text input.description description_field
  acceptance ← normalise_text input.acceptance_criteria acceptance_field
  state ← assert_one_of input.state creatable_states state_field
  category ← assert_one_of input.category categories category_field
  risk ← assert_one_of input.risk_tier risk_tiers risk_tier_field
  priority ← assert_priority input.priority
  valid (record {
    project_id = project;
    title = title;
    description = description;
    acceptance_criteria = acceptance;
    state = or_else state draft;
    category = or_else category functional;
    risk_tier = or_else risk full;
    priority = priority;
  })

abbrev pub new_row : Db → ℕ → NewTask → TaskRow
new_row db now n = record {
  id = db.next_task_id;
  project_id = n.project_id;
  title = n.title;
  description = n.description;
  acceptance_criteria = n.acceptance_criteria;
  state = n.state;
  priority = or_else n.priority (next_priority_for_project db.tasks n.project_id);
  category = n.category;
  risk_tier = n.risk_tier;
  branch = none;
  base_sha = none;
  merge_sha = none;
  claimed_by = none;
  round = 0;
  routine_id = none;
  created_at = now;
  updated_at = now;
}

abbrev pub inserted : Db → ℕ → Checked NewTask → Db × Checked TaskRow
inserted db now (invalid e) = (db, invalid e)
inserted db now (valid n) = (
  record db { tasks = db.tasks ++ new_row db now n ∷ []; next_task_id = suc db.next_task_id },
  valid (new_row db now n),
)

unfoldable pub create_task : Db → ℕ → CreateTaskInput → Db × Checked TaskRow
create_task db now input = inserted db now (check_create db input)

-- What a patch sets; a field without a value is left as it is.
pub record TaskPatch : Type 0 where
  pub title : Option String
  pub description : Option (Option String)
  pub acceptance_criteria : Option (Option String)
  pub category : Option TaskCategory
  pub risk_tier : Option RiskTier
  pub priority : Option ℤ

abbrev when_given {ℓ} : {A : Type ℓ} → (Json → Checked A) → Json → Checked (Option A)
when_given check absent = valid none
when_given check value = do a ← check value; valid (some a)

unfoldable pub check_update : UpdateTaskInput → Checked TaskPatch
unfolding validate_title normalise_text assert_one_of assert_priority
check_update input = do
  title ← when_given validate_title input.title
  description ← when_given (λ v. normalise_text v description_field) input.description
  acceptance ← when_given (λ v. normalise_text v acceptance_field) input.acceptance_criteria
  category ← assert_one_of input.category categories category_field
  risk ← assert_one_of input.risk_tier risk_tiers risk_tier_field
  priority ← assert_priority input.priority
  valid (record {
    title = title;
    description = description;
    acceptance_criteria = acceptance;
    category = category;
    risk_tier = risk;
    priority = priority;
  })

abbrev pub patched : ℕ → TaskPatch → TaskRow → TaskRow
patched now p t = record t {
  title = or_else p.title t.title;
  description = or_else p.description t.description;
  acceptance_criteria = or_else p.acceptance_criteria t.acceptance_criteria;
  category = or_else p.category t.category;
  risk_tier = or_else p.risk_tier t.risk_tier;
  priority = or_else p.priority t.priority;
  updated_at = now;
}

abbrev pub updated_rows : List TaskRow → ℕ → ℕ → TaskPatch → List TaskRow
updated_rows rows id now p = update_rows (λ t. t.id == id) (patched now p) rows

abbrev pub updated : Db → ℕ → ℕ → Checked TaskPatch → Db × Checked (Option TaskRow)
updated db now id (invalid e) = (db, invalid e)
updated db now id (valid p) = (
  record db { tasks = updated_rows db.tasks id now p },
  valid (find (λ t. t.id == id) (updated_rows db.tasks id now p)),
)

unfoldable pub update_task : Db → ℕ → ℕ → UpdateTaskInput → Db × Checked (Option TaskRow)
update_task db now id input = updated db now id (check_update input)

-- What the foreign keys do: edges go with their task, and runs and events lose it.
abbrev pub without_task : ℕ → Option ℕ → Option ℕ
without_task id none = none
without_task id (some t) = if t == id then none else some t

abbrev pub deleted : Db → ℕ → Db
deleted db id = record db {
  tasks = keep (λ t. not (t.id == id)) db.tasks;
  dependencies =
      keep (λ d. not (d.task_id == id) && not (d.depends_on_task_id == id)) db.dependencies;
  runs = update_rows (λ r. true) (λ r. record r { task_id = without_task id r.task_id }) db.runs;
  events =
      update_rows (λ e. true) (λ e. record e { task_id = without_task id e.task_id }) db.events;
}

abbrev pub delete_found : Db → ℕ → Option TaskRow → Db × Checked Bool
delete_found db id none = (db, valid false)
delete_found db id (some t) =
    if contains deletable_states t.state
    then (deleted db id, valid true)
    else (db, invalid (cannot_delete id t.state))

unfoldable pub delete_task : Db → ℕ → Db × Checked Bool
delete_task db id = delete_found db id (find (λ t. t.id == id) db.tasks)
