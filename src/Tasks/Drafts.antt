-- ===== src/Tasks/Drafts.antt =====
-- Promoting a draft task (src/tasks/draftLane.ts); the import of drafts is in a child module.
pub mod Promoted
pub mod Markdown
pub mod Examples
use nightshift0s.Prelude.{
  ℕ, String, Bool, true, false, not, ◌&&◌, ◌||◌, Option, none, some, ◌==◌, nat_Eq, string_Eq, find,
  if◌then◌else◌,
}
use nightshift0s.Prelude.Json.{Json, absent, string}
use nightshift0s.Db.Columns.Tasks.{draft, backlog, task_state_Eq}
use nightshift0s.Db.Schema.{TaskRow}
use nightshift0s.Db.State.{Db}
use nightshift0s.Tasks.Fields.{Checked, ValidationError, valid, invalid}
use nightshift0s.Tasks.Crud.{UpdateTaskInput, update_task}
use nightshift0s.Tasks.Transitions.{
  TransitionInput, TransitionResult, no_extra, is_missing, transition_task,
}
use nightshift0s.Tasks.Transitions

pub record PlannerResult : Type 0 where
  pub description : String
  pub acceptance_criteria : String

-- A planner that rejects has no answer.
abbrev pub PlannerFn : Type 0
PlannerFn = String → Option String → Option PlannerResult

-- With what the other links do while the planner is awaited, and before the link of the transition.
pub record DraftLaneDeps : Type 0 where
  pub planner : Option PlannerFn
  pub while_planning : Db → Db
  pub while_waiting : Db → Db

pub data PromoteReason : Type 0 where
  not_found not_draft planner_error lost_race : PromoteReason

-- The last two are the errors that reject the promise.
pub data PromoteResult : Type 0 where
  promoted : (task : TaskRow) → (expanded : Bool) → PromoteResult
  refused : PromoteReason → PromoteResult
  update_thrown : ValidationError → PromoteResult
  transition_thrown : PromoteResult

abbrev pub answer : Bool → Db × TransitionResult → Db × PromoteResult
answer expanded (db, Transitions.ok row from) = (db, promoted row expanded)
answer expanded (db, Transitions.refused Transitions.not_found) = (db, refused not_found)
answer expanded (db, Transitions.refused reason) = (db, refused lost_race)
answer expanded (db, Transitions.invalid) = (db, transition_thrown)

abbrev pub promotion : ℕ → String → TransitionInput
promotion id actor = record {
  task_id = id;
  to = backlog;
  expected_from = some draft;
  actor = actor;
  extra = no_extra;
}

abbrev pub fills : Option String → String → Bool
fills old new = is_missing old && not (new == "")

abbrev given : Bool → String → Json
given needed text = if needed then string text else absent

abbrev pub expansion : TaskRow → PlannerResult → UpdateTaskInput
expansion t plan = record {
  title = absent;
  description = given (fills t.description plan.description) plan.description;
  acceptance_criteria =
      given (fills t.acceptance_criteria plan.acceptance_criteria) plan.acceptance_criteria;
  priority = absent;
  category = absent;
  risk_tier = absent;
}

module _ (deps : DraftLaneDeps) (now id : ℕ) (actor : String) where
  abbrev pub to_backlog : Db → Bool → Db × PromoteResult
  to_backlog db expanded =
      answer expanded (transition_task (deps.while_waiting db) now (promotion id actor))

  abbrev pub after_update : Db × Checked (Option TaskRow) → Db × PromoteResult
  after_update (db, valid row) = to_backlog db true
  after_update (db, invalid e) = (db, update_thrown e)

  abbrev pub planned : Db → TaskRow → Option PlannerResult → Db × PromoteResult
  planned db t none = (db, refused planner_error)
  planned db t (some plan) =
      if fills t.description plan.description
        || fills t.acceptance_criteria plan.acceptance_criteria
      then after_update (update_task db now id (expansion t plan))
      else to_backlog db false

  abbrev pub expand_draft : Db → TaskRow → Option PlannerFn → Db × PromoteResult
  expand_draft db t none = to_backlog db false
  expand_draft db t (some planner) =
      planned (deps.while_planning db) t (planner t.title t.description)

  abbrev pub promote_found : Db → Option TaskRow → Db × PromoteResult
  promote_found db none = (db, refused not_found)
  promote_found db (some t) =
      if t.state == draft then expand_draft db t deps.planner else (db, refused not_draft)

  unfoldable pub promote_draft : Db → Db × PromoteResult
  promote_draft db = promote_found db (find (λ t. t.id == id) db.tasks)
