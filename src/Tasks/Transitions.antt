-- ===== src/Tasks/Transitions.antt =====
-- The guarded task transition (src/tasks/transitions.ts). `updatedAt` and the event take the instant
-- `now`; a validation error is thrown before the writer's link changes anything.
pub mod Outcome
pub mod Merged
pub mod Audit
pub mod Race
pub mod Demote
pub mod Success
use nightshift0s.Prelude.{
  is_some, ℕ, String, Bool, true, false, not, ◌&&◌, Option, none, some, List, ◌==◌, keep, find,
  or_else, or_keep, map, if◌then◌else◌, nat_Eq, string_Eq,
}
use nightshift0s.Prelude.Int.{ℤ, pos, ◌+ℤ◌, max_ℤ}
use nightshift0s.Db.Columns.Tasks.{TaskState, done, task_state_Eq}
use nightshift0s.Db.Schema.{TaskRow}
use nightshift0s.Db.Events.{EventInput, task_changed}
use nightshift0s.Db.State.{Db, update_rows, emit}
use nightshift0s.Tasks.Machine.{TaskTransition, find_transition, is_legal_transition}
use mathlib.Core.List.{foldl}

abbrev pub task_state_changed : String
task_state_changed = "task.state_changed"

pub record TransitionExtra : Type 0 where
  pub claimed_by : Option ℕ
  pub base_sha : Option String
  pub branch : Option String
  pub merge_sha : Option String

abbrev pub no_extra : TransitionExtra
no_extra = record { claimed_by = none; base_sha = none; branch = none; merge_sha = none }

pub record TransitionInput : Type 0 where
  pub task_id : ℕ
  pub to : TaskState
  pub expected_from : Option TaskState
  pub actor : String
  pub extra : TransitionExtra

pub data Reason : Type 0 where
  illegal lost_race not_found : Reason

-- `invalid` is the thrown `ValidationError` about the missing merge commit.
pub data TransitionResult : Type 0 where
  ok : TaskRow → TaskState → TransitionResult
  refused : Reason → TransitionResult
  invalid : TransitionResult

abbrev pub is_missing : Option String → Bool
is_missing none = true
is_missing (some sha) = sha == ""

-- The condition under which `requireMergeSha` throws.
abbrev pub lacks_merge_sha : TransitionInput → Bool
lacks_merge_sha input = input.to == done && is_missing input.extra.merge_sha

-- `priorities.reduce((acc, r) => Math.max(acc, r.priority), 0)` over the project's tasks
unfoldable pub current_max : ℕ → List TaskRow → ℤ
current_max project rows =
    foldl max_ℤ (pos 0) (map (λ t. t.priority) (keep (λ t. t.project_id == project) rows))

unfoldable pub demoted_priority : List TaskRow → TaskRow → ℤ
demoted_priority rows current =
    max_ℤ (current_max current.project_id rows +ℤ pos 1) (current.priority +ℤ pos 1)

abbrev claim_patch : TransitionExtra → TaskRow → TaskRow
claim_patch extra t = record t {
  claimed_by = extra.claimed_by;
  base_sha = or_keep extra.base_sha t.base_sha;
  branch = or_keep extra.branch t.branch;
}

-- The columns that `patch` sets, applied to one row.
unfoldable pub transition_patch :
    List TaskRow → TaskRow → ℕ → TransitionInput → String → TaskRow → TaskRow
transition_patch rows current now input trigger t =
    let moved = record t { state = input.to; updated_at = now } in
    let claimed = if trigger == "claim" then claim_patch input.extra moved else moved in
    let merged =
      if input.to == done then record claimed { merge_sha = input.extra.merge_sha } else claimed in
    if trigger == "demote"
    then record merged { priority = demoted_priority rows current }
    else merged

-- `WHERE id = :id AND state = :from`
abbrev pub guard : ℕ → TaskState → TaskRow → Bool
guard id from t = t.id == id && t.state == from

abbrev pub state_event : ℕ → ℕ → TaskState → TaskState → String → String → EventInput
state_event project id from to actor trigger = record {
  project_id = some project;
  run_id = none;
  task_id = some id;
  kind = task_state_changed;
  payload = task_changed id from to actor trigger;
}

-- The guarded UPDATE, and the event in the same link.
unfoldable pub guarded_update :
    Db → ℕ → TransitionInput → TaskRow → TaskState → String → Db × TransitionResult
guarded_update db now input current from trigger =
    let patch = transition_patch db.tasks current now input trigger in
    elim (find (guard input.task_id from) db.tasks) [
      | none ↦ (db, refused lost_race)
      | some row ↦ (
        emit (record db { tasks = update_rows (guard input.task_id from) patch db.tasks }) now
            (state_event current.project_id input.task_id from input.to input.actor trigger),
        ok (patch row) from,
      )
    ]

-- The body of the writer's link.
unfoldable pub transition_link : Db → ℕ → TransitionInput → Db × TransitionResult
transition_link db now input = elim (find (λ t. t.id == input.task_id) db.tasks) [
  | none ↦ (db, refused not_found)
  | some current ↦
      let from = or_else input.expected_from current.state in
      elim (find_transition from input.to) [
        | none ↦ (db, refused illegal)
        | some edge ↦
            if not (is_some input.expected_from) && lacks_merge_sha input
            then (db, invalid)
            else guarded_update db now input current from edge.trigger
      ]
]

-- The checks before the link, which a pinned state allows.
unfoldable pub checked_transition :
    Db → ℕ → TransitionInput → Option TaskState → Db × TransitionResult
checked_transition db now input none = transition_link db now input
checked_transition db now input (some from) =
    if is_legal_transition from input.to
    then (if lacks_merge_sha input then (db, invalid) else transition_link db now input)
    else (db, refused illegal)

unfoldable pub transition_task : Db → ℕ → TransitionInput → Db × TransitionResult
unfolding checked_transition
transition_task db now input = checked_transition db now input input.expected_from
