-- ===== src/Orchestrator/AutoMerge.antt =====
-- The merge of an approved task (src/orchestrator/autoMerge.ts) and its confirmation
-- (src/orchestrator/coder.ts). The forge is a parameter: what the preflight answers, what the merge
-- call gives or throws, and what other links of the writer do to the database while the two are
-- awaited. The calls of the merge endpoint are listed in the result.
pub mod Gate
pub mod Settled
use nightshift0s.Prelude.{
  ℕ, String, Bool, true, false, not, ◌&&◌, Option, none, some, List, [], ◌∷◌, ◌++◌, map, ◌==◌,
  nat_Eq, find, if◌then◌else◌,
}
use nightshift0s.Prelude.Text.{◌⧺◌}
use nightshift0s.Db.Columns.Tasks.{TaskState, approved, merging, needs_human, done, task_state_Eq}
use nightshift0s.Db.Schema.{TaskRow}
use nightshift0s.Db.State.{Db}
use nightshift0s.Tasks.Transitions
use nightshift0s.Tasks.Transitions.{
  TransitionInput, TransitionResult, TransitionExtra, no_extra, transition_task,
}
use nightshift0s.Tasks.Dependencies.{recompute_readiness}

pub record PreflightResult : Type 0 where
  pub pass : Bool
  pub blocked : List String

-- The preflight answers, or its promise is rejected, which nothing catches.
pub data PreflightCall : Type 0 where
  answers : PreflightResult → PreflightCall
  rejects : PreflightCall

-- The merge call returns the merge commit, or throws with a message.
pub data MergeCall : Type 0 where
  merge_sha : String → MergeCall
  throws : String → MergeCall

pub record Forge : Type 0 where
  pub preflight : ℕ → PreflightCall
  pub merge : ℕ → MergeCall
  pub during_preflight : Db → Db
  pub during_merge : Db → Db

pub data Failure : Type 0 where
  task_missing : Failure
  not_in_merging : TaskState → Failure
  not_entered not_parked not_started not_confirmed : Transitions.Reason → Failure

pub data ConfirmResult : Type 0 where
  confirmed : List ℕ → ConfirmResult
  unconfirmed : Failure → ConfirmResult
  confirm_throws : ConfirmResult

-- `thrown` is an error that nothing catches: of a preflight that rejects, or of a merge without its
-- commit.
pub data AutoMergeOutcome : Type 0 where
  disabled : AutoMergeOutcome
  skipped : TaskState → AutoMergeOutcome
  merged : String → List ℕ → AutoMergeOutcome
  blocked_merge : List String → AutoMergeOutcome
  failed_merge : Failure → AutoMergeOutcome
  thrown : AutoMergeOutcome

pub record MergeReport : Type 0 where
  pub db : Db
  pub outcome : AutoMergeOutcome
  pub merge_calls : List ℕ

abbrev pub get_task : Db → ℕ → Option TaskRow
get_task db id = find (λ t. t.id == id) db.tasks

abbrev pub confirm_input : ℕ → String → TransitionInput
confirm_input id sha = record {
  task_id = id;
  to = done;
  expected_from = some merging;
  actor = "forge_merge";
  extra = record no_extra { merge_sha = some sha };
}

unfoldable pub after_confirm : ℕ → ℕ → Db × TransitionResult → Db × ConfirmResult
after_confirm now project (db, Transitions.ok row from) =
    let (db', promoted) = recompute_readiness db now (some project) in
    (db', confirmed (map (λ t. t.id) promoted))
after_confirm now project (db, Transitions.refused reason) =
    (db, unconfirmed (not_confirmed reason))
after_confirm now project (db, Transitions.invalid) = (db, confirm_throws)

unfoldable pub confirm_merge_and_unblock : Db → ℕ → ℕ → String → Db × ConfirmResult
confirm_merge_and_unblock db now id sha = elim (get_task db id) [
  | none ↦ (db, unconfirmed task_missing)
  | some t ↦
      if t.state == merging
      then after_confirm now t.project_id (transition_task db now (confirm_input id sha))
      else (db, unconfirmed (not_in_merging t.state))
]

-- `approved` to `merging`, and `merging` to `needs_human`.
abbrev pub step_input : ℕ → TaskState → TaskState → TransitionInput
step_input id from to = record {
  task_id = id;
  to = to;
  expected_from = some from;
  actor = "auto_merge";
  extra = no_extra;
}

unfoldable pub park_blocked : ℕ → ℕ → List String → Db × TransitionResult → MergeReport
park_blocked now id blocked (db, Transitions.ok row from) = record {
  db = db;
  outcome = blocked_merge blocked;
  merge_calls = [];
}
park_blocked now id blocked (db, Transitions.refused reason) = record {
  db = db;
  outcome = failed_merge (not_parked reason);
  merge_calls = [];
}
park_blocked now id blocked (db, Transitions.invalid) = record {
  db = db;
  outcome = thrown;
  merge_calls = [];
}

-- A failed preflight: through `merging`, so that the audit is complete, and on to `needs_human`.
unfoldable pub block_merge : ℕ → ℕ → List String → Db × TransitionResult → MergeReport
unfolding park_blocked
block_merge now id blocked (db, Transitions.ok row from) =
    park_blocked now id blocked (transition_task db now (step_input id merging needs_human))
block_merge now id blocked (db, Transitions.refused reason) = record {
  db = db;
  outcome = failed_merge (not_entered reason);
  merge_calls = [];
}
block_merge now id blocked (db, Transitions.invalid) = record {
  db = db;
  outcome = thrown;
  merge_calls = [];
}

unfoldable pub confirm_report : ℕ → String → Db × ConfirmResult → MergeReport
confirm_report id sha (db, confirmed unblocked) = record {
  db = db;
  outcome = merged sha unblocked;
  merge_calls = id ∷ [];
}
confirm_report id sha (db, unconfirmed reason) = record {
  db = db;
  outcome = failed_merge reason;
  merge_calls = id ∷ [];
}
confirm_report id sha (db, confirm_throws) = record {
  db = db;
  outcome = thrown;
  merge_calls = id ∷ [];
}

-- What follows the merge call. The result of the parking step is not looked at.
unfoldable pub after_merge : ℕ → ℕ → Db → MergeCall → MergeReport
unfolding confirm_report
after_merge now id db (merge_sha sha) =
    confirm_report id sha (confirm_merge_and_unblock db now id sha)
after_merge now id db (throws message) = record {
  db = (transition_task db now (step_input id merging needs_human)).0;
  outcome = blocked_merge (("merge call failed: " ⧺ message) ∷ []);
  merge_calls = id ∷ [];
}

unfoldable pub start_merge : Forge → ℕ → ℕ → Db × TransitionResult → MergeReport
unfolding after_merge
start_merge forge now id (db, Transitions.ok row from) =
    after_merge now id (forge.during_merge db) (forge.merge id)
start_merge forge now id (db, Transitions.refused reason) = record {
  db = db;
  outcome = failed_merge (not_started reason);
  merge_calls = [];
}
start_merge forge now id (db, Transitions.invalid) = record {
  db = db;
  outcome = thrown;
  merge_calls = [];
}

unfoldable pub merge_approved : Forge → Db → ℕ → ℕ → PreflightResult → MergeReport
unfolding start_merge block_merge
merge_approved forge db now id pre =
    let moved = transition_task db now (step_input id approved merging) in
    if pre.pass then start_merge forge now id moved else block_merge now id pre.blocked moved

unfoldable pub after_preflight : Forge → Db → ℕ → ℕ → PreflightCall → MergeReport
unfolding merge_approved
after_preflight forge db now id (answers pre) = merge_approved forge db now id pre
after_preflight forge db now id rejects = record { db = db; outcome = thrown; merge_calls = [] }

unfoldable pub try_auto_merge : (auto_merge_enabled : Bool) → Forge → Db → ℕ → ℕ → MergeReport
unfolding after_preflight
try_auto_merge enabled forge db now id =
    if not enabled
    then record { db = db; outcome = disabled; merge_calls = [] }
    else elim (get_task db id) [
      | none ↦ record { db = db; outcome = failed_merge task_missing; merge_calls = [] }
      | some t ↦
          if t.state == approved
          then after_preflight forge (forge.during_preflight db) now id (forge.preflight id)
          else record { db = db; outcome = skipped t.state; merge_calls = [] }
    ]
