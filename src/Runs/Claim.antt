-- ===== src/Runs/Claim.antt =====
-- Creating a run, and the claim of a ready task by a new run (src/runs/runs.ts). The partial unique
-- index `one_active_run_per_task` (src/db/schema.ts) is the test that the insertion makes.
pub mod Single
pub mod Rollback
pub mod Success
use nightshift0s.Prelude.{
  ℕ, suc, String, Bool, true, false, not, ◌&&◌, ◌||◌, Option, none, some, List, [], ◌∷◌, ◌++◌, ◌==◌,
  nat_Eq, string_Eq, find, any, keep, length, if◌then◌else◌,
}
use nightshift0s.Prelude.Text.{◌⧺◌, decimal}
use nightshift0s.Db.Columns.Tasks.{ready, coding}
use nightshift0s.Db.Columns.Runs.{
  RunKind, RunState, queued, finishing, killed, succeeded, failed, run_state_Eq,
}
use nightshift0s.Db.Columns.Providers.{AuthLane}
use nightshift0s.Db.Schema.{RunRow}
use nightshift0s.Db.State.{Db}
use nightshift0s.Tasks.Transitions.{TransitionInput, TransitionResult, transition_task, no_extra}
use nightshift0s.Tasks.Transitions
use nightshift0s.Runs.Machine.{is_terminal_run_state}
use nightshift0s.Runs.Transitions.{
  RunTransitionInput, RunTransitionExtra, RunTransitionResult, transition_run, no_run_extra,
}

pub record CreateRunInput : Type 0 where
  pub task_id : ℕ
  pub kind : RunKind
  pub provider : String
  pub model : String
  pub auth_lane : AuthLane

abbrev pub is_of_task : ℕ → Option ℕ → Bool
is_of_task id none = false
is_of_task id (some t) = t == id

-- The rows that the index covers, at one task.
abbrev pub is_active_of : ℕ → RunRow → Bool
is_active_of id r = is_of_task id r.task_id && not (is_terminal_run_state r.state)

pub data CreateResult : Type 0 where
  created : RunRow → CreateResult
  conflict : CreateResult

unfoldable pub queued_run : ℕ → CreateRunInput → RunRow
queued_run id input = record {
  id = id;
  task_id = some input.task_id;
  kind = input.kind;
  provider = input.provider;
  model = input.model;
  auth_lane = input.auth_lane;
  state = queued;
  session_id = none;
  worktree_path = none;
  tmux_session = none;
  home_path = none;
  head_sha = none;
  exit_reason = none;
  tokens_in = none;
  tokens_out = none;
  cost_usd = none;
  priced = false;
  started_at = none;
  ended_at = none;
}

-- The insertion fails on the foreign key (src/db/client.ts turns them on) or on the unique index.
abbrev pub breaks_constraint : Db → CreateRunInput → Bool
breaks_constraint db input =
    not (any (λ t. t.id == input.task_id) db.tasks) || any (is_active_of input.task_id) db.runs

-- `conflict` is the thrown `RunConflictError`, which either failure becomes.
unfoldable pub create_run : Db → CreateRunInput → Db × CreateResult
create_run db input =
    let run = queued_run db.next_run_id input in
    if breaks_constraint db input
    then (db, conflict)
    else (record db { runs = db.runs ++ run ∷ []; next_run_id = suc db.next_run_id }, created run)

-- `failed_claim` is returned; the two others are thrown.
pub data ClaimResult : Type 0 where
  claimed : RunRow → ClaimResult
  failed_claim : Transitions.Reason → ClaimResult
  run_conflict : ClaimResult
  invalid_claim : ClaimResult

abbrev truthy : Option String → Option String
truthy none = none
truthy (some sha) = if sha == "" then none else some sha

unfoldable pub claim_input : CreateRunInput → Option String → RunRow → TransitionInput
claim_input input base_sha run = record {
  task_id = input.task_id;
  to = coding;
  expected_from = some ready;
  actor = "run:" ⧺ decimal run.id;
  extra = record no_extra { claimed_by = some run.id; base_sha = truthy base_sha };
}

unfoldable pub rollback_input : RunRow → RunTransitionInput
rollback_input run = record {
  run_id = run.id;
  to = killed;
  expected_from = some queued;
  actor = "claim_rollback";
  extra = no_run_extra;
}

-- What follows the transition of the task: the orphan run is killed if the claim failed.
unfoldable pub settle_claim : ℕ → RunRow → Db × TransitionResult → Db × ClaimResult
settle_claim now run (db, Transitions.ok row from) = (db, claimed run)
settle_claim now run (db, Transitions.refused reason) =
    ((transition_run db now (rollback_input run)).0, failed_claim reason)
settle_claim now run (db, Transitions.invalid) = (db, invalid_claim)

unfoldable pub claim_created :
    ℕ → CreateRunInput → Option String → Db × CreateResult → Db × ClaimResult
claim_created now input base_sha (db, conflict) = (db, run_conflict)
claim_created now input base_sha (db, created run) =
    settle_claim now run (transition_task db now (claim_input input base_sha run))

unfoldable pub claim_task_and_create_run :
    Db → ℕ → CreateRunInput → Option String → Db × ClaimResult
unfolding claim_created
claim_task_and_create_run db now input base_sha =
    claim_created now input base_sha (create_run db input)

pub record RunCost : Type 0 where
  pub tokens_in : Option ℕ
  pub tokens_out : Option ℕ
  pub cost_usd : Option ℕ
  pub priced : Option Bool

-- The outcome is `succeeded` or `failed`.
unfoldable pub finish_run :
    Db → ℕ → ℕ → (succeeds : Bool) → Option String → RunCost → Db × RunTransitionResult
finish_run db now run_id succeeds exit_reason cost = transition_run db now (record {
  run_id = run_id;
  to = if succeeds then succeeded else failed;
  expected_from = some finishing;
  actor = "finish_run";
  extra = record no_run_extra {
    exit_reason = exit_reason;
    tokens_in = cost.tokens_in;
    tokens_out = cost.tokens_out;
    cost_usd = cost.cost_usd;
    priced = cost.priced;
  };
})
