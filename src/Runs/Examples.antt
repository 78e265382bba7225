-- ===== src/Runs/Examples.antt =====
-- The theorems about runs at the small board.
use nightshift0s.Prelude.{ℕ, ◌≡◌, refl, false, Option, none, some, [], ◌∷◌, ◌++◌, All, arith}
use nightshift0s.Db.Columns.Runs.{RunState, running, finishing, succeeded, coder}
use nightshift0s.Db.Columns.Providers.{subscription}
use nightshift0s.Db.Schema.{RunRow}
use nightshift0s.Db.State.{Db}
use nightshift0s.Tasks.Examples.{board}
use nightshift0s.Tasks.Transitions
use nightshift0s.Tasks.Transitions.{
  transition_task, checked_transition, transition_link, guarded_update,
}
use nightshift0s.Tasks.Machine.{find_transition, is_legal_transition}
use nightshift0s.Runs.Machine.{is_legal_run_transition}
use nightshift0s.Runs.Transitions.{RunTransitionInput, no_run_extra, transition_run}
use nightshift0s.Runs.Transitions.Ended.{IsEndConsistent, transition_run-IsEndConsistent}
use nightshift0s.Runs.Claim.{
  CreateRunInput, queued_run, claim_task_and_create_run, claim_created, create_run, settle_claim,
  claim_input,
}
use nightshift0s.Runs.Claim.Single.{HasSingleRuns, claim_task_and_create_run-HasSingleRuns}
use nightshift0s.Runs.Claim.Rollback.{killed_run, claim_task_and_create_run-rollback}
use nightshift0s.Prelude.{map}
use nightshift0s.Prelude.Int.{◌-ℤ◌}
use nightshift0s.Runs.Machine.{find_run_transition}
use nightshift0s.Runs.Transitions.{checked_run_transition, run_link, run_update}
use nightshift0s.Prelude.Text.{codes}
use nightshift0s.Runs.Transcript.{classify_silent_transcript}
use nightshift0s.Runs.Watchdog.{
  WatchdogDeps, watchdog_succeed, evaluate_run, watch_signal, watch_idle, settle_watch,
}
use nightshift0s.Runs.Watchdog.Decision.{
  Warranted, evaluate_run-Warranted, evaluate_run-exit_reason,
}
use nightshift0s.Runs.Budget.{BudgetDeps, evaluate_run_budget, sweep, sweep_runs, apply_check}
use nightshift0s.Db.Columns.Tasks.{coding}
use nightshift0s.Db.Schema.{TaskRow}
use nightshift0s.Tasks.Transitions.Success.{find_task}
use nightshift0s.Runs.Claim.{claimed}
use nightshift0s.Runs.Claim.Success.{claim_task_and_create_run-claimed}

abbrev pub run : ℕ → Option ℕ → RunState → Option ℕ → RunRow
run id task_id state ended_at = record {
  id = id;
  task_id = task_id;
  kind = coder;
  provider = "claude";
  model = "opus";
  auth_lane = subscription;
  state = state;
  session_id = none;
  worktree_path = none;
  tmux_session = none;
  home_path = none;
  head_sha = none;
  exit_reason = none;
  tokens_in = none;
  tokens_out = none;
  cost_usd = none;
  priced = false;
  started_at = none;
  ended_at = ended_at;
}

-- The board with a finished run and one that is finishing.
abbrev pub busy_board : Db
busy_board = record board {
  runs = run 1 (some 1) succeeded (some 5) ∷ run 2 none finishing none ∷ [];
  next_run_id = 3;
}

abbrev finish : RunTransitionInput
finish = record {
  run_id = 2;
  to = succeeded;
  expected_from = some finishing;
  actor = "finish_run";
  extra = no_run_extra;
}

abbrev coder_of : ℕ → CreateRunInput
coder_of id = record {
  task_id = id;
  kind = coder;
  provider = "claude";
  model = "opus";
  auth_lane = subscription;
}

busy_single : HasSingleRuns busy_board
busy_single k = ground arith

transition_run-IsEndConsistent_example :
    All IsEndConsistent (transition_run busy_board 9 finish).0.runs
transition_run-IsEndConsistent_example =
    transition_run-IsEndConsistent busy_board 9 finish (refl, (refl, tt))

claim_task_and_create_run-HasSingleRuns_example :
    HasSingleRuns (claim_task_and_create_run busy_board 9 (coder_of 3) none).0
claim_task_and_create_run-HasSingleRuns_example =
    claim_task_and_create_run-HasSingleRuns busy_board 9 (coder_of 3) none busy_single

-- Task 2 is still in the backlog.
claim_task_and_create_run-rollback_example :
    (claim_task_and_create_run busy_board 9 (coder_of 2) none).0.runs
    ≡ busy_board.runs ++ killed_run 9 (queued_run 3 (coder_of 2)) ∷ []
unfolding claim_task_and_create_run claim_created create_run settle_claim claim_input
    transition_task checked_transition transition_link guarded_update find_transition
    is_legal_transition queued_run
claim_task_and_create_run-rollback_example =
    claim_task_and_create_run-rollback busy_board 9 (coder_of 2) none
      {reason = Transitions.lost_race} (omega arith, (omega arith, tt)) refl

-- The running run was silent for longer than ten minutes.
abbrev silent : WatchdogDeps
silent = record {
  read_transcript_tail = λ r. codes "The change is done and the tests pass.";
  idle_ms = none;
  completion_ms = none;
}

abbrev silent_board : Db
silent_board = record board { runs = run 1 (some 3) running none ∷ [] }

watch_succeeds :
    (evaluate_run silent silent_board 700000 (run 1 (some 3) running none) 5 none).1
    ≡ watchdog_succeed
unfolding evaluate_run watch_signal watch_idle settle_watch transition_run checked_run_transition
    run_link run_update is_legal_run_transition find_run_transition ◌-ℤ◌ classify_silent_transcript
watch_succeeds = refl

evaluate_run-Warranted_example :
    Warranted silent 700000
      (run 1 (some 3) running none)
      5
      none
      (evaluate_run silent silent_board 700000 (run 1 (some 3) running none) 5 none).1
evaluate_run-Warranted_example =
    evaluate_run-Warranted silent silent_board 700000 (run 1 (some 3) running none) 5 none

evaluate_run-exit_reason_example :
    map
      (λ r. r.exit_reason)
      (evaluate_run silent silent_board 700000 (run 1 (some 3) running none) 5 none).0.runs
    ≡ none ∷ []
evaluate_run-exit_reason_example =
    evaluate_run-exit_reason silent silent_board 700000 (run 1 (some 3) running none) 5 none

-- Ten seconds of time, ten tokens, no limit on the cost; the kill changes nothing here.
abbrev budget : BudgetDeps
budget = record {
  wall_clock_seconds_per_run = 10;
  advisory_tokens_per_run = 10;
  hard_cost_usd_per_run = 0;
  kill = λ db id. db;
}

abbrev talkative : RunRow
talkative = record (run 4 (some 3) running none) {
  started_at = some 5;
  tokens_in = some 8;
  tokens_out = some 9;
}

warned_once : (sweep budget 900 (record board { runs = talkative ∷ [] }) []).warned ≡ 4 ∷ []
unfolding sweep sweep_runs apply_check evaluate_run_budget ◌-ℤ◌
warned_once = refl

claim_task_and_create_run-claimed_example :
    let r = claim_task_and_create_run busy_board 9 (coder_of 3) none in
    (r.1 ≡ claimed (queued_run 3 (coder_of 3)))
    × ((row : TaskRow) × (find_task 3 r.0.tasks ≡ some row)
        × (row.state ≡ coding)
        × (row.claimed_by ≡ some 3))
claim_task_and_create_run-claimed_example =
    claim_task_and_create_run-claimed busy_board 9 (coder_of 3) none refl refl refl
