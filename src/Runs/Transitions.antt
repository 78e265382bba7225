-- ===== src/Runs/Transitions.antt =====
-- The guarded run transition (src/runs/transitions.ts), at the instant `now`.
pub mod Outcome
pub mod Ended
pub mod Audit
use nightshift0s.Prelude.{
  ℕ, String, Bool, true, false, ◌&&◌, ◌||◌, Option, none, some, ◌==◌, find, or_else, or_keep,
  if◌then◌else◌, nat_Eq,
}
use nightshift0s.Db.Columns.Runs.{
  RunState, queued, starting, running, finishing, succeeded, failed, run_state_Eq,
}
use nightshift0s.Db.Schema.{RunRow}
use nightshift0s.Db.Events.{EventInput, run_changed}
use nightshift0s.Db.State.{Db, update_rows, emit}
use nightshift0s.Runs.Machine.{is_terminal_run_state, find_run_transition, is_legal_run_transition}

abbrev pub run_state_changed : String
run_state_changed = "run.state_changed"

pub record RunTransitionExtra : Type 0 where
  pub session_id : Option String
  pub tmux_session : Option String
  pub worktree_path : Option String
  pub home_path : Option String
  pub started_at : Option ℕ
  pub exit_reason : Option String
  pub tokens_in : Option ℕ
  pub tokens_out : Option ℕ
  pub cost_usd : Option ℕ
  pub priced : Option Bool
  pub ended_at : Option ℕ

abbrev pub no_run_extra : RunTransitionExtra
no_run_extra = record {
  session_id = none;
  tmux_session = none;
  worktree_path = none;
  home_path = none;
  started_at = none;
  exit_reason = none;
  tokens_in = none;
  tokens_out = none;
  cost_usd = none;
  priced = none;
  ended_at = none;
}

pub record RunTransitionInput : Type 0 where
  pub run_id : ℕ
  pub to : RunState
  pub expected_from : Option RunState
  pub actor : String
  pub extra : RunTransitionExtra

pub data Reason : Type 0 where
  illegal lost_race not_found : Reason

pub data RunTransitionResult : Type 0 where
  ok : RunRow → RunState → RunTransitionResult
  refused : Reason → RunTransitionResult

abbrev start_patch : RunTransitionExtra → ℕ → RunRow → RunRow
start_patch extra now r = record r {
  started_at = some (or_else extra.started_at now);
  tmux_session = or_keep extra.tmux_session r.tmux_session;
  worktree_path = or_keep extra.worktree_path r.worktree_path;
  home_path = or_keep extra.home_path r.home_path;
  session_id = or_keep extra.session_id r.session_id;
}

abbrev session_patch : RunTransitionExtra → RunRow → RunRow
session_patch extra r = record r { session_id = or_keep extra.session_id r.session_id }

abbrev finish_patch : RunTransitionExtra → RunRow → RunRow
finish_patch extra r = record r {
  exit_reason = or_keep extra.exit_reason r.exit_reason;
  tokens_in = or_keep extra.tokens_in r.tokens_in;
  tokens_out = or_keep extra.tokens_out r.tokens_out;
  cost_usd = or_keep extra.cost_usd r.cost_usd;
  priced = or_else extra.priced r.priced;
}

-- The columns that `patch` sets on the edge, applied to one row.
unfoldable pub run_patch : RunState → ℕ → RunTransitionInput → RunRow → RunRow
run_patch from now input r =
    let moved = record r { state = input.to } in
    let begun =
      if from == queued && input.to == starting then start_patch input.extra now moved else moved in
    let opened =
      if from == starting && input.to == running then session_patch input.extra begun else begun in
    let closed =
      if from == finishing && (input.to == succeeded || input.to == failed)
      then finish_patch input.extra opened
      else opened in
    if is_terminal_run_state input.to
    then record closed { ended_at = some (or_else input.extra.ended_at now) }
    else closed

-- `WHERE id = :id AND state = :from`
abbrev pub run_guard : ℕ → RunState → RunRow → Bool
run_guard id from r = r.id == id && r.state == from

abbrev pub run_event : ℕ → Option ℕ → RunState → RunState → String → String → EventInput
run_event id task_id from to actor trigger = record {
  project_id = none;
  run_id = some id;
  task_id = task_id;
  kind = run_state_changed;
  payload = run_changed id from to actor trigger;
}

unfoldable pub run_update :
    Db → ℕ → RunTransitionInput → RunRow → RunState → String → Db × RunTransitionResult
run_update db now input current from trigger = elim (find (run_guard input.run_id from) db.runs) [
  | none ↦ (db, refused lost_race)
  | some row ↦ (
    emit
        (record db {
          runs = update_rows (run_guard input.run_id from) (run_patch from now input) db.runs;
        })
        now (run_event input.run_id current.task_id from input.to input.actor trigger),
    ok (run_patch from now input row) from,
  )
]

-- The body of the writer's link.
unfoldable pub run_link : Db → ℕ → RunTransitionInput → Db × RunTransitionResult
run_link db now input = elim (find (λ r. r.id == input.run_id) db.runs) [
  | none ↦ (db, refused not_found)
  | some current ↦
      let from = or_else input.expected_from current.state in
      elim (find_run_transition from input.to) [
        | none ↦ (db, refused illegal)
        | some edge ↦ run_update db now input current from edge.trigger
      ]
]

unfoldable pub checked_run_transition :
    Db → ℕ → RunTransitionInput → Option RunState → Db × RunTransitionResult
checked_run_transition db now input none = run_link db now input
checked_run_transition db now input (some from) =
    if is_legal_run_transition from input.to then run_link db now input else (db, refused illegal)

unfoldable pub transition_run : Db → ℕ → RunTransitionInput → Db × RunTransitionResult
unfolding checked_run_transition
transition_run db now input = checked_run_transition db now input input.expected_from
