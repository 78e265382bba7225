-- ===== src/Runs/Machine.antt =====
-- The table of legal run transitions (src/runs/transitions.ts).
pub mod Graph
use nightshift0s.Prelude.{
  String, Bool, not, ◌&&◌, Option, List, [], ◌∷◌, ◌++◌, map, ◌==◌, keep, find, contains, is_some,
}
use nightshift0s.Db.Columns.Runs.{
  RunState, queued, starting, running, awaiting_input, background_waiting, finishing, succeeded,
  failed, killed, interrupted, run_states, run_terminal_states, run_state_Eq,
}

abbrev pub is_terminal_run_state : RunState → Bool
is_terminal_run_state state = contains run_terminal_states state

pub record RunTransition : Type 0 where
  pub from : RunState
  pub to : RunState
  pub trigger : String

abbrev pub active_run_states : List RunState
active_run_states = keep (λ s. not (is_terminal_run_state s)) run_states

abbrev edge : RunState → RunState → String → RunTransition
edge from to trigger = record { from = from; to = to; trigger = trigger }

abbrev pub run_transitions : List RunTransition
run_transitions =
    edge queued starting "spawn_acquired"
    ∷ edge starting running "session_start"
    ∷ edge running awaiting_input "blocking_tool"
    ∷ edge awaiting_input running "tool_reply"
    ∷ edge running background_waiting "interim_stop_background"
    ∷ edge background_waiting running "subagent_returning"
    ∷ edge background_waiting finishing "all_subagents_returned"
    ∷ edge running finishing "stop_hook"
    ∷ edge finishing succeeded "exit_clean"
    ∷ edge finishing failed "exit_error"
    ∷ edge running succeeded "watchdog_clean"
    ∷ edge running failed "watchdog_error"
    ∷ (map (λ from. edge from interrupted "startup_reconcile") active_run_states
        ++ map (λ from. edge from killed "kill") active_run_states)

unfoldable pub find_run_transition : RunState → RunState → Option RunTransition
find_run_transition from to = find (λ t. t.from == from && t.to == to) run_transitions

unfoldable pub is_legal_run_transition : RunState → RunState → Bool
is_legal_run_transition from to = is_some (find_run_transition from to)
