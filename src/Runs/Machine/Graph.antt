-- ===== src/Runs/Machine/Graph.antt =====
-- The diagram of run states (docs/SPEC-STATE-MACHINES.md, section 2) against the table.
use nightshift0s.Prelude.{◌≡◌, refl, ◌↔◌, true, arith}
use nightshift0s.Db.Columns.Runs.{
  RunState, queued, starting, running, awaiting_input, background_waiting, finishing, succeeded,
  failed, killed, interrupted,
}
use nightshift0s.Runs.Machine.{find_run_transition, is_legal_run_transition}

pub data IsActive : RunState → Type 0 where
  queued_active : IsActive queued
  starting_active : IsActive starting
  running_active : IsActive running
  awaiting_active : IsActive awaiting_input
  background_active : IsActive background_waiting
  finishing_active : IsActive finishing

infix 40 ◌⟶◌
pub data ◌⟶◌ : RunState → RunState → Type 0 where
  spawn_acquired : queued ⟶ starting
  session_start : starting ⟶ running
  blocking_tool : running ⟶ awaiting_input
  tool_reply : awaiting_input ⟶ running
  interim_stop : running ⟶ background_waiting
  subagent_returning : background_waiting ⟶ running
  all_returned : background_waiting ⟶ finishing
  stop_hook : running ⟶ finishing
  exit_clean : finishing ⟶ succeeded
  exit_error : finishing ⟶ failed
  watchdog_clean : running ⟶ succeeded
  watchdog_error : running ⟶ failed
  reconcile : {s : RunState} → IsActive s → s ⟶ interrupted
  kill : {s : RunState} → IsActive s → s ⟶ killed

ruleset active_states = (
  queued_active, starting_active, running_active, awaiting_active, background_active,
  finishing_active,
)

ruleset edges = (
  spawn_acquired, session_start, blocking_tool, tool_reply, interim_stop, subagent_returning,
  all_returned, stop_hook, exit_clean, exit_error, watchdog_clean, watchdog_error, reconcile, kill,
  active_states,
)

legal-⟶ : (from to : RunState) → is_legal_run_transition from to ≡ true → from ⟶ to
unfolding is_legal_run_transition find_run_transition
legal-⟶ from to h = grind (arith, edges)

⟶-legal : {from to : RunState} → from ⟶ to → is_legal_run_transition from to ≡ true
unfolding is_legal_run_transition find_run_transition
⟶-legal spawn_acquired = refl
⟶-legal (reconcile queued_active) = refl
⟶-legal (reconcile _) = refl
⟶-legal (kill queued_active) = refl
⟶-legal (kill _) = refl
⟶-legal _ = refl

-- The table allows a step of a run exactly when the diagram has an edge for it.
is_legal_run_transition_iff :
    (from to : RunState) → (is_legal_run_transition from to ≡ true) ↔ (from ⟶ to)
is_legal_run_transition_iff from to = (legal-⟶ from to, ⟶-legal)
