-- ===== src/Runs/Transitions/Ended.antt =====
-- The end time of a run (src/runs/transitions.ts).
use nightshift0s.Prelude.{ℕ, ◌≡◌, true, false, none, some, All, arith, inl, inr, is_some}
use nightshift0s.Db.Columns.Runs.{RunState, run_state_eq_iff, run_state_Eq}
use nightshift0s.Db.Schema.{RunRow}
use nightshift0s.Db.State.{Db}
use nightshift0s.Db.Rows.{All-update_rows}
use nightshift0s.Runs.Machine.{RunTransition, find_run_transition, is_terminal_run_state}
use nightshift0s.Runs.Transitions.{RunTransitionInput, run_guard, run_patch, transition_run}
use nightshift0s.Runs.Transitions.Outcome.{transition_run-Outcome}

abbrev pub IsEndConsistent : RunRow → Type 0
IsEndConsistent r = is_some r.ended_at ≡ is_terminal_run_state r.state

terminal_is_final :
    (from to : RunState) → is_terminal_run_state from ≡ true → find_run_transition from to ≡ none
unfolding find_run_transition
terminal_is_final from to h = ground arith

pub leaves_active :
    (from to : RunState) {e : RunTransition}
    → find_run_transition from to ≡ some e
    → is_terminal_run_state from ≡ false
leaves_active from to h = ground (arith, h, terminal_is_final from to)

patch-IsEndConsistent :
    (from : RunState) (now : ℕ) (input : RunTransitionInput) (r : RunRow)
    → is_some r.ended_at ≡ false
    → IsEndConsistent (run_patch from now input r)
unfolding run_patch
patch-IsEndConsistent from now input r running = ground arith

active_of_guard :
    (id : ℕ) (from : RunState) (r : RunRow)
    → is_terminal_run_state from ≡ false
    → run_guard id from r ≡ true
    → IsEndConsistent r
    → is_some r.ended_at ≡ false
active_of_guard id from r active hit c = ground (arith, run_state_eq_iff r.state from)

-- If every row has an end time exactly when it is in a terminal state, any transition leaves the
-- table so.
pub transition_run-IsEndConsistent :
    (db : Db) (now : ℕ) (input : RunTransitionInput)
    → All IsEndConsistent db.runs
    → All IsEndConsistent (transition_run db now input).0.runs
transition_run-IsEndConsistent db now input h = elim (transition_run-Outcome db now input) [
  | inl stays ↦ rw stays.0 h
  | inr m ↦ rw m.result (
      All-update_rows IsEndConsistent _ _ db.runs
        (λ r hit c.
          patch-IsEndConsistent m.from now input r
            (active_of_guard input.run_id m.from r (leaves_active m.from input.to m.legal) hit c))
        h)
]
