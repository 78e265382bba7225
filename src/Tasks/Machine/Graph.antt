-- ===== src/Tasks/Machine/Graph.antt =====
-- The transition diagram as a relation (docs/SPEC-STATE-MACHINES.md, section 1), against the table.
use nightshift0s.Prelude.{◌⊎◌, inl, inr, ◌≡◌, refl, ◌↔◌, true, false, arith}
use nightshift0s.Db.Columns.Tasks.{
  TaskState, draft, backlog, ready, coding, review, approved, merging, needs_human, done, failed,
  cancelled,
}
use nightshift0s.Tasks.Machine.{find_transition, is_legal_transition, is_terminal_task_state}

pub data IsOpen : TaskState → Type 0 where
  draft_open : IsOpen draft
  backlog_open : IsOpen backlog
  ready_open : IsOpen ready
  coding_open : IsOpen coding
  review_open : IsOpen review
  approved_open : IsOpen approved
  merging_open : IsOpen merging
  needs_human_open : IsOpen needs_human
  failed_open : IsOpen failed

infix 40 ◌⟶◌ ◌⟶*◌
pub data ◌⟶◌ : TaskState → TaskState → Type 0 where
  promote : draft ⟶ backlog
  deps_merged : backlog ⟶ ready
  claim : ready ⟶ coding
  coder_succeeded : coding ⟶ review
  coder_failed : coding ⟶ failed
  gate_blocked : coding ⟶ needs_human
  revise : review ⟶ coding
  approve : review ⟶ approved
  escalate : review ⟶ needs_human
  merge_start : approved ⟶ merging
  merge_confirmed : merging ⟶ done
  merge_blocked : merging ⟶ needs_human
  demote : failed ⟶ backlog
  human_resume_coding : needs_human ⟶ coding
  human_force_merge : needs_human ⟶ merging
  cancel : {s : TaskState} → IsOpen s → s ⟶ cancelled

pub data ◌⟶*◌ : TaskState → TaskState → Type 0 where
  here : {s : TaskState} → s ⟶* s
  then : {s t u : TaskState} → s ⟶ t → t ⟶* u → s ⟶* u

ruleset open_states = (
  draft_open, backlog_open, ready_open, coding_open, review_open, approved_open, merging_open,
  needs_human_open, failed_open,
)

ruleset edges = (
  promote, deps_merged, claim, coder_succeeded, coder_failed, gate_blocked, revise, approve,
  escalate, merge_start, merge_confirmed, merge_blocked, demote, human_resume_coding,
  human_force_merge, cancel, open_states,
)

legal-⟶ : (from to : TaskState) → is_legal_transition from to ≡ true → from ⟶ to
unfolding is_legal_transition find_transition
legal-⟶ from to h = grind (arith, edges)

⟶-legal : {from to : TaskState} → from ⟶ to → is_legal_transition from to ≡ true
unfolding is_legal_transition find_transition
⟶-legal promote = refl
⟶-legal (cancel draft_open) = refl
⟶-legal (cancel _) = refl
⟶-legal _ = refl

-- The table allows a step exactly when the diagram has an edge for it.
is_legal_transition_iff : (from to : TaskState) → (is_legal_transition from to ≡ true) ↔ (from ⟶ to)
is_legal_transition_iff from to = (legal-⟶ from to, ⟶-legal)

-- From every state that is not terminal the diagram leads on to `done`, and to `cancelled`; from a
-- terminal state no step is allowed.
board_progress :
    (s : TaskState)
    → ((is_terminal_task_state s ≡ false) × (s ⟶* done) × (s ⟶* cancelled))
      ⊎ ((is_terminal_task_state s ≡ true) × ((to : TaskState) → is_legal_transition s to ≡ false))
unfolding is_legal_transition find_transition
board_progress done = inr (refl, λ to. ground arith)
board_progress cancelled = inr (refl, λ to. ground arith)
board_progress draft = inl (refl, search (here, then, edges) depth 9, search (here, then, edges))
board_progress _ = inl (refl, search (here, then, edges) depth 9, search (here, then, edges))
