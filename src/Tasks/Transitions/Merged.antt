-- ===== src/Tasks/Transitions/Merged.antt =====
-- The merge commit of a task (src/tasks/transitions.ts).
use nightshift0s.Prelude.{
  ℕ, String, ◌≡◌, ◌≢◌, false, none, some, List, All, arith, nat_Eq, string_Eq, inl, inr, ap,
}
use nightshift0s.Db.Columns.Tasks.{TaskState, done, task_state_eq_iff, task_state_Eq}
use nightshift0s.Db.Schema.{TaskRow}
use nightshift0s.Db.State.{Db}
use nightshift0s.Db.Rows.{All-update_rows}
use nightshift0s.Tasks.Machine.{TaskTransition, find_transition}
use nightshift0s.Tasks.Transitions.{
  TransitionInput, is_missing, lacks_merge_sha, transition_patch, transition_task,
}
use nightshift0s.Tasks.Transitions.Outcome.{transition_task-Outcome}

-- `merge_sha` is a non-empty commit in state `done`, and null in every other state.
pub record IsMergeConsistent (t : TaskRow) : Type 0 where
  pub done_has : t.state ≡ done → is_missing t.merge_sha ≡ false
  pub open_lacks : t.state ≢ done → t.merge_sha ≡ none

done_is_final : (to : TaskState) → find_transition done to ≡ none
unfolding find_transition
done_is_final to = ground arith

leaves_open :
    (from to : TaskState) {e : TaskTransition} → find_transition from to ≡ some e → from ≢ done
leaves_open from to h d = cc (ap (λ s. find_transition s to) d, done_is_final to)

patch-IsMergeConsistent :
    (rows : List TaskRow) (current : TaskRow) (now : ℕ) (input : TransitionInput) (trigger : String)
    (t : TaskRow)
    → t.state ≢ done
    → lacks_merge_sha input ≡ false
    → IsMergeConsistent t
    → IsMergeConsistent (transition_patch rows current now input trigger t)
unfolding transition_patch
patch-IsMergeConsistent rows current now input trigger t unfinished has c =
    ground (arith, task_state_eq_iff input.to done)

-- If every row is in `done` exactly when it carries a non-empty merge commit, any transition
-- leaves the table so.
pub transition_task-IsMergeConsistent :
    (db : Db) (now : ℕ) (input : TransitionInput)
    → All IsMergeConsistent db.tasks
    → All IsMergeConsistent (transition_task db now input).0.tasks
transition_task-IsMergeConsistent db now input h = elim (transition_task-Outcome db now input) [
  | inl stays ↦ rw stays.0 h
  | inr m ↦ rw m.result (
      All-update_rows IsMergeConsistent _ _ db.tasks
        (λ t hit c.
          patch-IsMergeConsistent db.tasks m.current now input m.edge.trigger t
            (λ d. leaves_open m.from input.to m.legal (ground (arith, hit))) m.merged c)
        h)
]
