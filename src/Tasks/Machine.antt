-- ===== src/Tasks/Machine.antt =====
-- The table of legal task transitions (src/tasks/transitions.ts).
pub mod Graph
use nightshift0s.Prelude.{
  ℕ, String, Bool, true, false, not, ◌&&◌, Option, none, some, List, [], ◌∷◌, ◌++◌, map, ◌==◌, keep,
  find, contains, is_some, ◌≡◌, refl,
}
use nightshift0s.Db.Columns.Tasks.{
  TaskState, draft, backlog, ready, coding, review, approved, merging, needs_human, done, failed,
  cancelled, task_states, task_state_Eq,
}

abbrev pub task_terminal_states : List TaskState
task_terminal_states = done ∷ cancelled ∷ []

abbrev pub is_terminal_task_state : TaskState → Bool
is_terminal_task_state state = contains task_terminal_states state

pub record TaskTransition : Type 0 where
  pub from : TaskState
  pub to : TaskState
  pub trigger : String
  pub system_only : Bool

abbrev pub non_terminal_states : List TaskState
non_terminal_states = keep (λ s. not (is_terminal_task_state s)) task_states

abbrev edge : TaskState → TaskState → String → TaskTransition
edge from to trigger = record { from = from; to = to; trigger = trigger; system_only = false }

abbrev pub task_transitions : List TaskTransition
task_transitions =
    edge draft backlog "promote"
    ∷ record { from = backlog; to = ready; trigger = "deps_merged"; system_only = true }
    ∷ edge ready coding "claim"
    ∷ edge coding review "coder_succeeded"
    ∷ edge coding failed "coder_failed"
    ∷ edge coding needs_human "gate_blocked"
    ∷ edge review coding "revise"
    ∷ edge review approved "approve"
    ∷ edge review needs_human "escalate"
    ∷ edge approved merging "merge_start"
    ∷ edge merging done "merge_confirmed"
    ∷ edge merging needs_human "merge_blocked"
    ∷ edge failed backlog "demote"
    ∷ edge needs_human coding "human_resume_coding"
    ∷ edge needs_human merging "human_force_merge"
    ∷ map (λ from. edge from cancelled "cancel") non_terminal_states

unfoldable pub find_transition : TaskState → TaskState → Option TaskTransition
find_transition from to = find (λ t. t.from == from && t.to == to) task_transitions

unfoldable pub is_legal_transition : TaskState → TaskState → Bool
is_legal_transition from to = is_some (find_transition from to)

test : find_transition merging done ≡ some (edge merging done "merge_confirmed")
unfolding find_transition
test = refl
