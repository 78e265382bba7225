-- ===== src/Tasks/Examples.antt =====
-- A small board, and the theorems about the task board at it.
use nightshift0s.Prelude.{
  find, subst, sym, if◌then◌else◌, ◌+◌, ℕ, String, ◌≡◌, refl, ◌↔◌, ◌⊎◌, inl, inr, true, false,
  Option, none, some, [], ◌∷◌, ◌++◌, All, map, arith,
}
use nightshift0s.Prelude.Int.{pos, ◌<ℤ◌, ◌+ℤ◌}
use nightshift0s.Db.Columns.Tasks.{
  TaskState, backlog, ready, coding, done, failed, functional, full,
}
use nightshift0s.Db.Schema.{TaskRow}
use nightshift0s.Db.State.{Db}
use nightshift0s.Db.Events.{EventRow, max_seq, task_changed}
use nightshift0s.Tasks.Transitions.Outcome.{IsOk}
use nightshift0s.Db.Rows.{IsUnique}
use nightshift0s.Tasks.Machine.{is_legal_transition, find_transition}
use nightshift0s.Tasks.Transitions.{
  TransitionInput, no_extra, transition_task, refused, lost_race, guard, transition_link,
  guarded_update, transition_patch, demoted_priority, current_max,
}
use nightshift0s.Tasks.Transitions.Merged.{IsMergeConsistent, transition_task-IsMergeConsistent}
use nightshift0s.Tasks.Transitions.Audit.{
  IsLogged, logged_state, transition_task-IsLogged, transition_task-one_event,
}
use nightshift0s.Tasks.Transitions.Race.{transition_task-loser}
use nightshift0s.Tasks.Transitions.Demote.{transition_task-demoted}
use nightshift0s.Tasks.Dependencies.{
  link, add_dependency, check_dependency, check_edge, insert_dependency, would_create_cycle,
  has_edge, recompute_readiness, is_candidate, make_ready, walk, list_dependency_ids, promote_all,
  has_unmerged, promote,
}
use nightshift0s.Tasks.Dependencies.Walk.{Reaches, would_create_cycle_iff}
use nightshift0s.Tasks.Dependencies.Cycles.{IsAcyclic, add_dependency-IsAcyclic}
use nightshift0s.Tasks.Dependencies.Readiness.{recompute_readiness-sweep}

abbrev pub task : ℕ → TaskState → Option String → TaskRow
task id state merge_sha = record {
  id = id;
  project_id = 1;
  title = "a task";
  description = none;
  acceptance_criteria = none;
  state = state;
  priority = pos id;
  category = functional;
  risk_tier = full;
  branch = none;
  base_sha = none;
  merge_sha = merge_sha;
  claimed_by = none;
  round = 0;
  routine_id = none;
  created_at = 0;
  updated_at = 0;
}

-- Task 2 waits for task 1, which is merged; task 5 waits for task 4, which has failed.
abbrev pub board : Db
board = record {
  projects = 1 ∷ [];
  tasks =
      task 1 done (some "abc")
      ∷ task 2 backlog none
      ∷ task 3 ready none
      ∷ task 4 failed none
      ∷ task 5 backlog none
      ∷ [];
  dependencies = link 2 1 ∷ link 5 4 ∷ [];
  runs = [];
  providers = [];
  events = [];
  next_task_id = 6;
  next_run_id = 1;
}

abbrev pub move : ℕ → TaskState → Option TaskState → TransitionInput
move id to from = record {
  task_id = id;
  to = to;
  expected_from = from;
  actor = "scheduler";
  extra = no_extra;
}

board-IsUnique : IsUnique (map (λ t. t.id) board.tasks)
board-IsUnique = omega arith

board_merged : All IsMergeConsistent board.tasks
board_merged = ground arith

board_edges :
    (a b : ℕ) → has_edge board.dependencies a b ≡ true → ((2 ≡ a) × (1 ≡ b)) ⊎ ((5 ≡ a) × (4 ≡ b))
board_edges a b e = ground arith

no_chain :
    (t d : ℕ) → would_create_cycle board.dependencies t d ≡ false → ¬ Reaches board.dependencies d t
no_chain t d clear chain = cc (clear, (would_create_cycle_iff board.dependencies t d).1.1 chain)

no_chain_back : (¬ Reaches board.dependencies 1 2) × (¬ Reaches board.dependencies 4 5)
unfolding would_create_cycle walk list_dependency_ids
no_chain_back = (no_chain 2 1 refl, no_chain 5 4 refl)

board-IsAcyclic : IsAcyclic board.dependencies
board-IsAcyclic a b e r = elim (board_edges a b e) [
  | inl k ↦ no_chain_back.0 (
      subst (λ x. Reaches board.dependencies x 2) (sym k.1)
        (subst (λ x. Reaches board.dependencies b x) (sym k.0) r))
  | inr k ↦ no_chain_back.1 (
      subst (λ x. Reaches board.dependencies x 5) (sym k.1)
        (subst (λ x. Reaches board.dependencies b x) (sym k.0) r))
]

ready_now :
    map (λ t. t.state) (recompute_readiness board 9 none).0.tasks
    ≡ done ∷ ready ∷ ready ∷ failed ∷ backlog ∷ []
unfolding recompute_readiness promote_all is_candidate has_unmerged promote
ready_now = refl

transition_task-IsMergeConsistent_example :
    All IsMergeConsistent (transition_task board 7 (move 4 backlog none)).0.tasks
transition_task-IsMergeConsistent_example =
    transition_task-IsMergeConsistent board 7 (move 4 backlog none) board_merged

transition_task-IsLogged_example :
    let db = (transition_task board 7 (move 3 coding (some ready))).0 in
    All (IsLogged db.events) db.tasks
unfolding logged_state
transition_task-IsLogged_example =
    transition_task-IsLogged board 7 (move 3 coding (some ready)) board-IsUnique
      (refl, (refl, (refl, (refl, (refl, tt)))))

transition_task-loser_example :
    let db = (transition_task board 7 (move 3 coding (some ready))).0 in
    transition_task db 8 (move 3 coding (some ready)) ≡ (db, refused lost_race)
unfolding transition_task transition_link guarded_update is_legal_transition find_transition
transition_task-loser_example =
    transition_task-loser board 7 8 (move 3 coding (some ready)) (move 3 coding (some ready)) ready
      refl tt refl refl refl refl

transition_task-demoted_example : All (λ t. t.project_id ≡ 1 → t.priority <ℤ pos 6) board.tasks
unfolding transition_task transition_link guarded_update find_transition transition_patch
    demoted_priority current_max ◌+ℤ◌
transition_task-demoted_example =
    transition_task-demoted board 7 (move 4 backlog none)
      {row = record (task 4 backlog none) { priority = pos 6; updated_at = 7 }} board-IsUnique refl
      refl

would_create_cycle_iff_example :
    (would_create_cycle board.dependencies 1 2 ≡ true) ↔ Reaches board.dependencies 2 1
would_create_cycle_iff_example = (would_create_cycle_iff board.dependencies 1 2).1

add_dependency-IsAcyclic_example : IsAcyclic (add_dependency (λ d. d) board 3 2).0.dependencies
add_dependency-IsAcyclic_example =
    add_dependency-IsAcyclic (λ d. d) board 3 2 (λ a b e. e) board-IsAcyclic

-- Two calls that overlap, 3 on 5 and 5 on 3, both pass their checks, and close a cycle.
abbrev overlapping : Db
overlapping = (add_dependency (λ d. (add_dependency (λ x. x) d 5 3).0) board 3 5).0

overlapping_closes :
    (has_edge overlapping.dependencies 3 5 ≡ true) × (has_edge overlapping.dependencies 5 3 ≡ true)
unfolding add_dependency check_dependency check_edge insert_dependency would_create_cycle walk
    list_dependency_ids
overlapping_closes = (refl, refl)

recompute_readiness-sweep_example :
    (recompute_readiness board 9 (some 1)).0.tasks
    ≡ map (λ t. if is_candidate board (some 1) t then make_ready 9 t else t) board.tasks
recompute_readiness-sweep_example = recompute_readiness-sweep board 9 (some 1) board-IsUnique

transition_task-one_event_example :
    let r = transition_task board 7 (move 3 coding (some ready)) in
    ((r.0 ≡ board) × (IsOk r.1 → ⊥))
    ⊎ ((row : TaskRow) × (from : TaskState) × (e : EventRow) × (trigger : String) × (find
            (guard 3 from)
            board.tasks
          ≡ some row)
        × (row.state ≡ from)
        × (is_legal_transition from coding ≡ true)
        × (r.0.events ≡ board.events ++ e ∷ [])
        × (e.payload ≡ task_changed 3 from coding "scheduler" trigger)
        × (e.seq ≡ max_seq board.events + 1)
        × IsOk r.1)
transition_task-one_event_example = transition_task-one_event board 7 (move 3 coding (some ready))
