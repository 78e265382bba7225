-- ===== src/Scheduler/Examples.antt =====
-- A tick at a board with two ready tasks and one free slot.
use nightshift0s.Prelude.{
  ◌==◌, nat_Eq, if◌then◌else◌, ℕ, ◌-◌, ◌≤◌, ◌<◌, ◌≡◌, ◌⊎◌, refl, none, some, [], ◌∷◌, map,
}
use nightshift0s.Db.Columns.Tasks.{ready}
use nightshift0s.Db.Columns.Providers
use nightshift0s.Db.State.{Db}
use nightshift0s.Tasks.Examples.{board, task}
use nightshift0s.Scheduler.{
  Answer, Verdict, SchedulerDeps, SpawnPlan, returns, throws, yes, tick_once, fill, log_tick,
  try_spawn_one, after_plan, after_gate, after_start, order_tasks, insert_task,
  count_active_coder_runs, count_review_wip, list_ready,
}
use nightshift0s.Scheduler.Fair.{Filled, ids_of, tick_once-Filled}
use nightshift0s.Db.Columns.Tasks.{task_state_Eq}

abbrev ready_board : Db
ready_board = record board {
  tasks = task 1 ready none ∷ task 2 ready none ∷ task 3 ready none ∷ [];
}

abbrev plan : SpawnPlan
plan = record {
  provider = "claude";
  model = "opus";
  auth_lane = Providers.AuthLane.subscription;
  prompt = "";
  repo_dir = "";
  home_root = "";
}

-- The start of task 1 throws.
abbrev start : Db → ℕ → Answer (Verdict (Unit {0}))
start db id = if id == 1 then throws db "egress refused" else returns db (yes tt)

abbrev deps : SchedulerDeps
deps = record {
  max_parallel_slots = 1;
  max_review_wip = 2;
  resolve_spawn = λ db t prior. returns db (some plan);
  can_spawn = λ db provider lane. returns db (yes lane);
  start_run = λ db p id. start db id;
}

started_second :
    let r = (tick_once deps ready_board 9).1 in
    (r.started ≡ 2 ∷ []) × (r.skipped ≡ (1, "egress refused") ∷ [])
unfolding tick_once fill log_tick try_spawn_one after_plan after_gate after_start order_tasks
    insert_task
started_second = (refl, refl)

tick_once-Filled_example :
    let r = tick_once deps ready_board 9 in
    let active = count_active_coder_runs ready_board in
    ((r.0 ≡ ready_board)
      × (r.1.started ≡ [])
      × (r.1.skipped ≡ [])
      × ((1 ≤ active) ⊎ (2 ≤ count_review_wip ready_board)))
    ⊎ ((active < 1)
        × (count_review_wip ready_board < 2)
        × Filled
            (1 - active)
            (map (λ t. t.id) (list_ready ready_board))
            r.1.started
            (ids_of r.1.skipped))
tick_once-Filled_example = tick_once-Filled deps ready_board 9
