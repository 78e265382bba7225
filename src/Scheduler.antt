-- ===== src/Scheduler.antt =====
-- The slot-filling pass of the scheduler (src/scheduler/scheduler.ts). Routing, the capacity gate and
-- the start of a run are parameters, as they are injected there: each sees the database, may change
-- it, and may throw.
pub mod Fair
pub mod Order
mod Examples
use nightshift0s.Prelude.{
  is_empty, ℕ, ◌+◌, ◌-◌, String, Bool, true, false, not, ◌&&◌, ◌||◌, Option, none, some, List, [],
  ◌∷◌, ◌++◌, ◌==◌, nat_Eq, keep, length, ltb, leb, if◌then◌else◌,
}
use nightshift0s.Prelude.Int.{ltb_ℤ}
use nightshift0s.Db.Columns.Tasks.{ready, review, approved, task_state_Eq}
use nightshift0s.Db.Columns.Runs.{coder, run_kind_Eq}
use nightshift0s.Db.Columns.Providers.{AuthLane}
use nightshift0s.Db.Schema.{TaskRow, RunRow}
use nightshift0s.Db.Events.{EventInput, tick_report}
use nightshift0s.Db.State.{Db, emit}
use nightshift0s.Runs.Machine.{is_terminal_run_state}
use nightshift0s.Runs.Claim.{is_of_task}

-- What an awaited call of an injected function comes to, with the database after it.
pub data Answer {ℓ} (A : Type ℓ) : Type ℓ where
  returns : Db → A → Answer A
  throws : Db → String → Answer A

pub data Verdict {ℓ} (A : Type ℓ) : Type ℓ where
  yes : A → Verdict A
  no : String → Verdict A

pub record SpawnPlan : Type 0 where
  pub provider : String
  pub model : String
  pub auth_lane : AuthLane
  pub prompt : String
  pub repo_dir : String
  pub home_root : String

pub record SchedulerDeps : Type 0 where
  pub max_parallel_slots : ℕ
  pub max_review_wip : ℕ
  pub resolve_spawn : Db → TaskRow → List RunRow → Answer (Option SpawnPlan)
  pub can_spawn : Db → String → AuthLane → Answer (Verdict AuthLane)
  pub start_run : Db → SpawnPlan → ℕ → Answer (Verdict (Unit {0}))

abbrev pub count_active_coder_runs : Db → ℕ
count_active_coder_runs db =
    length (keep (λ r. r.kind == coder && not (is_terminal_run_state r.state)) db.runs)

abbrev pub count_review_wip : Db → ℕ
count_review_wip db = length (keep (λ t. t.state == review || t.state == approved) db.tasks)

abbrev pub prior_coder_runs : Db → ℕ → List RunRow
prior_coder_runs db id = keep (λ r. r.kind == coder) (keep (λ r. is_of_task id r.task_id) db.runs)

unfoldable pub after_start : Answer (Verdict (Unit {0})) → Db × Verdict (Unit {0})
after_start (returns db answer) = (db, answer)
after_start (throws db message) = (db, no message)

-- The lane is the one that the capacity gate gives.
unfoldable pub after_gate :
    SchedulerDeps → ℕ → SpawnPlan → Answer (Verdict AuthLane) → Db × Verdict (Unit {0})
unfolding after_start
after_gate deps id plan (returns db (yes lane)) =
    after_start (deps.start_run db (record plan { auth_lane = lane }) id)
after_gate deps id plan (returns db (no reason)) = (db, no reason)
after_gate deps id plan (throws db message) = (db, no message)

unfoldable pub after_plan : SchedulerDeps → ℕ → Answer (Option SpawnPlan) → Db × Verdict (Unit {0})
unfolding after_gate
after_plan deps id (returns db (some plan)) =
    after_gate deps id plan (deps.can_spawn db plan.provider plan.auth_lane)
after_plan deps id (returns db none) = (db, no "no_plan")
after_plan deps id (throws db message) = (db, no message)

unfoldable pub try_spawn_one : SchedulerDeps → Db → TaskRow → Db × Verdict (Unit {0})
unfolding after_plan
try_spawn_one deps db task =
    after_plan deps task.id (deps.resolve_spawn db task (prior_coder_runs db task.id))

pub record TickReport : Type 0 where
  pub active_at_start : ℕ
  pub started : List ℕ
  pub skipped : List (ℕ × String)

abbrev pub tick_of : ℕ → List ℕ → List (ℕ × String) → TickReport
tick_of active started skipped = record {
  active_at_start = active;
  started = started;
  skipped = skipped;
}

-- The comparison that `listTasks` sorts by.
abbrev pub comes_before : TaskRow → TaskRow → Bool
comes_before a b =
    ltb_ℤ a.priority b.priority || (not (ltb_ℤ b.priority a.priority) && leb a.id b.id)

unfoldable pub insert_task : TaskRow → List TaskRow → List TaskRow
insert_task t [] = t ∷ []
insert_task t (x ∷ rows) =
    let rest = insert_task t rows in if comes_before t x then t ∷ x ∷ rows else x ∷ rest

unfoldable pub order_tasks : List TaskRow → List TaskRow
order_tasks [] = []
order_tasks (t ∷ rows) = insert_task t (order_tasks rows)

abbrev pub list_ready : Db → List TaskRow
list_ready db = order_tasks (keep (λ t. t.state == ready) db.tasks)

abbrev pub add_outcome :
    ℕ → Verdict (Unit {0}) → List ℕ × List (ℕ × String) → List ℕ × List (ℕ × String)
add_outcome id (yes done) rest = (id ∷ rest.0, rest.1)
add_outcome id (no reason) rest = (rest.0, (id, reason) ∷ rest.1)

abbrev pub slots_left : ℕ → Verdict (Unit {0}) → ℕ
slots_left free (yes done) = free - 1
slots_left free (no reason) = free

-- The loop over the candidates, with the slots that are still free.
unfoldable pub fill : SchedulerDeps → Db → ℕ → List TaskRow → Db × (List ℕ × List (ℕ × String))
unfolding try_spawn_one
fill deps db free [] = (db, ([], []))
fill deps db free (task ∷ tasks) =
    let r = try_spawn_one deps db task in
    let rest = fill deps r.0 (slots_left free r.1) tasks in
    if free == 0 then (db, ([], [])) else (rest.0, add_outcome task.id r.1 rest.1)

abbrev pub tick_event : TickReport → EventInput
tick_event report = record {
  project_id = none;
  run_id = none;
  task_id = none;
  kind = "scheduler.tick";
  payload = tick_report report.active_at_start report.started report.skipped;
}

-- Quiet ticks stay out of the log.
unfoldable pub log_tick : ℕ → ℕ → Db × (List ℕ × List (ℕ × String)) → Db × TickReport
log_tick now active (db, (started, skipped)) =
    let report = tick_of active started skipped in
    (if is_empty started && is_empty skipped then db else emit db now (tick_event report), report)

unfoldable pub tick_once : SchedulerDeps → Db → ℕ → Db × TickReport
unfolding log_tick
tick_once deps db now =
    let active = count_active_coder_runs db in
    let idle = tick_of active [] [] in
    if leb deps.max_parallel_slots active
    then (db, idle)
    else if leb deps.max_review_wip (count_review_wip db)
    then (db, idle)
    else log_tick now active (fill deps db (deps.max_parallel_slots - active) (list_ready db))
