-- ===== src/Runs/Budget.antt =====
-- The budget of a run and the sweep over the active ones (src/runs/budget.ts). A start that is
-- missing or cannot be parsed is no start; the kill is a parameter that may change the database. The
-- texts of the reasons are left out: nothing reads them.
pub mod Warn
use nightshift0s.Prelude.{
  ℕ, ◌+◌, ◌*◌, String, Bool, true, false, not, ◌&&◌, ◌||◌, Option, none, some, List, [], ◌∷◌, ◌++◌,
  ◌==◌, nat_Eq, contains, is_some, keep, ltb, leb, if◌then◌else◌,
}
use nightshift0s.Prelude.Int.{ℤ, pos, ◌-ℤ◌, ltb_ℤ}
use nightshift0s.Db.Schema.{RunRow}
use nightshift0s.Db.Events.{EventInput, budget_kill, budget_advisory}
use nightshift0s.Db.State.{Db, emit}
use nightshift0s.Runs.Machine.{is_terminal_run_state}

pub record BudgetDeps : Type 0 where
  pub wall_clock_seconds_per_run : ℕ
  pub advisory_tokens_per_run : ℕ
  pub hard_cost_usd_per_run : ℕ
  pub kill : Db → ℕ → Db

pub data BudgetAction : Type 0 where
  within kill_wall_clock kill_cost warn_advisory : BudgetAction

pub record BudgetCheck : Type 0 where
  pub run_id : ℕ
  pub action : BudgetAction

abbrev pub limit_ms : BudgetDeps → ℕ
limit_ms deps = deps.wall_clock_seconds_per_run * 1000

abbrev pub elapsed_ms : ℕ → Option ℕ → ℤ
elapsed_ms now none = pos 0
elapsed_ms now (some started) = pos now -ℤ pos started

abbrev over_wall_clock : BudgetDeps → ℕ → Option ℕ → Bool
over_wall_clock deps now none = false
over_wall_clock deps now (some started) =
    ltb_ℤ (pos (limit_ms deps)) (elapsed_ms now (some started))

abbrev at_least : ℕ → Option ℕ → Bool
at_least limit none = false
at_least limit (some n) = leb limit n

abbrev over_cost : BudgetDeps → RunRow → Bool
over_cost deps run =
    ltb 0 deps.hard_cost_usd_per_run
    && (run.priced && at_least deps.hard_cost_usd_per_run run.cost_usd)

abbrev tokens : Option ℕ → Option ℕ → Option ℕ
tokens (some a) (some b) = some (a + b)
tokens _ _ = none

abbrev over_tokens : BudgetDeps → RunRow → Bool
over_tokens deps run = at_least deps.advisory_tokens_per_run (tokens run.tokens_in run.tokens_out)

unfoldable pub evaluate_run_budget : BudgetDeps → ℕ → RunRow → (already_warned : Bool) → BudgetCheck
evaluate_run_budget deps now run already_warned = record {
  run_id = run.id;
  action =
      if over_wall_clock deps now run.started_at
      then kill_wall_clock
      else if over_cost deps run
      then kill_cost
      else if over_tokens deps run && not already_warned
      then warn_advisory
      else within;
}

abbrev pub active_started_runs : Db → List RunRow
active_started_runs db =
    keep (λ r. not (is_terminal_run_state r.state) && is_some r.started_at) db.runs

abbrev timeout_name : BudgetAction → String
timeout_name kill_wall_clock = "wall_clock_budget"
timeout_name kill_cost = "cost_budget"
timeout_name _ = "budget"

abbrev pub kill_event : BudgetDeps → ℕ → RunRow → BudgetAction → EventInput
kill_event deps now run action = record {
  project_id = none;
  run_id = some run.id;
  task_id = run.task_id;
  kind = "run.budget_kill";
  payload =
      budget_kill run.id run.task_id (timeout_name action) (limit_ms deps)
        (elapsed_ms now run.started_at);
}

abbrev pub advisory_event : BudgetDeps → RunRow → EventInput
advisory_event deps run = record {
  project_id = none;
  run_id = some run.id;
  task_id = run.task_id;
  kind = "run.budget_advisory";
  payload =
      budget_advisory run.id run.task_id run.tokens_in run.tokens_out deps.advisory_tokens_per_run
        run.priced;
}

-- What the enforcer keeps between the sweeps, and what it has done in this one.
pub record SweepState : Type 0 where
  pub db : Db
  pub warned : List ℕ
  pub results : List BudgetCheck

-- The event of a kill is written before the kill.
unfoldable pub apply_check : BudgetDeps → ℕ → RunRow → SweepState → BudgetAction → SweepState
apply_check deps now run s within = s
apply_check deps now run s warn_advisory = record {
  db = emit s.db now (advisory_event deps run);
  warned = s.warned ++ run.id ∷ [];
  results = s.results ++ record { run_id = run.id; action = warn_advisory } ∷ [];
}
apply_check deps now run s action = record {
  db = deps.kill (emit s.db now (kill_event deps now run action)) run.id;
  warned = s.warned;
  results = s.results ++ record { run_id = run.id; action = action } ∷ [];
}

unfoldable pub sweep_runs : BudgetDeps → ℕ → SweepState → List RunRow → SweepState
unfolding apply_check
sweep_runs deps now s [] = s
sweep_runs deps now s (run ∷ runs) =
    sweep_runs deps now
      (apply_check deps now run s
        (evaluate_run_budget deps now run (contains s.warned run.id)).action)
      runs

unfoldable pub sweep : BudgetDeps → ℕ → Db → List ℕ → SweepState
unfolding sweep_runs
sweep deps now db warned =
    sweep_runs deps now (record { db = db; warned = warned; results = [] }) (active_started_runs db)
