-- ===== src/Db/Schema.antt =====
-- The rows of the tables that the control plane writes (src/db/schema.ts), and the database as one
-- record of them. A table is the list of its rows in the order of insertion. A timestamp is the
-- instant that it names, in milliseconds; a cost is a natural number in a fixed small unit.
use nightshift0s.Prelude.{ℕ, String, Bool, Option}
use nightshift0s.Prelude.Int.{ℤ}
use nightshift0s.Db.Columns.Tasks.{TaskState, RiskTier, TaskCategory}
use nightshift0s.Db.Columns.Runs.{RunState, RunKind}
use nightshift0s.Db.Columns.Providers.{AuthLane, ProviderKind, ProviderAuthMode, CircuitState}

pub record TaskRow : Type 0 where
  pub id : ℕ
  pub project_id : ℕ
  pub title : String
  pub description : Option String
  pub acceptance_criteria : Option String
  pub state : TaskState
  pub priority : ℤ
  pub category : TaskCategory
  pub risk_tier : RiskTier
  pub branch : Option String
  pub base_sha : Option String
  pub merge_sha : Option String
  pub claimed_by : Option ℕ
  pub round : ℕ
  pub routine_id : Option ℕ
  pub created_at : ℕ
  pub updated_at : ℕ

pub record TaskDependencyRow : Type 0 where
  pub task_id : ℕ
  pub depends_on_task_id : ℕ

pub record RunRow : Type 0 where
  pub id : ℕ
  pub task_id : Option ℕ
  pub kind : RunKind
  pub provider : String
  pub model : String
  pub auth_lane : AuthLane
  pub state : RunState
  pub session_id : Option String
  pub worktree_path : Option String
  pub tmux_session : Option String
  pub home_path : Option String
  pub head_sha : Option String
  pub exit_reason : Option String
  pub tokens_in : Option ℕ
  pub tokens_out : Option ℕ
  pub cost_usd : Option ℕ
  pub priced : Bool
  pub started_at : Option ℕ
  pub ended_at : Option ℕ

pub record ProviderRow : Type 0 where
  pub name : String
  pub kind : ProviderKind
  pub auth_mode : ProviderAuthMode
  pub concurrency_cap : ℕ
  pub enabled : Bool
  pub circuit_state : CircuitState
  pub cooldown_until : Option ℕ
  pub last_error : Option String
