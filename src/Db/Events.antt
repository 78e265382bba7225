-- ===== src/Db/Events.antt =====
-- The event log (src/events/events.ts): its rows and the synchronous emit, which allocates the next
-- sequence number inside the writer's link. The payload is kept as data in place of its JSON text.
pub mod Subscription
use nightshift0s.Prelude.{ℕ, ◌+◌, String, Bool, Option, List, [], ◌∷◌, ◌++◌, max}
use nightshift0s.Prelude.Int.{ℤ}
use nightshift0s.Db.Columns.Tasks.{TaskState}
use nightshift0s.Db.Columns.Runs.{RunState}
use nightshift0s.Db.Columns.Providers.{CircuitState}

pub data Payload : Type 0 where
  task_changed : (task_id : ℕ) → (from to : TaskState) → (actor trigger : String) → Payload
  run_changed : (run_id : ℕ) → (from to : RunState) → (actor trigger : String) → Payload
  capacity_changed :
      (provider signal : String)
      → CircuitState
      → (cooldown_until : Option ℕ) → (last_error : Option String) → Payload
  tick_report : (active_at_start : ℕ) → (started : List ℕ) → (skipped : List (ℕ × String)) → Payload
  watchdog_warn : (run_id : ℕ) → (elapsed_ms : ℤ) → (completion_ms : ℕ) → Payload
  budget_kill :
      (run_id : ℕ)
      → (task_id : Option ℕ) → (name : String) → (limit_ms : ℕ) → (elapsed_ms : ℤ) → Payload
  budget_advisory :
      (run_id : ℕ)
      → (task_id tokens_in tokens_out : Option ℕ) → (cap : ℕ) → (priced : Bool) → Payload

pub record EventInput : Type 0 where
  pub project_id : Option ℕ
  pub run_id : Option ℕ
  pub task_id : Option ℕ
  pub kind : String
  pub payload : Payload

pub record EventRow : Type 0 where
  pub project_id : Option ℕ
  pub run_id : Option ℕ
  pub task_id : Option ℕ
  pub seq : ℕ
  pub kind : String
  pub payload : Payload
  pub ts : ℕ

-- `coalesce(max(events.seq), 0)`
unfoldable pub max_seq : List EventRow → ℕ
max_seq [] = 0
max_seq (e ∷ es) = max e.seq (max_seq es)

abbrev pub new_event : List EventRow → ℕ → EventInput → EventRow
new_event log now e = record {
  project_id = e.project_id;
  run_id = e.run_id;
  task_id = e.task_id;
  seq = max_seq log + 1;
  kind = e.kind;
  payload = e.payload;
  ts = now;
}

-- The insertion of `emitInWriter`; publishing to the subscribers is not a change of the table.
abbrev pub emit_in_writer : List EventRow → ℕ → EventInput → List EventRow
emit_in_writer log now e = log ++ new_event log now e ∷ []
