-- ===== src/Db/State.antt =====
-- The tables together: what one writer link reads and replaces. A link is a function from this
-- state to the next one, since the writer queue runs the links one after the other
-- (src/db/writer.ts), and an interleaving of callers is a sequence of links.
use nightshift0s.Prelude.{ℕ, List, Bool, [], ◌∷◌, if◌then◌else◌}
use nightshift0s.Db.Schema.{TaskRow, TaskDependencyRow, RunRow, ProviderRow}
use nightshift0s.Db.Events.{EventRow, EventInput, emit_in_writer}

pub record Db : Type 0 where
  pub projects : List ℕ
  pub tasks : List TaskRow
  pub dependencies : List TaskDependencyRow
  pub runs : List RunRow
  pub providers : List ProviderRow
  pub events : List EventRow
  pub next_task_id : ℕ
  pub next_run_id : ℕ

-- `UPDATE … SET patch WHERE test`: every row that passes the test is patched.
abbrev pub update_rows {ℓ} : {A : Type ℓ} → (A → Bool) → (A → A) → List A → List A
update_rows test patch [] = []
update_rows test patch (x ∷ xs) = (if test x then patch x else x) ∷ update_rows test patch xs

abbrev pub emit : Db → ℕ → EventInput → Db
emit db now e = record db { events = emit_in_writer db.events now e }
