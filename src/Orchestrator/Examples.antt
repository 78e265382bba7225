-- ===== src/Orchestrator/Examples.antt =====
-- The theorems about the merge at a board with one approved task.
use nightshift0s.Prelude.{◌≡◌, ◌⊎◌, true, none, some, [], ◌∷◌}
use nightshift0s.Db.Columns.Tasks.{approved, backlog}
use nightshift0s.Db.Schema.{TaskRow}
use nightshift0s.Db.State.{Db}
use nightshift0s.Tasks.Examples.{board, task}
use nightshift0s.Orchestrator.AutoMerge.{Forge, answers, merge_sha, get_task, try_auto_merge}
use nightshift0s.Orchestrator.AutoMerge.Gate.{Passed, Entered, try_auto_merge-gated}

abbrev approved_board : Db
approved_board = record board { tasks = task 1 approved none ∷ task 2 backlog none ∷ [] }

abbrev forge : Forge
forge = record {
  preflight = λ id. answers (record { pass = true; blocked = [] });
  merge = λ id. merge_sha "abc";
  during_preflight = λ db. db;
  during_merge = λ db. db;
}

try_auto_merge-gated_example :
    let calls = (try_auto_merge true forge approved_board 9 1).merge_calls in
    (calls ≡ [])
    ⊎ ((calls ≡ 1 ∷ [])
        × (true ≡ true)
        × ((t : TaskRow) × (get_task approved_board 1 ≡ some t) × (t.state ≡ approved))
        × Passed (forge.preflight 1)
        × Entered forge approved_board 9 1)
try_auto_merge-gated_example = try_auto_merge-gated true forge approved_board 9 1
