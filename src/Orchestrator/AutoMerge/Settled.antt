-- ===== src/Orchestrator/AutoMerge/Settled.antt =====
-- Where the merge of an approved task ends (src/orchestrator/autoMerge.ts).
use nightshift0s.Prelude.{ℕ, ◌≡◌, some, map, ◌==◌, nat_Eq, string_Eq, if◌then◌else◌}
use nightshift0s.Db.Columns.Tasks.{TaskState, approved, merging, needs_human, done, task_state_Eq}
use nightshift0s.Db.Schema.{TaskRow}
use nightshift0s.Db.State.{Db}
use nightshift0s.Db.Rows.{IsUnique}
use nightshift0s.Tasks.Transitions
use nightshift0s.Tasks.Transitions.Success.{find_task}
use nightshift0s.Orchestrator.AutoMerge
use nightshift0s.Orchestrator.AutoMerge.{
  PreflightCall, answers, rejects, MergeCall, merge_sha, throws, Forge, AutoMergeOutcome,
}

abbrev Standing : ℕ → TaskState → Db → Type 0
Standing id state db = (row : TaskRow) × (find_task id db.tasks ≡ some row) × (row.state ≡ state)

IdsUnique : Db → Type 0
IdsUnique db = IsUnique (map (λ t. t.id) db.tasks)

-- Without its commit a merge stays in `merging`, since the error of its confirmation is not caught.
abbrev pub merged_state : MergeCall → TaskState
merged_state (merge_sha sha) = if sha == "" then merging else done
merged_state (throws message) = needs_human

-- Where the merge of an approved task ends.
abbrev pub settled_state : PreflightCall → MergeCall → TaskState
settled_state rejects call = approved
settled_state (answers pre) call = if pre.pass then merged_state call else needs_human

-- Links of other callers that are run meanwhile leave the tasks alone.
abbrev pub IsQuiet : Forge → Type 0
IsQuiet forge =
    ((d : Db) → (forge.during_preflight d).tasks ≡ d.tasks)
    × ((d : Db) → (forge.during_merge d).tasks ≡ d.tasks)
