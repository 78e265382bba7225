-- ===== src/Tasks/Crud/Examples.antt =====
-- The edits of tasks (src/tasks/tasks.ts) at a small board.
use nightshift0s.Prelude.{
  ◌≡◌, refl, ◌⊎◌, true, none, map, All, In, contains, nat_Eq, string_Eq, arith,
}
use nightshift0s.Prelude.Int.{◌+ℤ◌}
use nightshift0s.Prelude.Text.{trim_text}
use nightshift0s.Prelude.Json.{natural, null, absent, string}
use nightshift0s.Db.Columns.Tasks.{ready, backlog, task_state_Eq}
use nightshift0s.Db.Rows.{IsUnique}
use nightshift0s.Tasks.Examples.{board, task}
use nightshift0s.Tasks.Transitions.Merged.{IsMergeConsistent}
use nightshift0s.Tasks.Fields.{
  valid, invalid, cannot_delete, title_required, invalid_choice, state_field, deletable_states,
  validate_title, normalise_text, assert_one_of, assert_priority,
}
use nightshift0s.Tasks.Crud.{
  CreateTaskInput, create_task, delete_task, check_create, next_priority_for_project,
}
use nightshift0s.Tasks.Crud.Kept.{delete, edit, place, edit-keeps}

abbrev given : CreateTaskInput
given = record {
  project_id = natural 1;
  title = string "  a new task ";
  description = absent;
  acceptance_criteria = null;
  state = string "backlog";
  priority = absent;
  category = absent;
  risk_tier = absent;
}

created_row :
    (create_task board 9 given).1
    ≡ valid (record (task 6 backlog none) { title = "a new task"; created_at = 9; updated_at = 9 })
unfolding create_task check_create validate_title normalise_text assert_one_of assert_priority
    next_priority_for_project trim_text ◌+ℤ◌
created_row = refl

created_done :
    (create_task board 9 (record given { state = string "done" }))
    ≡ (board, invalid (invalid_choice state_field (string "done")))
unfolding create_task check_create validate_title normalise_text assert_one_of assert_priority
    trim_text
created_done = refl

blank : (create_task board 9 (record given { title = string "  " })).1 ≡ invalid title_required
unfolding create_task check_create validate_title trim_text
blank = refl

busy : (delete_task board 3).1 ≡ invalid (cannot_delete 3 ready)
unfolding delete_task
busy = refl

deleted_done : (delete_task board 1).1 ≡ valid true
unfolding delete_task
deleted_done = refl

ids : IsUnique (map (λ t. t.id) board.tasks)
ids = ground arith

merged : All IsMergeConsistent board.tasks
merged = ground arith

edit-keeps_example :
    All IsMergeConsistent (edit board 9 (delete 1)).tasks
    × All
        (λ t.
          (contains deletable_states t.state ≡ true)
          ⊎ In (place t) (map place (edit board 9 (delete 1)).tasks))
        board.tasks
edit-keeps_example = edit-keeps board 9 (delete 1) ids merged
