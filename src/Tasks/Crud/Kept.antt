-- ===== src/Tasks/Crud/Kept.antt =====
-- What the edits of src/tasks/tasks.ts leave alone: work in flight, and the merge commits.
use nightshift0s.Prelude.{
  ℕ, ◌≡◌, refl, sym, ap, subst, ◌≢◌, ◌⊎◌, true, false, not, Option, none, some, or_else, List, [],
  ◌∷◌, ◌++◌, map, All, All-append, All-keep, In, In-keep, arith, inl, inr, contains, find, keep,
  ◌==◌, nat_Eq, eq_true, Bool-cases, string_Eq,
}
use nightshift0s.Prelude.Json.{Json, absent, string}
use nightshift0s.Db.Columns.Tasks.{TaskState, draft, done, task_state_Eq}
use nightshift0s.Db.Schema.{TaskRow}
use nightshift0s.Db.State.{Db}
use nightshift0s.Db.Rows.{IsUnique, found_unique, All-update_rows, map-update_rows}
use nightshift0s.Tasks.Fields.{
  Checked, valid, invalid, creatable_states, assert_one_of, state_field, existing_project,
  validate_title, normalise_text, description_field, acceptance_field, categories, category_field,
  risk_tiers, risk_tier_field, assert_priority, deletable_states,
}
use nightshift0s.Tasks.Crud.{
  CreateTaskInput, UpdateTaskInput, create_task, update_task, delete_task, check_create,
  check_update, NewTask, TaskPatch, new_row, inserted, updated, patched, delete_found,
}
use nightshift0s.Tasks.Crud.Checks.{Holds, bind-Holds}
use nightshift0s.Tasks.Transitions.Merged.{IsMergeConsistent}

pub data Edit : Type 0 where
  create : CreateTaskInput → Edit
  update : (id : ℕ) → UpdateTaskInput → Edit
  delete : (id : ℕ) → Edit

abbrev pub edit : Db → ℕ → Edit → Db
edit db now (create input) = (create_task db now input).0
edit db now (update id input) = (update_task db now id input).0
edit db now (delete id) = (delete_task db id).0

-- The columns that no edit writes.
abbrev pub place : TaskRow → ℕ × TaskState
place t = (t.id, t.state)

In-map : {A B : Type 0} (f : A → B) (a : A) (xs : List A) → In a xs → In (f a) (map f xs)
In-map f a [] h = h
In-map f a (x ∷ xs) (inl e) = inl (ap f e)
In-map f a (x ∷ xs) (inr h) = inr (In-map f a xs h)

In-append : {A : Type 0} (a : A) (xs ys : List A) → In a xs → In a (xs ++ ys)
In-append a [] ys h = absurd h
In-append a (x ∷ xs) ys (inl e) = inl e
In-append a (x ∷ xs) ys (inr h) = inr (In-append a xs ys h)

All-In : {A : Type 0} (P : A → Type 0) (xs : List A) (a : A) → All P xs → In a xs → P a
All-In P [] a h i = absurd i
All-In P (x ∷ xs) a h (inl e) = subst P e h.0
All-In P (x ∷ xs) a h (inr i) = All-In P xs a h.1 i

inserted-keeps :
    (db : Db) (now : ℕ) (n : Checked NewTask) (t : TaskRow)
    → In t db.tasks
    → In (place t) (map place (inserted db now n).0.tasks)
inserted-keeps db now (invalid e) t h = In-map place t db.tasks h
inserted-keeps db now (valid n) t h =
    In-map place t (db.tasks ++ new_row db now n ∷ [])
      (In-append t db.tasks (new_row db now n ∷ []) h)

updated-keeps :
    (db : Db) (now id : ℕ) (p : Checked TaskPatch) (t : TaskRow)
    → In t db.tasks
    → In (place t) (map place (updated db now id p).0.tasks)
updated-keeps db now id (invalid e) t h = In-map place t db.tasks h
updated-keeps db now id (valid p) t h =
    subst (In (place t))
      (sym (map-update_rows (λ t. t.id == id) (patched now p) place (λ x. refl) db.tasks))
      (In-map place t db.tasks h)

spared :
    (db : Db) (id : ℕ) (c t : TaskRow)
    → IsUnique (map (λ t. t.id) db.tasks)
    → find (λ t. t.id == id) db.tasks ≡ some c
    → In t db.tasks
    → contains deletable_states t.state ≡ false
    → contains deletable_states c.state ≡ true
    → not (t.id == id) ≡ true
spared db id c t u found h busy allowed =
    let only =
      All-In (λ x. x.id ≡ id → x ≡ c) db.tasks t (found_unique (λ t. t.id) db.tasks id u found) h in
    elim (Bool-cases (t.id == id)) [
      | inl same ↦ absurd (
          cc (
            ap (λ x. contains deletable_states x.state) (only (eq_true t.id id same)),
            busy,
            allowed,
          ))
      | inr other ↦ ap not other
    ]

delete_found-keeps :
    (db : Db) (id : ℕ) (c : Option TaskRow) (t : TaskRow)
    → find (λ t. t.id == id) db.tasks ≡ c
    → IsUnique (map (λ t. t.id) db.tasks)
    → In t db.tasks
    → contains deletable_states t.state ≡ false
    → In (place t) (map place (delete_found db id c).0.tasks)
delete_found-keeps db id none t found u h busy = In-map place t db.tasks h
delete_found-keeps db id (some c) t found u h busy =
    elim (Bool-cases (contains deletable_states c.state)) [
      | inr refused ↦ rw refused (In-map place t db.tasks h)
      | inl allowed ↦ rw allowed (
          In-map place t (keep (λ t. not (t.id == id)) db.tasks) (
            (In-keep (λ t. not (t.id == id)) t db.tasks).1
              (h, spared db id c t u found h busy allowed)))
    ]

created_open :
    (given : Json) (state : Option TaskState)
    → assert_one_of given creatable_states state_field ≡ valid state
    → or_else state draft ≢ done
unfolding assert_one_of
created_open (string s) state h e = ground arith
created_open absent state h e = ground arith
created_open v state h e = ground arith

check_create-open :
    (db : Db) (input : CreateTaskInput) → Holds (λ n. n.state ≢ done) (check_create db input)
unfolding check_create
check_create-open db input =
    bind-Holds P (existing_project db.projects input.project_id) _ (λ project h0.
      bind-Holds P (validate_title input.title) _ (λ title h1.
        bind-Holds P (normalise_text input.description description_field) _ (λ description h2.
          bind-Holds P (normalise_text input.acceptance_criteria acceptance_field) _
            (λ acceptance h3.
              bind-Holds P (assert_one_of input.state creatable_states state_field) _ (λ state h4.
                bind-Holds P (assert_one_of input.category categories category_field) _
                  (λ category h5.
                    bind-Holds P (assert_one_of input.risk_tier risk_tiers risk_tier_field) _
                      (λ risk h6.
                        bind-Holds P (assert_priority input.priority) _
                          (λ priority h7. created_open input.state state h4))))))))
  where
    P : NewTask → Type 0
    P n = n.state ≢ done

inserted-IsMergeConsistent :
    (db : Db) (now : ℕ) (n : Checked NewTask)
    → Holds (λ n. n.state ≢ done) n
    → All IsMergeConsistent db.tasks
    → All IsMergeConsistent (inserted db now n).0.tasks
inserted-IsMergeConsistent db now (invalid e) unfinished h = h
inserted-IsMergeConsistent db now (valid n) unfinished h =
    All-append IsMergeConsistent db.tasks (new_row db now n ∷ []) h
      (record { done_has = λ d. absurd (unfinished d); open_lacks = λ _. refl }, tt)

updated-IsMergeConsistent :
    (db : Db) (now id : ℕ) (p : Checked TaskPatch)
    → All IsMergeConsistent db.tasks
    → All IsMergeConsistent (updated db now id p).0.tasks
updated-IsMergeConsistent db now id (invalid e) h = h
updated-IsMergeConsistent db now id (valid p) h =
    All-update_rows IsMergeConsistent (λ t. t.id == id) (patched now p) db.tasks
      (λ x hit c. record { done_has = c.done_has; open_lacks = c.open_lacks }) h

delete_found-IsMergeConsistent :
    (db : Db) (id : ℕ) (c : Option TaskRow)
    → All IsMergeConsistent db.tasks
    → All IsMergeConsistent (delete_found db id c).0.tasks
delete_found-IsMergeConsistent db id none h = h
delete_found-IsMergeConsistent db id (some c) h =
    elim (Bool-cases (contains deletable_states c.state)) [
      | inl allowed ↦ rw allowed (All-keep IsMergeConsistent (λ t. not (t.id == id)) db.tasks h)
      | inr refused ↦ rw refused h
    ]

edit-IsMergeConsistent :
    (db : Db) (now : ℕ) (e : Edit)
    → All IsMergeConsistent db.tasks
    → All IsMergeConsistent (edit db now e).tasks
unfolding create_task update_task delete_task
edit-IsMergeConsistent db now (create input) =
    inserted-IsMergeConsistent db now (check_create db input) (check_create-open db input)
edit-IsMergeConsistent db now (update id input) =
    updated-IsMergeConsistent db now id (check_update input)
edit-IsMergeConsistent db now (delete id) =
    delete_found-IsMergeConsistent db id (find (λ t. t.id == id) db.tasks)

edit-place :
    (db : Db) (now : ℕ) (e : Edit) (t : TaskRow)
    → IsUnique (map (λ t. t.id) db.tasks)
    → In t db.tasks
    → contains deletable_states t.state ≡ false
    → In (place t) (map place (edit db now e).tasks)
unfolding create_task update_task delete_task
edit-place db now (create input) t u h busy = inserted-keeps db now (check_create db input) t h
edit-place db now (update id input) t u h busy = updated-keeps db now id (check_update input) t h
edit-place db now (delete id) t u h busy =
    delete_found-keeps db id (find (λ t. t.id == id) db.tasks) t refl u h busy

In-All : {A : Type 0} (P : A → Type 0) (xs : List A) → ((a : A) → In a xs → P a) → All P xs
In-All P [] f = tt
In-All P (x ∷ xs) f = (f x (inl refl), In-All P xs (λ a i. f a (inr i)))

-- If the ids are unique and every task is done exactly when it carries a non-empty merge commit,
-- then after a creation, an update or a deletion, whatever its outcome, that is so again, and
-- every task that was in no deletable state is still on the board, in the state it had.
pub edit-keeps :
    (db : Db) (now : ℕ) (e : Edit)
    → IsUnique (map (λ t. t.id) db.tasks)
    → All IsMergeConsistent db.tasks
    → All IsMergeConsistent (edit db now e).tasks
      × All
          (λ t.
            (contains deletable_states t.state ≡ true)
            ⊎ In (place t) (map place (edit db now e).tasks))
          db.tasks
edit-keeps db now e u h = (
  edit-IsMergeConsistent db now e h,
  In-All
      (λ t.
        (contains deletable_states t.state ≡ true) ⊎ In (place t) (map place (edit db now e).tasks))
      db.tasks
      (λ t i. elim (Bool-cases (contains deletable_states t.state)) [
        | inl parked ↦ inl parked
        | inr busy ↦ inr (edit-place db now e t u i busy)
      ]),
)
