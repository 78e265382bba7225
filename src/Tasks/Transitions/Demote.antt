-- ===== src/Tasks/Transitions/Demote.antt =====
-- The priority of a demoted task (src/tasks/transitions.ts).
use nightshift0s.Prelude.{
  subst, ℕ, ◌≡◌, sym, ◌∙◌, some, List, [], ◌∷◌, All, arith, ◌==◌, nat_Eq, inl, inr, Bool-cases, ap,
  map, keep, nat_eq_iff,
}
use nightshift0s.Prelude.Int.{ℤ, pos, ◌+ℤ◌, ◌≤ℤ◌, ◌<ℤ◌, max_ℤ, max_ℤ_bounds, +ℤ_parts}
use mathlib.Core.List.{foldl}
use nightshift0s.Db.Columns.Tasks.{TaskState, failed, backlog}
use nightshift0s.Db.Schema.{TaskRow}
use nightshift0s.Db.State.{Db}
use nightshift0s.Db.Rows.{IsUnique, found_unique, All-map}
use nightshift0s.Tasks.Machine.{TaskTransition, find_transition}
use nightshift0s.Tasks.Transitions.{
  TransitionInput, ok, current_max, demoted_priority, transition_patch, transition_task,
}
use nightshift0s.Tasks.Transitions.Audit.{guard_same}
use nightshift0s.Tasks.Transitions.Outcome.{IsOk, transition_task-Outcome}

foldl-max_start : (acc : ℤ) (xs : List ℤ) → acc ≤ℤ foldl max_ℤ acc xs
foldl-max_start acc [] = omega arith
foldl-max_start acc (x ∷ xs) = omega (arith, foldl-max_start (max_ℤ acc x) xs, max_ℤ_bounds acc x)

foldl-max-All : (acc : ℤ) (xs : List ℤ) → All (λ x. x ≤ℤ foldl max_ℤ acc xs) xs
foldl-max-All acc [] = tt
foldl-max-All acc (x ∷ xs) = (
  omega (arith, foldl-max_start (max_ℤ acc x) xs, max_ℤ_bounds acc x),
  foldl-max-All (max_ℤ acc x) xs,
)

All-keep-map :
    (project : ℕ) (m : ℤ) (rows : List TaskRow)
    → All (λ x. x ≤ℤ m) (map (λ t. t.priority) (keep (λ t. t.project_id == project) rows))
    → All (λ t. t.project_id ≡ project → t.priority ≤ℤ m) rows
All-keep-map project m [] h = tt
All-keep-map project m (t ∷ rows) h = elim (Bool-cases (t.project_id == project)) [
  | inl same ↦ let k = rw same at h in (λ e. k.0, All-keep-map project m rows k.1)
  | inr other ↦
      (λ e. cc ((nat_eq_iff t.project_id project).1 e), All-keep-map project m rows (rw other at h))
]

-- Every task of the project has at most the current maximum.
priority-le-current_max :
    (project : ℕ) (rows : List TaskRow)
    → All (λ t. t.project_id ≡ project → t.priority ≤ℤ current_max project rows) rows
unfolding current_max
priority-le-current_max project rows = All-keep-map project _ rows (foldl-max-All (pos 0) _)

demoted-lt :
    (project : ℕ) (rows : List TaskRow) (current t : TaskRow)
    → current.project_id ≡ project
    → (t.project_id ≡ project → t.priority ≤ℤ current_max project rows)
    → t.project_id ≡ project
    → t.priority <ℤ demoted_priority rows current
unfolding demoted_priority
demoted-lt project rows current t at bound same = rw at (
    omega (
      arith,
      bound same,
      +ℤ_parts,
      max_ℤ_bounds (current_max project rows +ℤ pos 1) (current.priority +ℤ pos 1),
    ))

demote_patch :
    (rows : List TaskRow) (current row : TaskRow) (now : ℕ) (input : TransitionInput)
    → let t = transition_patch rows current now input "demote" row in
      (t.priority ≡ demoted_priority rows current) × (t.project_id ≡ row.project_id)
unfolding transition_patch
demote_patch rows current row now input = ground arith

demote_trigger :
    (e : TaskTransition) → find_transition failed backlog ≡ some e → e.trigger ≡ "demote"
unfolding find_transition
demote_trigger e h = ground arith

ok-row : {a b : TaskRow} {s t : TaskState} → ok a s ≡ ok b t → a ≡ b
ok-row h = cc

ok-from : {a b : TaskRow} {s t : TaskState} → ok a s ≡ ok b t → s ≡ t
ok-from h = cc

-- With unique task ids, a successful step from `failed` to `backlog` gives the task a priority
-- above that of every task of its project, the old one of its own included.
pub transition_task-demoted :
    (db : Db) (now : ℕ) (input : TransitionInput) {row : TaskRow}
    → IsUnique (map (λ t. t.id) db.tasks)
    → input.to ≡ backlog
    → (transition_task db now input).1 ≡ ok row failed
    → All (λ t. t.project_id ≡ row.project_id → t.priority <ℤ row.priority) db.tasks
transition_task-demoted db now input {row = row} unique to h =
    elim (transition_task-Outcome db now input) [
      | inl stays ↦ absurd (stays.1 (subst IsOk (sym h) tt))
      | inr m ↦
          let id = input.task_id in
          let e = sym (ap (λ r. r.1) m.result) ∙ h in
          let at = ok-from e in
          let same =
            guard_same db.tasks id m.from m.current
              (found_unique (λ (t : TaskRow). t.id) db.tasks id unique m.found) m.hit in
          let trigger = demote_trigger m.edge (rw (← at, ← to) m.legal) in
          let made = demote_patch db.tasks m.current m.row now input in
          let is_row =
            ap (λ k. transition_patch db.tasks m.current now input k m.row) (sym trigger)
            ∙ ok-row e in
          let project = ap (λ t. t.project_id) (sym is_row) ∙ made.1 in
          All-map db.tasks
            (λ t bound p.
              subst (λ x. t.priority <ℤ x) (sym made.0 ∙ ap (λ t. t.priority) is_row)
                (demoted-lt row.project_id db.tasks m.current t
                  (ap (λ t. t.project_id) (sym same) ∙ sym project) bound p))
            (priority-le-current_max row.project_id db.tasks)
    ]
