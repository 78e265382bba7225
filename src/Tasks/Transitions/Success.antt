-- ===== src/Tasks/Transitions/Success.antt =====
-- Steps that go through (src/tasks/transitions.ts).
use nightshift0s.Prelude.{
  Option, ℕ, ◌≡◌, refl, sym, ◌∙◌, true, false, none, some, List, [], ◌∷◌, arith, ◌==◌, nat_Eq,
  string_Eq, inl, inr, Bool-cases, ap, subst, find, or_else, not, ◌&&◌, is_some, if◌then◌else◌,
  eq_self,
}
use nightshift0s.Db.Columns.Tasks.{TaskState, task_state_Eq}
use nightshift0s.Db.Schema.{TaskRow}
use nightshift0s.Db.State.{Db, update_rows, emit}
use nightshift0s.Tasks.Machine.{TaskTransition, find_transition, is_legal_transition}
use nightshift0s.Tasks.Transitions.{
  TransitionInput, TransitionResult, ok, refused, illegal, invalid, guard, transition_patch,
  state_event, transition_task, lacks_merge_sha, checked_transition, transition_link,
  guarded_update,
}
use nightshift0s.Tasks.Transitions.Audit.{patch-id, patch-state}

abbrev pub find_task : ℕ → List TaskRow → Option TaskRow
find_task id rows = find (λ t. t.id == id) rows

guard_on :
    (id : ℕ) (from : TaskState) (x : TaskRow)
    → (x.id == id) ≡ true
    → x.state ≡ from
    → guard id from x ≡ true
guard_on id from x here s = simp (here, s, eq_self from)

guard_off :
    (id : ℕ) (from : TaskState) (x : TaskRow) → (x.id == id) ≡ false → guard id from x ≡ false
guard_off id from x away = rw away refl

head-found :
    (id : ℕ) (x : TaskRow) (rows : List TaskRow) {t : TaskRow}
    → (x.id == id) ≡ true
    → find_task id (x ∷ rows) ≡ some t
    → x ≡ t
head-found id x rows here h = ground (arith, here)

tail-found :
    (id : ℕ) (x : TaskRow) (rows : List TaskRow) {t : TaskRow}
    → (x.id == id) ≡ false
    → find_task id (x ∷ rows) ≡ some t
    → find_task id rows ≡ some t
tail-found id x rows away h = ground (arith, away)

cons-found :
    (id : ℕ) (x : TaskRow) (rows : List TaskRow)
    → (x.id == id) ≡ true
    → find_task id (x ∷ rows) ≡ some x
cons-found id x rows here = ground (arith, here)

find-guard :
    (id : ℕ) (from : TaskState) (rows : List TaskRow) {t : TaskRow}
    → find_task id rows ≡ some t
    → t.state ≡ from
    → find (guard id from) rows ≡ some t
find-guard id from [] h s = cc
find-guard id from (x ∷ rows) {t = t} h s = elim (Bool-cases (x.id == id)) [
  | inl here ↦
      let e = head-found id x rows here h in
      rw (guard_on id from x here (ap (λ r. r.state) e ∙ s)) (ap some e)
  | inr away ↦
      rw (guard_off id from x away) (find-guard id from rows (tail-found id x rows away h) s)
]

find-update :
    (id : ℕ) (from : TaskState) (patch : TaskRow → TaskRow) (rows : List TaskRow) {t : TaskRow}
    → ((x : TaskRow) → (patch x).id ≡ x.id)
    → find_task id rows ≡ some t
    → t.state ≡ from
    → find_task id (update_rows (guard id from) patch rows) ≡ some (patch t)
find-update id from patch [] keeps h s = cc
find-update id from patch (x ∷ rows) {t = t} keeps h s = elim (Bool-cases (x.id == id)) [
  | inl here ↦
      let e = head-found id x rows here h in
      rw (guard_on id from x here (ap (λ r. r.state) e ∙ s)) (
        cons-found id (patch x) _ (ap (λ i. i == id) (keeps x) ∙ here) ∙ ap (λ r. some (patch r)) e)
  | inr away ↦
      rw (guard_off id from x away)
        (rw away (find-update id from patch rows keeps (tail-found id x rows away h) s))
]

module _ (db : Db) (now : ℕ) (input : TransitionInput) {t : TaskRow} {edge : TaskTransition}
    (found : find_task input.task_id db.tasks ≡ some t)
    (legal : find_transition t.state input.to ≡ some edge) where
  abbrev made : Db × TransitionResult
  made =
      let patch = transition_patch db.tasks t now input edge.trigger in
      (
        emit (record db { tasks = update_rows (guard input.task_id t.state) patch db.tasks }) now
            (state_event t.project_id input.task_id t.state input.to input.actor edge.trigger),
        ok (patch t) t.state,
      )

  update-made : guarded_update db now input t t.state edge.trigger ≡ made
  unfolding guarded_update
  update-made = rw (find-guard input.task_id t.state db.tasks found refl, guarded_update) refl

  link-made : input.expected_from ≡ some t.state → transition_link db now input ≡ made
  unfolding transition_link
  link-made pinned =
      rw (found, transition_link)
        (subst
          (λ o.
            (elim (find_transition (or_else o t.state) input.to) [
              | none ↦ (db, refused illegal)
              | some e ↦
                  if not (is_some o) && lacks_merge_sha input
                  then (db, invalid)
                  else guarded_update db now input t (or_else o t.state) e.trigger
            ])
            ≡ made)
          (sym pinned) (rw legal update-made))

  checked-made :
      input.expected_from ≡ some t.state
      → lacks_merge_sha input ≡ false
      → checked_transition db now input (some t.state) ≡ made
  unfolding checked_transition is_legal_transition
  checked-made pinned complete = rw (legal, complete) (link-made pinned)

  transition-made :
      input.expected_from ≡ some t.state
      → lacks_merge_sha input ≡ false
      → transition_task db now input ≡ made
  unfolding transition_task
  transition-made pinned complete =
      subst (λ o. checked_transition db now input o ≡ made) (sym pinned)
        (checked-made pinned complete)

  -- The first row with the id is the patched one, and the call reports it.
  pub transition_task-made :
      input.expected_from ≡ some t.state
      → lacks_merge_sha input ≡ false
      → let r = transition_task db now input in
        let row = transition_patch db.tasks t now input edge.trigger t in
        (find_task input.task_id r.0.tasks ≡ some row)
        × (r.1 ≡ ok row t.state)
        × (row.state ≡ input.to)
  transition_task-made pinned complete = rw (transition-made pinned complete) (
    find-update input.task_id t.state (transition_patch db.tasks t now input edge.trigger) db.tasks
        (patch-id db.tasks t now input edge.trigger) found refl,
    refl,
    patch-state db.tasks t now input edge.trigger t,
  )
