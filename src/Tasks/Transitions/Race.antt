-- ===== src/Tasks/Transitions/Race.antt =====
-- Two actors that race for one task (src/tasks/transitions.ts).
use nightshift0s.Prelude.{
  sym, is_some, ℕ, ◌≡◌, refl, ◌∙◌, ◌≢◌, Bool, true, false, none, some, List, [], ◌∷◌, arith, ◌==◌,
  nat_Eq, inl, inr, Bool-cases, Option-cases, ap, find, or_else,
}
use nightshift0s.Db.Columns.Tasks.{TaskState, task_state_eq_iff, task_state_Eq}
use nightshift0s.Db.Schema.{TaskRow}
use nightshift0s.Db.State.{Db, update_rows}
use nightshift0s.Tasks.Machine.{TaskTransition, find_transition, is_legal_transition}
use nightshift0s.Tasks.Transitions.{
  TransitionInput, refused, lost_race, guard, transition_patch, transition_task, lacks_merge_sha,
  transition_link, guarded_update,
}
use nightshift0s.Tasks.Transitions.Outcome.{IsOk, transition_task-Outcome}
use nightshift0s.Tasks.Transitions.Audit.{patch-id, patch-state}

no_self_edge : (s : TaskState) → find_transition s s ≡ none
unfolding find_transition
no_self_edge s = ground arith

moves_away :
    (from to : TaskState) {e : TaskTransition} → find_transition from to ≡ some e → to ≢ from
moves_away from to h d = cc (ap (λ s. find_transition from s) d, no_self_edge from)

-- After the update no row is left that the same guard would hit.
guard_spent :
    (id : ℕ) (from : TaskState) (patch : TaskRow → TaskRow) (rows : List TaskRow)
    → ((t : TaskRow) → guard id from (patch t) ≡ false)
    → find (guard id from) (update_rows (guard id from) patch rows) ≡ none
guard_spent id from patch [] moved = refl
guard_spent id from patch (t ∷ rows) moved = elim (Bool-cases (guard id from t)) [
  | inl hit ↦ rw (hit, moved t) (guard_spent id from patch rows moved)
  | inr miss ↦ rw (miss, miss) (guard_spent id from patch rows moved)
]

-- The row with an id is still found after an update that leaves ids alone.
still_found :
    (id : ℕ) (test : TaskRow → Bool) (patch : TaskRow → TaskRow) (rows : List TaskRow) {c : TaskRow}
    → ((t : TaskRow) → (patch t).id ≡ t.id)
    → find (λ t. t.id == id) rows ≡ some c
    → (d : TaskRow) × (find (λ t. t.id == id) (update_rows test patch rows) ≡ some d)
still_found id test patch [] keeps h = cc
still_found id test patch (t ∷ rows) {c = c} keeps h = elim (Bool-cases (t.id == id)) [
  | inl here ↦ elim (Bool-cases (test t)) [
    | inl hit ↦ (patch t, rw (hit, keeps t, here))
    | inr miss ↦ (t, rw (miss, here))
  ]
  | inr away ↦
      let (d, found) = still_found id test patch rows {c = c} keeps (ground (arith, away)) in
      elim (Bool-cases (test t)) [
        | inl hit ↦ (d, rw (hit, keeps t, away) found)
        | inr miss ↦ (d, rw (miss, away) found)
      ]
]

module _ (db : Db) (now : ℕ) (input : TransitionInput) where
  lost :
      (from : TaskState) (current : TaskRow) (edge : TaskTransition)
      → input.expected_from ≡ some from
      → find (λ t. t.id == input.task_id) db.tasks ≡ some current
      → find_transition from input.to ≡ some edge
      → find (guard input.task_id from) db.tasks ≡ none
      → lacks_merge_sha input ≡ false
      → transition_task db now input ≡ (db, refused lost_race)
  unfolding transition_task transition_link guarded_update is_legal_transition
  lost from current edge pinned found legal gone has = ground arith

-- The row that was read by id passes the guard on its own state.
guard_finds :
    (id : ℕ) (rows : List TaskRow) {c : TaskRow}
    → find (λ t. t.id == id) rows ≡ some c
    → (row : TaskRow) × (find (guard id c.state) rows ≡ some row)
guard_finds id [] h = cc
guard_finds id (t ∷ rows) {c = c} h = elim (Bool-cases (guard id c.state t)) [
  | inl hit ↦ (t, rw hit)
  | inr miss ↦
      let (row, found) =
        guard_finds id rows {c = c} (ground (arith, miss, task_state_eq_iff t.state c.state)) in
      (row, rw miss found)
]

guard_of_state :
    (id : ℕ) (from : TaskState) (t : TaskRow) → t.state ≢ from → guard id from t ≡ false
guard_of_state id from t away = ground (arith, task_state_eq_iff t.state from)

-- Of two calls that pin the same state of the same task, if the first succeeds, the second, where
-- its step is legal and does not lack a merge commit, loses: it changes nothing and reports
-- `lost_race`.
pub transition_task-loser :
    (db : Db) (now later : ℕ) (first second : TransitionInput) (from : TaskState)
    → first.expected_from ≡ some from
    → IsOk (transition_task db now first).1
    → second.expected_from ≡ some from
    → second.task_id ≡ first.task_id
    → is_legal_transition from second.to ≡ true
    → lacks_merge_sha second ≡ false
    → let db' = (transition_task db now first).0 in
      transition_task db' later second ≡ (db', refused lost_race)
unfolding is_legal_transition
transition_task-loser db now later first second from pin won pin' same legal has =
    elim (transition_task-Outcome db now first) [
      | inl stays ↦ absurd (stays.1 won)
      | inr m ↦
          let patch = transition_patch db.tasks m.current now first m.edge.trigger in
          let at = m.pinned ∙ ap (λ o. or_else o m.current.state) pin in
          let (row, found) =
            still_found first.task_id (guard first.task_id m.from) patch db.tasks
              (patch-id db.tasks m.current now first m.edge.trigger) m.found in
          let gone = guard_spent first.task_id m.from patch db.tasks (λ t.
            guard_of_state first.task_id m.from (patch t) (λ e.
              moves_away m.from first.to m.legal
                (sym (patch-state db.tasks m.current now first m.edge.trigger t) ∙ e))) in
          elim (Option-cases (find_transition from second.to)) [
            | inl no_edge ↦ cc (legal, ap is_some no_edge)
            | inr (edge, is_edge) ↦
                lost _ later second from row edge pin' (rw (m.result, same) found) is_edge
                  (rw (m.result, same, ← at) gone) has
          ]
    ]

-- A call that pins no state never loses a race: the state is read in the link that writes it.
transition_task-never_lost :
    (db : Db) (now : ℕ) (input : TransitionInput)
    → input.expected_from ≡ none
    → (transition_task db now input).1 ≢ refused lost_race
unfolding transition_task transition_link guarded_update
transition_task-never_lost db now input free =
    elim (Option-cases (find (λ t. t.id == input.task_id) db.tasks)) [
      | inl missing ↦ λ h. ground (arith, missing, free)
      | inr (current, found) ↦
          let (row, hit) = guard_finds input.task_id db.tasks found in
          λ h. ground (arith, found, hit, free)
    ]
