-- ===== src/Tasks/Transitions/Outcome.antt =====
-- The outcomes of a task transition, which its proofs go by (src/tasks/transitions.ts).
use nightshift0s.Prelude.{
  is_some, if◌then◌else◌, ◌&&◌, not, ℕ, ◌≡◌, refl, ◌⊎◌, inl, inr, true, false, Option, none, some,
  ◌==◌, find, or_else, nat_Eq, arith, Option-cases, Bool-cases,
}
use nightshift0s.Db.Columns.Tasks.{TaskState}
use nightshift0s.Db.Schema.{TaskRow}
use nightshift0s.Db.State.{Db, update_rows, emit}
use nightshift0s.Tasks.Machine.{TaskTransition, find_transition, is_legal_transition}
use nightshift0s.Tasks.Transitions.{
  TransitionInput, TransitionResult, ok, invalid, guard, lacks_merge_sha, transition_patch,
  state_event, guarded_update, transition_link, checked_transition, transition_task,
}

abbrev pub IsOk : TransitionResult → Type 0
IsOk (ok row from) = Unit
IsOk _ = ⊥

pub record Moved (db : Db) (now : ℕ) (input : TransitionInput) (r : Db × TransitionResult)
    : Type 0 where
  pub current : TaskRow
  pub from : TaskState
  pub edge : TaskTransition
  pub row : TaskRow
  pub found : find (λ t. t.id == input.task_id) db.tasks ≡ some current
  pub pinned : from ≡ or_else input.expected_from current.state
  pub legal : find_transition from input.to ≡ some edge
  pub merged : lacks_merge_sha input ≡ false
  pub hit : find (guard input.task_id from) db.tasks ≡ some row
  pub result : r ≡ (
    emit
        (record db {
          tasks =
              update_rows
                (guard input.task_id from)
                (transition_patch db.tasks current now input edge.trigger)
                db.tasks;
        })
        now
        (state_event current.project_id input.task_id from input.to input.actor edge.trigger),
    ok (transition_patch db.tasks current now input edge.trigger row) from,
  )

abbrev pub Stays : Db → Db × TransitionResult → Type 0
Stays db r = (r.0 ≡ db) × (IsOk r.1 → ⊥)

abbrev pub Outcome : Db → ℕ → TransitionInput → Db × TransitionResult → Type 0
Outcome db now input r = Stays db r ⊎ Moved db now input r

module _ (db : Db) (now : ℕ) (input : TransitionInput) where
  update_cases :
      (current : TaskRow)
      → (edge : TaskTransition) → (from : TaskState)
      → find (λ t. t.id == input.task_id) db.tasks ≡ some current
      → from ≡ or_else input.expected_from current.state
      → find_transition from input.to ≡ some edge
      → lacks_merge_sha input ≡ false
      → Outcome db now input (guarded_update db now input current from edge.trigger)
  unfolding guarded_update
  update_cases current edge from found pinned legal merged =
      elim (Option-cases (find (guard input.task_id from) db.tasks)) [
        | inl e ↦ rw (e, guarded_update) (inl (refl, λ x. x))
        | inr (row, e) ↦
            rw (e, guarded_update)
              (inr (record {
                current = current;
                from = from;
                edge = edge;
                row = row;
                found = found;
                pinned = pinned;
                legal = legal;
                merged = merged;
                hit = e;
                result = refl;
              }))
      ]

  checked_cases :
      (current : TaskRow)
      → (edge : TaskTransition) → find (λ t. t.id == input.task_id) db.tasks ≡ some current
      → find_transition (or_else input.expected_from current.state) input.to ≡ some edge
      → (is_some input.expected_from ≡ true → lacks_merge_sha input ≡ false)
      → Outcome db now input (
          if not (is_some input.expected_from) && lacks_merge_sha input
          then (db, invalid)
          else guarded_update db now input current
              (or_else input.expected_from current.state)
              edge.trigger)
  checked_cases current edge found legal checked = elim (Bool-cases (lacks_merge_sha input)) [
    | inl lacks ↦ elim (Bool-cases (is_some input.expected_from)) [
      | inl pinned ↦ cc (checked pinned)
      | inr free ↦ rw (free, lacks) (inl (refl, λ x. x))
    ]
    | inr has ↦ elim (Bool-cases (is_some input.expected_from)) [
      | inl pinned ↦ rw (pinned) (update_cases current edge _ found refl legal has)
      | inr free ↦ rw (free, has) (update_cases current edge _ found refl legal has)
    ]
  ]

  link_cases :
      (is_some input.expected_from ≡ true → lacks_merge_sha input ≡ false)
      → Outcome db now input (transition_link db now input)
  unfolding transition_link
  link_cases h = elim (Option-cases (find (λ t. t.id == input.task_id) db.tasks)) [
    | inl e ↦ rw (e, transition_link) (inl (refl, λ x. x))
    | inr (current, e) ↦
        elim (Option-cases (find_transition (or_else input.expected_from current.state) input.to)) [
          | inl illegal ↦ rw (e, illegal, transition_link) (inl (refl, λ x. x))
          | inr (edge, legal) ↦
              rw (e, legal, transition_link) (checked_cases current edge e legal h)
        ]
  ]

  checked_transition-Outcome :
      (pinned : Option TaskState)
      → input.expected_from ≡ pinned
      → Outcome db now input (checked_transition db now input pinned)
  unfolding checked_transition
  checked_transition-Outcome none e = link_cases (λ h. ground (arith, h))
  checked_transition-Outcome (some from) e = elim (Bool-cases (is_legal_transition from input.to)) [
    | inl legal ↦ elim (Bool-cases (lacks_merge_sha input)) [
      | inl lacks ↦ rw (legal, lacks) (inl (refl, λ x. x))
      | inr has ↦ rw (legal, has) (link_cases (λ h. has))
    ]
    | inr illegal ↦ rw illegal (inl (refl, λ x. x))
  ]

  -- Every call leaves the database alone without success, or makes the guarded update with its event.
  pub transition_task-Outcome : Outcome db now input (transition_task db now input)
  unfolding transition_task
  transition_task-Outcome = checked_transition-Outcome input.expected_from refl
