-- ===== src/Runs/Transitions/Outcome.antt =====
-- The outcomes of a run transition, which its proofs go by (src/runs/transitions.ts).
use nightshift0s.Prelude.{
  ℕ, ◌≡◌, refl, ◌⊎◌, inl, inr, Option, none, some, ◌==◌, find, or_else, nat_Eq, Option-cases,
  Bool-cases,
}
use nightshift0s.Db.Columns.Runs.{RunState}
use nightshift0s.Db.Schema.{RunRow}
use nightshift0s.Db.State.{Db, update_rows, emit}
use nightshift0s.Runs.Machine.{RunTransition, find_run_transition, is_legal_run_transition}
use nightshift0s.Runs.Transitions.{
  RunTransitionInput, RunTransitionResult, ok, run_guard, run_patch, run_event, run_update,
  run_link, checked_run_transition, transition_run,
}

abbrev pub IsOk : RunTransitionResult → Type 0
IsOk (ok row from) = Unit
IsOk _ = ⊥

pub record Moved (db : Db) (now : ℕ) (input : RunTransitionInput) (r : Db × RunTransitionResult)
    : Type 0 where
  pub current : RunRow
  pub from : RunState
  pub edge : RunTransition
  pub row : RunRow
  pub found : find (λ r. r.id == input.run_id) db.runs ≡ some current
  pub pinned : from ≡ or_else input.expected_from current.state
  pub legal : find_run_transition from input.to ≡ some edge
  pub hit : find (run_guard input.run_id from) db.runs ≡ some row
  pub result : r ≡ (
    emit
        (record db {
          runs = update_rows (run_guard input.run_id from) (run_patch from now input) db.runs;
        })
        now
        (run_event input.run_id current.task_id from input.to input.actor edge.trigger),
    ok (run_patch from now input row) from,
  )

abbrev pub Outcome : Db → ℕ → RunTransitionInput → Db × RunTransitionResult → Type 0
Outcome db now input r = ((r.0 ≡ db) × (IsOk r.1 → ⊥)) ⊎ Moved db now input r

module _ (db : Db) (now : ℕ) (input : RunTransitionInput) where
  update-Outcome :
      (current : RunRow) (edge : RunTransition) (from : RunState)
      → find (λ r. r.id == input.run_id) db.runs ≡ some current
      → from ≡ or_else input.expected_from current.state
      → find_run_transition from input.to ≡ some edge
      → Outcome db now input (run_update db now input current from edge.trigger)
  unfolding run_update
  update-Outcome current edge from found pinned legal =
      elim (Option-cases (find (run_guard input.run_id from) db.runs)) [
        | inl gone ↦ rw (gone, run_update) (inl (refl, λ x. x))
        | inr (row, hit) ↦
            rw (hit, run_update)
              (inr (record {
                current = current;
                from = from;
                edge = edge;
                row = row;
                found = found;
                pinned = pinned;
                legal = legal;
                hit = hit;
                result = refl;
              }))
      ]

  link-Outcome : Outcome db now input (run_link db now input)
  unfolding run_link
  link-Outcome = elim (Option-cases (find (λ r. r.id == input.run_id) db.runs)) [
    | inl gone ↦ rw (gone, run_link) (inl (refl, λ x. x))
    | inr (current, found) ↦
        elim (Option-cases
          (find_run_transition (or_else input.expected_from current.state) input.to)) [
            | inl no_edge ↦ rw (found, no_edge, run_link) (inl (refl, λ x. x))
            | inr (edge, legal) ↦
                rw (found, legal, run_link) (update-Outcome current edge _ found refl legal)
          ]
  ]

  checked-Outcome :
      (pinned : Option RunState) → Outcome db now input (checked_run_transition db now input pinned)
  unfolding checked_run_transition
  checked-Outcome none = link-Outcome
  checked-Outcome (some from) = elim (Bool-cases (is_legal_run_transition from input.to)) [
    | inl legal ↦ rw legal link-Outcome
    | inr illegal ↦ rw illegal (inl (refl, λ x. x))
  ]

  -- Every call leaves the database alone without success, or makes the guarded update with its event.
  pub transition_run-Outcome : Outcome db now input (transition_run db now input)
  unfolding transition_run
  transition_run-Outcome = checked-Outcome input.expected_from
