-- ===== src/Runs/Transitions/Audit.antt =====
-- The events of run transitions (src/runs/transitions.ts).
use nightshift0s.Prelude.{
  ℕ, ◌+◌, String, ◌≡◌, refl, ◌⊎◌, true, some, [], ◌∷◌, ◌++◌, arith, inl, inr, find, find-true,
  nat_Eq,
}
use nightshift0s.Db.Columns.Runs.{RunState, run_state_eq_iff}
use nightshift0s.Db.Schema.{RunRow}
use nightshift0s.Db.Events.{EventRow, run_changed, max_seq, new_event}
use nightshift0s.Db.State.{Db}
use nightshift0s.Runs.Machine.{is_legal_run_transition}
use nightshift0s.Runs.Transitions.{RunTransitionInput, run_guard, run_event, transition_run}
use nightshift0s.Runs.Transitions.Outcome.{IsOk, transition_run-Outcome}

guard_state : (id : ℕ) (from : RunState) (r : RunRow) → run_guard id from r ≡ true → r.state ≡ from
guard_state id from r h = ground (arith, run_state_eq_iff r.state from)

-- A call changes nothing and reports no success, or it appends one event: that the run with this id
-- moved along a legal edge, from the state it was in, under the next sequence number.
transition_run-one_event :
    (db : Db) (now : ℕ) (input : RunTransitionInput)
    → let r = transition_run db now input in
      ((r.0 ≡ db) × (IsOk r.1 → ⊥))
      ⊎ ((row : RunRow) × (from : RunState) × (e : EventRow) × (trigger : String) × (find
              (run_guard input.run_id from)
              db.runs
            ≡ some row)
          × (row.state ≡ from)
          × (is_legal_run_transition from input.to ≡ true)
          × (r.0.events ≡ db.events ++ e ∷ [])
          × (e.payload ≡ run_changed input.run_id from input.to input.actor trigger)
          × (e.seq ≡ max_seq db.events + 1)
          × IsOk r.1)
unfolding is_legal_run_transition
transition_run-one_event db now input = elim (transition_run-Outcome db now input) [
  | inl stays ↦ inl stays
  | inr m ↦ inr (
    m.row,
    m.from,
    new_event db.events now
        (run_event input.run_id m.current.task_id m.from input.to input.actor m.edge.trigger),
    m.edge.trigger,
    m.hit,
    guard_state input.run_id m.from m.row (find-true (run_guard input.run_id m.from) db.runs m.hit),
    rw m.legal,
    rw m.result,
    refl,
    refl,
    rw m.result tt,
  )
]
