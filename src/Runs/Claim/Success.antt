-- ===== src/Runs/Claim/Success.antt =====
-- The claim of a ready task (src/runs/runs.ts).
use nightshift0s.Prelude.{
  ℕ, suc, String, ◌≡◌, refl, sym, ◌∙◌, ap, subst, true, false, Option, some, List, [], ◌∷◌, ◌++◌,
  any, ◌==◌, nat_Eq, arith, Bool-cases, inl, inr,
}
use nightshift0s.Db.Columns.Tasks.{TaskState, ready, coding}
use nightshift0s.Db.Schema.{TaskRow, RunRow}
use nightshift0s.Db.State.{Db}
use nightshift0s.Tasks.Machine.{TaskTransition, find_transition}
use nightshift0s.Tasks.Transitions
use nightshift0s.Tasks.Transitions.{
  TransitionResult, transition_task, transition_patch, lacks_merge_sha,
}
use nightshift0s.Tasks.Transitions.Success.{find_task, transition_task-made}
use nightshift0s.Runs.Claim.{
  CreateRunInput, ClaimResult, is_active_of, breaks_constraint, queued_run, create_run,
  settle_claim, claim_created, claim_task_and_create_run, claim_input, created, claimed,
}

claim_edge :
    (edge : TaskTransition) × (find_transition ready coding ≡ some edge) × (edge.trigger ≡ "claim")
unfolding find_transition
claim_edge = (_, refl, refl)

claim_patch-claimed_by :
    (rows : List TaskRow) (t : TaskRow) (now : ℕ) (input : CreateRunInput)
    (base_sha : Option String) (run : RunRow)
    → (transition_patch rows t now (claim_input input base_sha run) "claim" t).claimed_by
      ≡ some run.id
unfolding transition_patch claim_input
claim_patch-claimed_by rows t now input base_sha run = refl

is_present :
    (id : ℕ) (rows : List TaskRow) {t : TaskRow}
    → find_task id rows ≡ some t
    → any (λ t. t.id == id) rows ≡ true
is_present id [] h = cc
is_present id (x ∷ rows) {t = t} h = elim (Bool-cases (x.id == id)) [
  | inl here ↦ ground (arith, here)
  | inr away ↦ ground (arith, away, is_present id rows {t = t})
]

settle-claimed :
    (now : ℕ) (run : RunRow) (r : Db × TransitionResult) {row : TaskRow} {from : TaskState}
    → r.1 ≡ Transitions.ok row from
    → settle_claim now run r ≡ (r.0, claimed run)
unfolding settle_claim
settle-claimed now run (db, Transitions.ok row from) e = refl
settle-claimed now run (db, Transitions.refused reason) e = cc
settle-claimed now run (db, Transitions.invalid) e = cc

-- The claim by a run that was created.
claim-settled :
    (db : Db) (now : ℕ) (input : CreateRunInput) (base_sha : Option String) (run : RunRow)
    {t : TaskRow}
    → find_task input.task_id db.tasks ≡ some t
    → t.state ≡ ready
    → let r = claim_created now input base_sha (db, created run) in
      (r.1 ≡ claimed run)
      × ((row : TaskRow) × (find_task input.task_id r.0.tasks ≡ some row)
          × (row.state ≡ coding)
          × (row.claimed_by ≡ some run.id))
unfolding claim_created claim_input
claim-settled db now input base_sha run {t = t} found at =
    let step = claim_input input base_sha run in
    let (edge, is_edge, is_claim) = claim_edge in
    let made =
      transition_task-made db now step found (ap (λ s. find_transition s coding) at ∙ is_edge)
        (ap some (sym at)) refl in
    let by =
      ap (λ k. (transition_patch db.tasks t now step k t).claimed_by) is_claim
      ∙ claim_patch-claimed_by db.tasks t now input base_sha run in
    subst
      (λ (y : Db × ClaimResult).
        (y.1 ≡ claimed run)
        × ((row : TaskRow) × (find_task input.task_id y.0.tasks ≡ some row)
            × (row.state ≡ coding)
            × (row.claimed_by ≡ some run.id)))
      (sym (settle-claimed now run (transition_task db now step) made.1))
      (refl, (transition_patch db.tasks t now step edge.trigger t, made.0, made.2, by))

created-free :
    (db : Db) (input : CreateRunInput)
    → breaks_constraint db input ≡ false
    → create_run db input ≡ (
      record db {
        runs = db.runs ++ queued_run db.next_run_id input ∷ [];
        next_run_id = suc db.next_run_id;
      },
      created (queued_run db.next_run_id input),
    )
unfolding create_run
created-free db input free = rw free refl

no_conflict :
    (db : Db) (input : CreateRunInput)
    → any (λ t. t.id == input.task_id) db.tasks ≡ true
    → any (is_active_of input.task_id) db.runs ≡ false
    → breaks_constraint db input ≡ false
no_conflict db input present free = ground (arith, present, free)

queued_run-id : (id : ℕ) (input : CreateRunInput) → (queued_run id input).id ≡ id
unfolding queued_run
queued_run-id id input = refl

-- A ready task without an active run is claimed: the result is the new run in state `queued`, and the
-- task stands in `coding` with the id of that run as its holder.
pub claim_task_and_create_run-claimed :
    (db : Db) (now : ℕ) (input : CreateRunInput) (base_sha : Option String) {t : TaskRow}
    → find_task input.task_id db.tasks ≡ some t
    → t.state ≡ ready
    → any (is_active_of input.task_id) db.runs ≡ false
    → let r = claim_task_and_create_run db now input base_sha in
      (r.1 ≡ claimed (queued_run db.next_run_id input))
      × ((row : TaskRow) × (find_task input.task_id r.0.tasks ≡ some row)
          × (row.state ≡ coding)
          × (row.claimed_by ≡ some db.next_run_id))
unfolding claim_task_and_create_run queued_run
claim_task_and_create_run-claimed db now input base_sha found at free =
    let run = queued_run db.next_run_id input in
    let made = record db { runs = db.runs ++ run ∷ []; next_run_id = suc db.next_run_id } in
    let fine = no_conflict db input (is_present input.task_id db.tasks found) free in
    subst
      (λ x.
        let r = claim_created now input base_sha x in
        (r.1 ≡ claimed run)
        × ((row : TaskRow) × (find_task input.task_id r.0.tasks ≡ some row)
            × (row.state ≡ coding)
            × (row.claimed_by ≡ some db.next_run_id)))
      (sym (created-free db input fine)) (claim-settled made now input base_sha run found at)
