-- ===== src/Runs/Claim/Single.antt =====
-- The active runs of a task (src/runs/runs.ts, and the index in src/db/schema.ts).
use nightshift0s.Prelude.{
  subst, nat_Eq, ℕ, ◌≤◌, String, ◌≡◌, refl, inl, inr, Bool, true, false, Option, List, [], ◌∷◌,
  ◌++◌, keep, any, length, arith, Bool-cases, nat_eq_iff, ◌==◌,
}
use nightshift0s.Db.Columns.Runs.{RunState, run_state_eq_iff, run_state_Eq}
use nightshift0s.Db.Schema.{RunRow}
use nightshift0s.Db.State.{Db, update_rows}
use nightshift0s.Tasks.Transitions
use nightshift0s.Tasks.Transitions.{transition_task, TransitionInput, TransitionResult}
use nightshift0s.Tasks.Transitions.Outcome.{transition_task-Outcome}
use nightshift0s.Runs.Machine.{is_terminal_run_state}
use nightshift0s.Runs.Transitions.{RunTransitionInput, run_guard, run_patch, transition_run}
use nightshift0s.Runs.Transitions.Outcome.{transition_run-Outcome}
use nightshift0s.Runs.Transitions.Ended.{leaves_active}
use nightshift0s.Runs.Claim.{
  CreateRunInput, CreateResult, is_active_of, breaks_constraint, queued_run, create_run,
  settle_claim, claim_created, claim_task_and_create_run, rollback_input, claim_input, created,
  conflict,
}

-- `one_active_run_per_task`
abbrev pub HasSingleRuns : Db → Type 0
HasSingleRuns db = (task_id : ℕ) → length (keep (is_active_of task_id) db.runs) ≤ 1

length-keep-update {ℓ} :
    {A : Type ℓ} (p test : A → Bool) (patch : A → A) (xs : List A)
    → ((x : A) → test x ≡ true → p (patch x) ≡ true → p x ≡ true)
    → length (keep p (update_rows test patch xs)) ≤ length (keep p xs)
length-keep-update p test patch [] f = omega arith
length-keep-update p test patch (x ∷ xs) f =
    ground (arith, f x, length-keep-update p test patch xs f)

patch_active :
    (k id : ℕ) (from : RunState) (now : ℕ) (input : RunTransitionInput) (r : RunRow)
    → is_terminal_run_state from ≡ false
    → run_guard id from r ≡ true
    → is_active_of k (run_patch from now input r) ≡ true
    → is_active_of k r ≡ true
unfolding run_patch
patch_active k id from now input r active hit h = ground (arith, run_state_eq_iff r.state from)

-- A transition of a run never makes a second one active.
pub transition_run-HasSingleRuns :
    (db : Db) (now : ℕ) (input : RunTransitionInput)
    → HasSingleRuns db
    → HasSingleRuns (transition_run db now input).0
transition_run-HasSingleRuns db now input h k = elim (transition_run-Outcome db now input) [
  | inl stays ↦ rw stays.0 (h k)
  | inr m ↦ rw m.result (
      omega (
        arith,
        h k,
        length-keep-update (is_active_of k) (run_guard input.run_id m.from)
            (run_patch m.from now input) db.runs
            (λ r.
              patch_active k input.run_id m.from now input r
                (leaves_active m.from input.to m.legal)),
      ))
]

-- A transition of a task leaves the runs alone.
pub runs-transition_task :
    (db : Db) (now : ℕ) (input : TransitionInput)
    → ((transition_task db now input).0.runs ≡ db.runs)
      × ((transition_task db now input).0.next_run_id ≡ db.next_run_id)
runs-transition_task db now input = elim (transition_task-Outcome db now input) [
  | inl stays ↦ rw stays.0 (refl, refl)
  | inr m ↦ rw m.result (refl, refl)
]

length-keep-none {ℓ} :
    {A : Type ℓ} (p : A → Bool) (xs : List A) (y : A)
    → any p xs ≡ false
    → length (keep p (xs ++ y ∷ [])) ≤ 1
length-keep-none p [] y h = ground arith
length-keep-none p (x ∷ xs) y h = ground (arith, length-keep-none p xs y)

length-keep-snoc {ℓ} :
    {A : Type ℓ} (p : A → Bool) (xs : List A) (y : A)
    → p y ≡ false
    → length (keep p (xs ++ y ∷ [])) ≡ length (keep p xs)
length-keep-snoc p [] y h = ground arith
length-keep-snoc p (x ∷ xs) y h = ground (arith, length-keep-snoc p xs y h)

queued_of_other :
    (id k : ℕ) (input : CreateRunInput)
    → (input.task_id == k) ≡ false
    → is_active_of k (queued_run id input) ≡ false
unfolding queued_run
queued_of_other id k input h = ground arith

unused_of :
    (db : Db) (input : CreateRunInput)
    → breaks_constraint db input ≡ false
    → any (is_active_of input.task_id) db.runs ≡ false
unused_of db input free = ground arith

create_run-HasSingleRuns :
    (db : Db) (input : CreateRunInput) → HasSingleRuns db → HasSingleRuns (create_run db input).0
unfolding create_run
create_run-HasSingleRuns db input h k = elim (Bool-cases (breaks_constraint db input)) [
  | inl busy ↦ rw (busy) (h k)
  | inr free ↦ rw (free) (elim (Bool-cases (input.task_id == k)) [
    | inl same ↦ length-keep-none (is_active_of k) db.runs (queued_run db.next_run_id input) (
        subst (λ x. any (is_active_of x) db.runs ≡ false) ((nat_eq_iff input.task_id k).0 same)
          (unused_of db input free))
    | inr other ↦ omega (
      arith,
      h k,
      length-keep-snoc {0} (is_active_of k) db.runs (queued_run db.next_run_id input)
          (queued_of_other db.next_run_id k input other),
    )
  ])
]

single_of_runs : (db db' : Db) → db'.runs ≡ db.runs → HasSingleRuns db → HasSingleRuns db'
single_of_runs db db' same h k = rw same (h k)

settle-HasSingleRuns :
    (now : ℕ) (run : RunRow) (r : Db × TransitionResult)
    → HasSingleRuns r.0
    → HasSingleRuns (settle_claim now run r).0
unfolding settle_claim
settle-HasSingleRuns now run (db, Transitions.ok row from) h = h
settle-HasSingleRuns now run (db, Transitions.refused reason) h =
    transition_run-HasSingleRuns db now (rollback_input run) h
settle-HasSingleRuns now run (db, Transitions.invalid) h = h

created-HasSingleRuns :
    (now : ℕ) (input : CreateRunInput) (base_sha : Option String) (r : Db × CreateResult)
    → HasSingleRuns r.0
    → HasSingleRuns (claim_created now input base_sha r).0
unfolding claim_created
created-HasSingleRuns now input base_sha (db, conflict) h = h
created-HasSingleRuns now input base_sha (db, created run) h =
    settle-HasSingleRuns now run (transition_task db now (claim_input input base_sha run)) (
      single_of_runs db (transition_task db now (claim_input input base_sha run)).0
        (runs-transition_task db now (claim_input input base_sha run)).0 h)

-- If no task has more than one active run, a claim, whatever its outcome, leaves it so.
pub claim_task_and_create_run-HasSingleRuns :
    (db : Db) (now : ℕ) (input : CreateRunInput) (base_sha : Option String)
    → HasSingleRuns db
    → HasSingleRuns (claim_task_and_create_run db now input base_sha).0
unfolding claim_task_and_create_run
claim_task_and_create_run-HasSingleRuns db now input base_sha h =
    created-HasSingleRuns now input base_sha (create_run db input)
      (create_run-HasSingleRuns db input h)
