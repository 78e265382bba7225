-- ===== src/Runs/Claim/Rollback.antt =====
-- The run of a claim that fails (src/runs/runs.ts).
use nightshift0s.Prelude.{
  ℕ, suc, ◌<◌, String, ◌≡◌, refl, sym, ◌∙◌, ◌⊎◌, inl, inr, Bool, true, false, Option, some, List,
  [], ◌∷◌, ◌++◌, All, find, arith, Bool-cases, nat_Eq, eq_self, ap, ◌==◌, subst,
}
use nightshift0s.Db.Columns.Runs.{queued, killed, run_state_Eq}
use nightshift0s.Db.Schema.{RunRow}
use nightshift0s.Db.State.{Db, update_rows}
use nightshift0s.Db.Rows.{All-map}
use nightshift0s.Tasks.Transitions
use nightshift0s.Tasks.Transitions.{transition_task, TransitionInput, TransitionResult}
use nightshift0s.Runs.Machine.{find_run_transition, is_legal_run_transition}
use nightshift0s.Runs.Transitions.{run_guard, run_patch, transition_run, run_link, run_update}
use nightshift0s.Runs.Claim.{
  CreateRunInput, breaks_constraint, queued_run, create_run, settle_claim, claim_created,
  claim_task_and_create_run, rollback_input, claim_input, created, conflict, claimed, failed_claim,
}
use nightshift0s.Runs.Claim.Single.{runs-transition_task}

-- Run ids are given out in order.
abbrev pub HasFreshRunIds : Db → Type 0
HasFreshRunIds db = All (λ r. r.id < db.next_run_id) db.runs

find-snoc {ℓ} :
    {A : Type ℓ} (p : A → Bool) (xs : List A) (y : A)
    → All (λ x. p x ≡ false) xs
    → p y ≡ true
    → find p (xs ++ y ∷ []) ≡ some y
find-snoc p [] y h k = ground arith
find-snoc p (x ∷ xs) y h k = ground (arith, h.0, find-snoc p xs y h.1 k)

update_rows-snoc {ℓ} :
    {A : Type ℓ} (p : A → Bool) (f : A → A) (xs : List A) (y : A)
    → All (λ x. p x ≡ false) xs
    → p y ≡ true
    → update_rows p f (xs ++ y ∷ []) ≡ xs ++ f y ∷ []
update_rows-snoc p f [] y h k = ground arith
update_rows-snoc p f (x ∷ xs) y h k = ground (arith, h.0, update_rows-snoc p f xs y h.1 k)

abbrev pub killed_run : ℕ → RunRow → RunRow
killed_run now run = record run { state = killed; ended_at = some now }

rollback_patch :
    (now : ℕ) (run : RunRow) → run_patch queued now (rollback_input run) run ≡ killed_run now run
unfolding run_patch rollback_input
rollback_patch now run = refl

id_away : (a b : ℕ) → a < b → (a == b) ≡ false
id_away a b h = ground arith

guard_away : (id : ℕ) (r : RunRow) → (r.id == id) ≡ false → run_guard id queued r ≡ false
guard_away id r h = ground arith

guard_self : (r : RunRow) → r.state ≡ queued → run_guard r.id queued r ≡ true
guard_self r h = ground (arith, eq_self r.id)

-- The rollback finds the run that was inserted last, and kills it alone.
rollback_kills :
    (db : Db) (now : ℕ) (run : RunRow) (others : List RunRow)
    → db.runs ≡ others ++ run ∷ []
    → run.state ≡ queued
    → All (λ r. r.id < run.id) others
    → (transition_run db now (rollback_input run)).0.runs ≡ others ++ killed_run now run ∷ []
unfolding transition_run run_link run_update is_legal_run_transition find_run_transition
    rollback_input
rollback_kills db now run others is_last waiting fresh =
    let ids = All-map others (λ r lt. id_away r.id run.id lt) fresh in
    let guards = All-map others (λ r lt. guard_away run.id r (id_away r.id run.id lt)) fresh in
    let found =
      subst (λ rs. find (λ r. r.id == run.id) rs ≡ some run) (sym is_last)
        (find-snoc (λ r. r.id == run.id) others run ids (eq_self run.id)) in
    let hit =
      subst (λ rs. find (run_guard run.id queued) rs ≡ some run) (sym is_last)
        (find-snoc (run_guard run.id queued) others run guards (guard_self run waiting)) in
    rw (found, run_link)
      (rw (hit, run_update)
        (rw is_last (
          update_rows-snoc (run_guard run.id queued) (run_patch queued now (rollback_input run))
            others run guards (guard_self run waiting)
          ∙ ap (λ r. others ++ r ∷ []) (rollback_patch now run))))

created-rollback :
    (now : ℕ) (input : CreateRunInput) (base_sha : Option String) (db : Db) (run : RunRow)
    (others : List RunRow) {reason : Transitions.Reason}
    → db.runs ≡ others ++ run ∷ []
    → run.state ≡ queued
    → All (λ r. r.id < run.id) others
    → (r : Db × TransitionResult) → r.0.runs ≡ db.runs
    → (settle_claim now run r).1 ≡ failed_claim reason
    → (settle_claim now run r).0.runs ≡ others ++ killed_run now run ∷ []
unfolding settle_claim
created-rollback now input base_sha db run others is_last waiting fresh
      (db', Transitions.ok row from) same h =
    cc
created-rollback now input base_sha db run others is_last waiting fresh
      (db', Transitions.refused reason) same h =
    rollback_kills db' now run others (same ∙ is_last) waiting fresh
created-rollback now input base_sha db run others is_last waiting fresh (db', Transitions.invalid)
      same h =
    cc

created-queued :
    (now : ℕ) (run : RunRow) {made : RunRow}
    → (r : Db × TransitionResult) → (settle_claim now run r).1 ≡ claimed made
    → (made ≡ run) × ((settle_claim now run r).0.runs ≡ r.0.runs)
unfolding settle_claim
created-queued now run (db', Transitions.ok row from) h = (ground (arith, h), refl)
created-queued now run (db', Transitions.refused reason) h = cc
created-queued now run (db', Transitions.invalid) h = cc

create_run-Outcome :
    (db : Db) (input : CreateRunInput)
    → (create_run db input ≡ (db, conflict))
      ⊎ (create_run db input ≡ (
        record db {
          runs = db.runs ++ queued_run db.next_run_id input ∷ [];
          next_run_id = suc db.next_run_id;
        },
        created (queued_run db.next_run_id input),
      ))
unfolding create_run
create_run-Outcome db input = elim (Bool-cases (breaks_constraint db input)) [
  | inl busy ↦ rw busy (inl refl)
  | inr free ↦ rw free (inr refl)
]

conflict_is_thrown :
    (db : Db) (now : ℕ) (input : CreateRunInput) (base_sha : Option String)
    {reason : Transitions.Reason}
    → (claim_created now input base_sha (db, conflict)).1 ≡ failed_claim reason
    → ⊥
unfolding claim_created
conflict_is_thrown db now input base_sha h = cc

queued_run-is_queued :
    (id : ℕ) (input : CreateRunInput)
    → ((queued_run id input).state ≡ queued) × ((queued_run id input).id ≡ id)
unfolding queued_run
queued_run-is_queued id input = (refl, refl)

made-rollback :
    (db : Db) (now : ℕ) (input : CreateRunInput) (base_sha : Option String)
    {reason : Transitions.Reason} (run : RunRow) (others : List RunRow)
    → db.runs ≡ others ++ run ∷ []
    → run.state ≡ queued
    → All (λ r. r.id < run.id) others
    → (claim_created now input base_sha (db, created run)).1 ≡ failed_claim reason
    → (claim_created now input base_sha (db, created run)).0.runs
      ≡ others ++ killed_run now run ∷ []
unfolding claim_created
made-rollback db now input base_sha run others is_last waiting fresh h =
    created-rollback now input base_sha db run others is_last waiting fresh
      (transition_task db now (claim_input input base_sha run))
      (runs-transition_task db now (claim_input input base_sha run)).0 h

-- Where run ids are given out in order, a claim that fails after its run was inserted adds that run
-- in state `killed`, and changes no other run.
pub claim_task_and_create_run-rollback :
    (db : Db) (now : ℕ) (input : CreateRunInput) (base_sha : Option String)
    {reason : Transitions.Reason}
    → HasFreshRunIds db
    → (claim_task_and_create_run db now input base_sha).1 ≡ failed_claim reason
    → (claim_task_and_create_run db now input base_sha).0.runs
      ≡ db.runs ++ killed_run now (queued_run db.next_run_id input) ∷ []
unfolding claim_task_and_create_run
claim_task_and_create_run-rollback db now input base_sha {reason = reason} fresh h =
    elim (create_run-Outcome db input) [
      | inl busy ↦ absurd (
          conflict_is_thrown db now input base_sha
            (subst (λ r. (claim_created now input base_sha r).1 ≡ failed_claim reason) busy h))
      | inr free ↦
          let run = queued_run db.next_run_id input in
          let made = record db { runs = db.runs ++ run ∷ []; next_run_id = suc db.next_run_id } in
          let facts = queued_run-is_queued db.next_run_id input in
          subst
            (λ r. (claim_created now input base_sha r).0.runs ≡ db.runs ++ killed_run now run ∷ [])
            (sym free)
            (made-rollback made now input base_sha run db.runs refl facts.0
              (subst (λ i. All (λ r. r.id < i) db.runs) (sym facts.1) fresh)
              (subst (λ r. (claim_created now input base_sha r).1 ≡ failed_claim reason) free h))
    ]
