-- ===== src/Orchestrator/AutoMerge/Gate.antt =====
-- When the merge endpoint is called (src/orchestrator/autoMerge.ts).
use nightshift0s.Prelude.{
  ℕ, String, ◌≡◌, refl, sym, ◌∙◌, ap, subst, ◌⊎◌, inl, inr, Bool, true, false, some, List, [], ◌∷◌,
  ◌==◌, nat_Eq, string_Eq, if◌then◌else◌, Bool-cases, Option-cases,
}
use nightshift0s.Db.Columns.Tasks.{approved, merging, needs_human, task_state_Eq, task_state_eq_iff}
use nightshift0s.Db.Schema.{TaskRow}
use nightshift0s.Db.State.{Db}
use nightshift0s.Tasks.Transitions
use nightshift0s.Tasks.Transitions.{
  TransitionInput, TransitionResult, transition_task, transition_patch, lacks_merge_sha,
}
use nightshift0s.Tasks.Transitions.Outcome.{IsOk}
use nightshift0s.Orchestrator.AutoMerge
use nightshift0s.Orchestrator.AutoMerge.{
  PreflightResult, PreflightCall, answers, rejects, after_preflight, MergeCall, merge_sha, throws,
  Forge, ConfirmResult, confirmed, unconfirmed, confirm_throws, AutoMergeOutcome, MergeReport,
  get_task, confirm_input, after_confirm, confirm_merge_and_unblock, step_input, park_blocked,
  block_merge, confirm_report, after_merge, start_merge, merge_approved, try_auto_merge,
}

park-calls :
    (now id : ℕ) (blocked : List String) (r : Db × TransitionResult)
    → (park_blocked now id blocked r).merge_calls ≡ []
unfolding park_blocked
park-calls now id blocked (db, Transitions.ok row from) = refl
park-calls now id blocked (db, Transitions.refused reason) = refl
park-calls now id blocked (db, Transitions.invalid) = refl

block-calls :
    (now id : ℕ) (blocked : List String) (r : Db × TransitionResult)
    → (block_merge now id blocked r).merge_calls ≡ []
unfolding block_merge
block-calls now id blocked (db, Transitions.ok row from) =
    park-calls now id blocked (transition_task db now (step_input id merging needs_human))
block-calls now id blocked (db, Transitions.refused reason) = refl
block-calls now id blocked (db, Transitions.invalid) = refl

confirm-calls :
    (id : ℕ) (sha : String) (r : Db × ConfirmResult)
    → (confirm_report id sha r).merge_calls ≡ id ∷ []
unfolding confirm_report
confirm-calls id sha (db, confirmed unblocked) = refl
confirm-calls id sha (db, unconfirmed reason) = refl
confirm-calls id sha (db, confirm_throws) = refl

after-calls :
    (now id : ℕ) (db : Db) (call : MergeCall) → (after_merge now id db call).merge_calls ≡ id ∷ []
unfolding after_merge
after-calls now id db (merge_sha sha) =
    confirm-calls id sha (confirm_merge_and_unblock db now id sha)
after-calls now id db (throws message) = refl

start-calls :
    (forge : Forge) (now id : ℕ) (r : Db × TransitionResult)
    → ((start_merge forge now id r).merge_calls ≡ [])
      ⊎ (((start_merge forge now id r).merge_calls ≡ id ∷ []) × IsOk r.1)
unfolding start_merge
start-calls forge now id (db, Transitions.ok row from) =
    inr (after-calls now id (forge.during_merge db) (forge.merge id), tt)
start-calls forge now id (db, Transitions.refused reason) = inl refl
start-calls forge now id (db, Transitions.invalid) = inl refl

-- The step that must have succeeded before the call.
abbrev pub Entered : Forge → Db → ℕ → ℕ → Type 0
Entered forge db now id =
    IsOk (transition_task (forge.during_preflight db) now (step_input id approved merging)).1

approved-calls :
    (forge : Forge) (db : Db) (now id : ℕ) (pre : PreflightResult)
    → let calls = (merge_approved forge (forge.during_preflight db) now id pre).merge_calls in
      (calls ≡ []) ⊎ ((calls ≡ id ∷ []) × (pre.pass ≡ true) × Entered forge db now id)
unfolding merge_approved
approved-calls forge db now id pre =
    let moved = transition_task (forge.during_preflight db) now (step_input id approved merging) in
    elim (Bool-cases pre.pass) [
      | inl passed ↦
          subst
            (λ b.
              let calls =
                (if b
                  then start_merge forge now id moved
                  else block_merge now id pre.blocked moved).merge_calls in
              (calls ≡ []) ⊎ ((calls ≡ id ∷ []) × (pre.pass ≡ true) × Entered forge db now id))
            (sym passed)
            (elim (start-calls forge now id moved) [
              | inl quiet ↦ inl quiet
              | inr k ↦ inr (k.0, passed, k.1)
            ])
      | inr failed ↦ inl (
          ap
            (λ b.
              (if b
                then start_merge forge now id moved
                else block_merge now id pre.blocked moved).merge_calls)
            failed
          ∙ block-calls now id pre.blocked moved)
    ]

-- A preflight that has answered, and passed.
abbrev pub Passed : PreflightCall → Type 0
Passed call = (pre : PreflightResult) × (call ≡ answers pre) × (pre.pass ≡ true)

preflight-calls :
    (forge : Forge) (db : Db) (now id : ℕ) (call : PreflightCall)
    → let calls = (after_preflight forge (forge.during_preflight db) now id call).merge_calls in
      (calls ≡ []) ⊎ ((calls ≡ id ∷ []) × Passed call × Entered forge db now id)
unfolding after_preflight
preflight-calls forge db now id rejects = inl refl
preflight-calls forge db now id (answers pre) = elim (approved-calls forge db now id pre) [
  | inl quiet ↦ inl quiet
  | inr k ↦ inr (k.0, (pre, refl, k.1), k.2)
]

-- An approved task goes on to its preflight.
pub try-approved :
    (forge : Forge) (db : Db) (now id : ℕ) {t : TaskRow}
    → get_task db id ≡ some t
    → t.state ≡ approved
    → try_auto_merge true forge db now id
      ≡ after_preflight forge (forge.during_preflight db) now id (forge.preflight id)
unfolding try_auto_merge
try-approved forge db now id {t = t} found at =
    rw (found, try_auto_merge)
      (ap
        (λ s.
          if s == approved
          then after_preflight forge (forge.during_preflight db) now id (forge.preflight id)
          else record { db = db; outcome = AutoMerge.skipped s; merge_calls = [] })
        at)

-- The endpoint is called once, or not at all; and it is called only if the operator has opted in, the
-- task stood in `approved`, its preflight answered that it passes, and the step to `merging` succeeded.
pub try_auto_merge-gated :
    (enabled : Bool) (forge : Forge) (db : Db) (now id : ℕ)
    → let calls = (try_auto_merge enabled forge db now id).merge_calls in
      (calls ≡ [])
      ⊎ ((calls ≡ id ∷ [])
          × (enabled ≡ true)
          × ((t : TaskRow) × (get_task db id ≡ some t) × (t.state ≡ approved))
          × Passed (forge.preflight id)
          × Entered forge db now id)
unfolding try_auto_merge
try_auto_merge-gated false forge db now id = inl refl
try_auto_merge-gated true forge db now id = elim (Option-cases (get_task db id)) [
  | inl missing ↦ inl (rw (missing, try_auto_merge) refl)
  | inr (t, found) ↦ elim (Bool-cases (t.state == approved)) [
    | inl at ↦
        let is_at = (task_state_eq_iff t.state approved).0 at in
        subst
          (λ (r : MergeReport).
            (r.merge_calls ≡ [])
            ⊎ ((r.merge_calls ≡ id ∷ [])
                × (true ≡ true)
                × ((t : TaskRow) × (get_task db id ≡ some t) × (t.state ≡ approved))
                × Passed (forge.preflight id)
                × Entered forge db now id))
          (sym (try-approved forge db now id found is_at))
          (elim (preflight-calls forge db now id (forge.preflight id)) [
            | inl quiet ↦ inl quiet
            | inr k ↦ inr (k.0, refl, (t, found, is_at), k.1, k.2)
          ])
    | inr away ↦ inl (
        rw (found, try_auto_merge)
          (ap
            (λ b.
              (if b
                then after_preflight forge (forge.during_preflight db) now id (forge.preflight id)
                else record {
                  db = db;
                  outcome = AutoMerge.skipped t.state;
                  merge_calls = [];
                }).merge_calls)
            away))
  ]
]
