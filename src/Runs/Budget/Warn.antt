-- ===== src/Runs/Budget/Warn.antt =====
-- The decisions and the advisories of the budget (src/runs/budget.ts).
use nightshift0s.Prelude.{
  ℕ, ◌+◌, ◌≤◌, ◌<◌, ◌≡◌, ◌≢◌, refl, inl, inr, Bool, true, false, not, ◌&&◌, ◌||◌, Option, none,
  some, List, [], ◌∷◌, ◌++◌, ◌==◌, nat_Eq, eq_self, contains, All, All-append, arith, Bool-cases,
}
use nightshift0s.Prelude.Int.{◌-ℤ◌}
use nightshift0s.Db.Schema.{RunRow}
use nightshift0s.Db.State.{Db}
use nightshift0s.Db.Rows.{All-map}
use nightshift0s.Runs.Budget.{
  BudgetDeps, BudgetAction, within, kill_wall_clock, kill_cost, warn_advisory, BudgetCheck,
  limit_ms, evaluate_run_budget, over_wall_clock, at_least, over_cost, tokens, over_tokens,
  active_started_runs, SweepState, apply_check, sweep_runs, sweep,
}

-- The budget that an action says is exceeded.
abbrev pub Exceeded : BudgetDeps → ℕ → RunRow → Bool → BudgetAction → Type 0
Exceeded deps now run already within = Unit
Exceeded deps now run already kill_wall_clock =
    (started : ℕ) × (run.started_at ≡ some started) × (started + limit_ms deps < now)
Exceeded deps now run already kill_cost =
    (cost : ℕ) × (run.cost_usd ≡ some cost)
    × (run.priced ≡ true)
    × (0 < deps.hard_cost_usd_per_run)
    × (deps.hard_cost_usd_per_run ≤ cost)
Exceeded deps now run already warn_advisory =
    (a : ℕ) × (b : ℕ) × (run.tokens_in ≡ some a)
    × (run.tokens_out ≡ some b)
    × (deps.advisory_tokens_per_run ≤ a + b)
    × (already ≡ false)

over-late :
    (deps : BudgetDeps) (now : ℕ) (o : Option ℕ)
    → over_wall_clock deps now o ≡ true
    → (started : ℕ) × (o ≡ some started) × (started + limit_ms deps < now)
unfolding ◌-ℤ◌
over-late deps now none h = cc
over-late deps now (some started) h = (started, refl, ground arith)

at_least-some :
    (limit : ℕ) (o : Option ℕ) → at_least limit o ≡ true → (n : ℕ) × (o ≡ some n) × (limit ≤ n)
at_least-some limit none h = cc
at_least-some limit (some n) h = (n, refl, ground arith)

tokens-some :
    (limit : ℕ) (x y : Option ℕ)
    → at_least limit (tokens x y) ≡ true
    → (a : ℕ) × (b : ℕ) × (x ≡ some a) × (y ≡ some b) × (limit ≤ a + b)
tokens-some limit none y h = cc
tokens-some limit (some a) none h = cc
tokens-some limit (some a) (some b) h = (a, b, refl, refl, ground arith)

cost-Exceeded :
    (deps : BudgetDeps) (now : ℕ) (run : RunRow) (already : Bool)
    → over_cost deps run ≡ true
    → Exceeded deps now run already kill_cost
cost-Exceeded deps now run already h =
    let (cost, is, reached) =
      at_least-some deps.hard_cost_usd_per_run run.cost_usd (ground arith) in
    (cost, is, ground arith, ground arith, reached)

advisory-Exceeded :
    (deps : BudgetDeps) (now : ℕ) (run : RunRow) (already : Bool)
    → (over_tokens deps run && not already) ≡ true
    → Exceeded deps now run already warn_advisory
advisory-Exceeded deps now run already h =
    let (a, b, is_in, is_out, reached) =
      tokens-some deps.advisory_tokens_per_run run.tokens_in run.tokens_out (ground arith) in
    (a, b, is_in, is_out, reached, ground arith)

-- A decision names a budget that the run exceeds: a kill for the time needs a start that lies further
-- back than the limit, a kill for the cost needs proven telemetry and an enabled limit, and an
-- advisory needs both token counts and a run that was not warned before.
evaluate_run_budget-Exceeded :
    (deps : BudgetDeps) (now : ℕ) (run : RunRow) (already : Bool)
    → Exceeded deps now run already (evaluate_run_budget deps now run already).action
unfolding evaluate_run_budget
evaluate_run_budget-Exceeded deps now run already =
    elim (Bool-cases (over_wall_clock deps now run.started_at)) [
      | inl over ↦ rw over (over-late deps now run.started_at over)
      | inr in_time ↦ elim (Bool-cases (over_cost deps run)) [
        | inl dear ↦ rw (in_time, dear) (cost-Exceeded deps now run already dear)
        | inr cheap ↦ elim (Bool-cases (over_tokens deps run && not already)) [
          | inl many ↦ rw (in_time, cheap, many) (advisory-Exceeded deps now run already many)
          | inr few ↦ rw (in_time, cheap, few) tt
        ]
      ]
    ]

contains-snoc : (xs : List ℕ) (x y : ℕ) → contains (xs ++ x ∷ []) y ≡ (contains xs y || x == y)
contains-snoc [] x y = ground arith
contains-snoc (z ∷ xs) x y = ground (arith, contains-snoc xs x y)

-- An advisory of a sweep is about a run that was not warned when the sweep began, and is now.
abbrev pub IsNewWarning : List ℕ → List ℕ → BudgetCheck → Type 0
IsNewWarning before after c =
    c.action ≡ warn_advisory → (contains before c.run_id ≡ false) × (contains after c.run_id ≡ true)

abbrev pub Grows : List ℕ → List ℕ → Type 0
Grows before after = (id : ℕ) → contains before id ≡ true → contains after id ≡ true

Sweeps : List ℕ → SweepState → Type 0
Sweeps before s = Grows before s.warned × All (IsNewWarning before s.warned) s.results

grown_before :
    (before after : List ℕ) (id : ℕ)
    → Grows before after
    → contains after id ≡ false
    → contains before id ≡ false
grown_before before after id grows h = elim (Bool-cases (contains before id)) [
  | inl known ↦ cc (h, grows id known)
  | inr new ↦ new
]

warn-Sweeps :
    (deps : BudgetDeps) (now : ℕ) (run : RunRow) (before : List ℕ) (s : SweepState)
    → contains s.warned run.id ≡ false
    → Sweeps before s
    → Sweeps before (apply_check deps now run s warn_advisory)
unfolding apply_check Sweeps
warn-Sweeps deps now run before s new (grows, fine) =
    let after = s.warned ++ run.id ∷ [] in
    let more : Grows s.warned after = λ id h. ground (arith, contains-snoc s.warned run.id id, h) in
    (
      λ id h. more id (grows id h),
      All-append (IsNewWarning before after) s.results _
          (All-map s.results (λ c h w. ((h w).0, more c.run_id (h w).1)) fine)
          (
            λ w. (
              grown_before before s.warned run.id grows new,
              ground (arith, contains-snoc s.warned run.id run.id, eq_self run.id),
            ),
            tt,
          ),
    )

kill-Sweeps :
    (before warned : List ℕ) (results : List BudgetCheck) (c : BudgetCheck)
    → c.action ≢ warn_advisory
    → All (IsNewWarning before warned) results
    → All (IsNewWarning before warned) (results ++ c ∷ [])
kill-Sweeps before warned results c other h =
    All-append (IsNewWarning before warned) results (c ∷ []) h (λ w. absurd (other w), tt)

check-Sweeps :
    (deps : BudgetDeps) (now : ℕ) (run : RunRow) (before : List ℕ) (s : SweepState)
    (action : BudgetAction)
    → (action ≡ warn_advisory → contains s.warned run.id ≡ false)
    → Sweeps before s
    → Sweeps before (apply_check deps now run s action)
unfolding apply_check Sweeps
check-Sweeps deps now run before s within new h = h
check-Sweeps deps now run before s warn_advisory new h =
    warn-Sweeps deps now run before s (new refl) h
check-Sweeps deps now run before s kill_wall_clock new h =
    (h.0, kill-Sweeps before s.warned s.results _ (λ w. cc) h.1)
check-Sweeps deps now run before s kill_cost new h =
    (h.0, kill-Sweeps before s.warned s.results _ (λ w. cc) h.1)

not_warned :
    (deps : BudgetDeps) (now : ℕ) (run : RunRow) (already : Bool) (action : BudgetAction)
    → Exceeded deps now run already action
    → action ≡ warn_advisory
    → already ≡ false
not_warned deps now run already within h e = cc
not_warned deps now run already kill_wall_clock h e = cc
not_warned deps now run already kill_cost h e = cc
not_warned deps now run already warn_advisory (a, b, x, y, reached, fresh) e = fresh

runs-Sweeps :
    (deps : BudgetDeps) (now : ℕ) (before : List ℕ) (runs : List RunRow) (s : SweepState)
    → Sweeps before s
    → Sweeps before (sweep_runs deps now s runs)
unfolding sweep_runs
runs-Sweeps deps now before [] s h = h
runs-Sweeps deps now before (run ∷ runs) s h =
    let already = contains s.warned run.id in
    let action = (evaluate_run_budget deps now run already).action in
    runs-Sweeps deps now before runs (apply_check deps now run s action) (
      check-Sweeps deps now run before s action
        (not_warned deps now run already action (evaluate_run_budget-Exceeded deps now run already))
        h)

-- A sweep forgets no warning, and each advisory that it reports is about a run that was not warned
-- before the sweep and is recorded as warned after it.
sweep-IsNewWarning :
    (deps : BudgetDeps) (now : ℕ) (db : Db) (warned : List ℕ)
    → let s = sweep deps now db warned in
      Grows warned s.warned × All (IsNewWarning warned s.warned) s.results
unfolding sweep Sweeps
sweep-IsNewWarning deps now db warned =
    runs-Sweeps deps now warned (active_started_runs db) _ (λ id h. h, tt)
