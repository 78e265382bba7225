-- ===== src/Gate/Ci.antt =====
-- The gate on the required checks (src/gate/ci.ts).
use nightshift0s.Prelude.{
  is_empty, String, ◌≡◌, ◌≢◌, eq_iff, eq_self, refl, ◌↔◌, inl, inr, Bool, true, false, Option, none,
  some, List, [], ◌∷◌, ◌++◌, ◌==◌, string_Eq, All, arith, Bool-cases, Option-cases, if◌then◌else◌,
  or_keep,
}
use nightshift0s.Prelude.Text.{◌⧺◌}

pub data CheckStatus : Type 0 where
  success failure pending error neutral skipped : CheckStatus

abbrev status_text : CheckStatus → String
status_text success = "success"
status_text failure = "failure"
status_text pending = "pending"
status_text error = "error"
status_text neutral = "neutral"
status_text skipped = "skipped"

pub record CheckRun : Type 0 where
  pub name : String
  pub status : CheckStatus

pub record CiGateResult : Type 0 where
  pub green : Bool
  pub blocking : List String

abbrev pub is_non_blocking : CheckStatus → Bool
is_non_blocking success = true
is_non_blocking neutral = true
is_non_blocking skipped = true
is_non_blocking _ = false

-- `byName.get(name)`: the map is filled in order, so the last entry of a name counts.
unfoldable pub status_of : List CheckRun → String → Option CheckStatus
status_of [] name = none
status_of (c ∷ checks) name =
    or_keep (status_of checks name) (if c.name == name then some c.status else none)

abbrev pub block_reason : String → Option CheckStatus → List String
block_reason name none = (name ⧺ "(missing)") ∷ []
block_reason name (some status) =
    if is_non_blocking status then [] else (name ⧺ "(" ⧺ status_text status ⧺ ")") ∷ []

abbrev pub blocking_checks : List CheckRun → List String → List String
blocking_checks checks [] = []
blocking_checks checks (name ∷ required) =
    block_reason name (status_of checks name) ++ blocking_checks checks required

unfoldable pub ci_gate : (required_checks : List String) → List CheckRun → CiGateResult
ci_gate required checks =
    let blocking = blocking_checks checks required in
    record { green = is_empty blocking; blocking = blocking }

-- The client answers with the runs, or its rejected promise passes through.
unfoldable pub ci_gate_for_ref :
    (fetch_checks : String → Option (List CheckRun)) → String → List String → Option CiGateResult
ci_gate_for_ref fetch_checks ref required = elim (fetch_checks ref) [
  | none ↦ none
  | some checks ↦ some (ci_gate required checks)
]

-- The last run of this name is one that does not block.
pub data LastIsGreen (name : String) : List CheckRun → Type 0 where
  last :
      {c : CheckRun} {later : List CheckRun}
      → c.name ≡ name
      → is_non_blocking c.status ≡ true
      → All (λ d. d.name ≢ name) later
      → LastIsGreen name (c ∷ later)
  earlier :
      {c : CheckRun} {later : List CheckRun} → LastIsGreen name later → LastIsGreen name (c ∷ later)

absent-none :
    (checks : List CheckRun) (name : String)
    → All (λ d. d.name ≢ name) checks
    → status_of checks name ≡ none
unfolding status_of
absent-none [] name h = refl
absent-none (c ∷ checks) name h =
    ground (arith, absent-none checks name h.1, h.0, eq_iff c.name name)

none-absent :
    (checks : List CheckRun) (name : String)
    → status_of checks name ≡ none
    → All (λ d. d.name ≢ name) checks
unfolding status_of
none-absent [] name h = tt
none-absent (c ∷ checks) name h = (
  λ e. ground (arith, e, eq_self name, eq_iff c.name name),
  none-absent checks name (ground arith),
)

abbrev IsGreen : List CheckRun → String → Type 0
IsGreen checks name =
    (s : CheckStatus) × (status_of checks name ≡ some s) × (is_non_blocking s ≡ true)

green-last :
    (checks : List CheckRun) (name : String) {s : CheckStatus}
    → status_of checks name ≡ some s
    → is_non_blocking s ≡ true
    → LastIsGreen name checks
unfolding status_of
green-last [] name h k = cc
green-last (c ∷ checks) name {s = s} h k = elim (Option-cases (status_of checks name)) [
  | inl absent ↦ elim (Bool-cases (c.name == name)) [
    | inl here ↦
        last ((eq_iff c.name name).0 here) (ground (arith, absent, here))
          (none-absent checks name absent)
    | inr away ↦ ground (arith, absent, away)
  ]
  | inr (s', found) ↦ earlier (green-last checks name {s = s} (ground (arith, found)) k)
]

last-IsGreen :
    {name : String} {checks : List CheckRun} → LastIsGreen name checks → IsGreen checks name
unfolding status_of
last-IsGreen {name = name} (last {c = c} {later = later} e k absent) =
    (c.status, ground (arith, absent-none later name absent, eq_iff c.name name), k)
last-IsGreen {name = name} (earlier {c = c} {later = later} h) =
    let (s, found, k) = last-IsGreen h in (s, ground (arith, found), k)

reason-none :
    (checks : List CheckRun) (name : String) (rest : List String)
    → is_empty (block_reason name (status_of checks name) ++ rest) ≡ true
    → IsGreen checks name × (is_empty rest ≡ true)
reason-none checks name rest h = elim (Option-cases (status_of checks name)) [
  | inl absent ↦ ground (arith, absent)
  | inr (s, found) ↦ elim (Bool-cases (is_non_blocking s)) [
    | inl k ↦ ((s, found, k), ground (arith, found, k))
    | inr bad ↦ ground (arith, found, bad)
  ]
]

none-reason :
    (checks : List CheckRun) (name : String) (rest : List String)
    → IsGreen checks name
    → is_empty rest ≡ true
    → is_empty (block_reason name (status_of checks name) ++ rest) ≡ true
none-reason checks name rest (s, found, k) h = ground (arith, found, k)

green_only :
    (checks : List CheckRun) (required : List String)
    → is_empty (blocking_checks checks required) ≡ true
    → All (λ name. LastIsGreen name checks) required
green_only checks [] h = tt
green_only checks (name ∷ required) h =
    let (green, rest) = reason-none checks name (blocking_checks checks required) h in
    (green-last checks name green.1 green.2, green_only checks required rest)

green_if :
    (checks : List CheckRun) (required : List String)
    → All (λ name. LastIsGreen name checks) required
    → is_empty (blocking_checks checks required) ≡ true
green_if checks [] h = refl
green_if checks (name ∷ required) h =
    none-reason checks name (blocking_checks checks required) (last-IsGreen h.0)
      (green_if checks required h.1)

-- The gate is green exactly when the last run under each required name succeeded, was neutral or was
-- skipped; a required name without a run blocks.
pub ci_gate_iff :
    (required : List String) (checks : List CheckRun)
    → ((ci_gate required checks).green ≡ true) ↔ All (λ name. LastIsGreen name checks) required
unfolding ci_gate
ci_gate_iff required checks = (green_only checks required, green_if checks required)
