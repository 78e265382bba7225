-- ===== src/Gate/PrePr.antt =====
-- The gate before a pull request is opened (src/gate/gate.ts). The repository directory is fixed in
-- the git runner; a client that rejects makes the whole call reject, which is `none`.
use nightshift0s.Prelude.{
  is_empty, append-empty, String, ◌≡◌, ◌≢◌, ◌↔◌, refl, sym, ◌∙◌, ap, subst, inl, inr, Bool, true,
  Option, none, some, List, [], ◌∷◌, ◌++◌, map, All, arith, Option-cases,
}
use nightshift0s.Prelude.Text.{◌⧺◌}
use nightshift0s.Gate.Ci.{
  CheckRun, CiGateResult, ci_gate, ci_gate_for_ref, LastIsGreen, ci_gate_iff,
}
use nightshift0s.Gate.Freshness.{
  FreshnessStatus, fresh, rebase, block, FreshnessResult, GitRunner, check_branch_freshness,
}

abbrev pub CiClient : Type 0
CiClient = String → Option (List CheckRun)

pub record PrePrGateInput : Type 0 where
  pub base_sha : String
  pub default_branch : String
  pub head_ref : Option String
  pub required_checks : Option (List String)

pub record PrePrGateResult : Type 0 where
  pub pass : Bool
  pub freshness : FreshnessResult
  pub ci : Option CiGateResult
  pub blocked : List String

-- The checks are asked for only with a client, a ref and at least one required name.
unfoldable pub evaluate_ci :
    Option CiClient → Option String → Option (List String) → Option (Option CiGateResult)
evaluate_ci (some client) (some ref) (some (name ∷ required)) =
    elim (ci_gate_for_ref client ref (name ∷ required)) [
      | none ↦ none
      | some result ↦ some (some result)
    ]
evaluate_ci _ _ _ = some none

abbrev freshness_block : FreshnessStatus → String → List String
freshness_block block reason = ("freshness: " ⧺ reason) ∷ []
freshness_block _ reason = []

abbrev ci_block : Option CiGateResult → List String
ci_block none = []
ci_block (some result) = map (λ name. "ci: " ⧺ name) result.blocking

unfoldable pub gate_report : FreshnessResult → Option CiGateResult → PrePrGateResult
gate_report freshness ci =
    let blocked = freshness_block freshness.status freshness.reason ++ ci_block ci in
    record { pass = is_empty blocked; freshness = freshness; ci = ci; blocked = blocked }

unfoldable pub pre_pr_gate :
    (trim : String → String) → GitRunner → Option CiClient → PrePrGateInput → Option PrePrGateResult
pre_pr_gate trim git ci input =
    let freshness = check_branch_freshness trim git input.base_sha input.default_branch in
    elim (evaluate_ci ci input.head_ref input.required_checks) [
      | none ↦ none
      | some result ↦ some (gate_report freshness result)
    ]

-- The required checks hold, where they are asked for.
abbrev pub ChecksHold : Option CiClient → Option String → Option (List String) → Type 0
ChecksHold (some client) (some ref) (some (name ∷ required)) =
    (checks : List CheckRun) × (client ref ≡ some checks)
    × All (λ n. LastIsGreen n checks) (name ∷ required)
ChecksHold _ _ _ = Unit

map-empty : (f : String → String) (xs : List String) → is_empty (map f xs) ≡ is_empty xs
map-empty f [] = refl
map-empty f (x ∷ xs) = refl

fresh_iff :
    (s : FreshnessStatus) (reason : String)
    → (is_empty (freshness_block s reason) ≡ true) ↔ (s ≢ block)
fresh_iff fresh reason = (λ h e. cc, λ h. refl)
fresh_iff rebase reason = (λ h e. cc, λ h. refl)
fresh_iff block reason = (λ h e. cc, λ h. absurd (h refl))

client_checks :
    (client : CiClient) (ref : String) (required : List String) {r : CiGateResult}
    → ci_gate_for_ref client ref required ≡ some r
    → (checks : List CheckRun) × (client ref ≡ some checks) × (r ≡ ci_gate required checks)
unfolding ci_gate_for_ref
client_checks client ref required h = elim (Option-cases (client ref)) [
  | inl rejects ↦ ground (arith, rejects)
  | inr (checks, answers) ↦ (checks, answers, ground (arith, answers))
]

ci_block-empty :
    (required : List String) (checks : List CheckRun)
    → (is_empty (ci_block (some (ci_gate required checks))) ≡ true)
      ↔ All (λ n. LastIsGreen n checks) required
unfolding ci_gate
ci_block-empty required checks =
    let same = map-empty (λ name. "ci: " ⧺ name) (ci_gate required checks).blocking in
    (
      λ h. (ci_gate_iff required checks).0 (sym same ∙ h),
      λ h. same ∙ (ci_gate_iff required checks).1 h,
    )

some_eq {ℓ} : {A : Type ℓ} {a b : A} → some a ≡ some b → a ≡ b
some_eq h = cc

skipped :
    {r : Option CiGateResult}
    → ◌≡◌ {A = Option (Option CiGateResult)} (some none) (some r)
    → (is_empty (ci_block r) ≡ true) ↔ Unit {0}
skipped h = (λ k. tt, λ k. subst (λ r. is_empty (ci_block r) ≡ true) (some_eq h) refl)

asked :
    (client : CiClient) (ref : String) (required : List String) (o : Option CiGateResult)
    {r : Option CiGateResult}
    → ci_gate_for_ref client ref required ≡ o
    → (elim o as (λ x. Option (Option CiGateResult)) [
      | none ↦ none
      | some result ↦ some (some result)
    ])
      ≡ some r
    → (is_empty (ci_block r) ≡ true) ↔ (
        (checks : List CheckRun) × (client ref ≡ some checks)
        × All (λ n. LastIsGreen n checks) required)
asked client ref required none e h = cc
asked client ref required (some res) {r = r} e h =
    let (checks, answers, is) = client_checks client ref required e in
    let same : r ≡ some (ci_gate required checks) = sym (some_eq h) ∙ ap some is in
    (
      λ k. (
        checks,
        answers,
        (ci_block-empty required checks).0 (subst (λ x. is_empty (ci_block x) ≡ true) same k),
      ),
      λ k.
          subst (λ x. is_empty (ci_block x) ≡ true) (sym same)
            ((ci_block-empty required checks).1 (
              subst (λ cs. All (λ n. LastIsGreen n cs) required) (some_eq (sym k.1 ∙ answers))
                k.2)),
    )

evaluated :
    (ci : Option CiClient) (ref : Option String) (required : Option (List String))
    {r : Option CiGateResult}
    → evaluate_ci ci ref required ≡ some r
    → (is_empty (ci_block r) ≡ true) ↔ ChecksHold ci ref required
unfolding evaluate_ci
evaluated none ref required h = skipped h
evaluated (some client) none required h = skipped h
evaluated (some client) (some ref) none h = skipped h
evaluated (some client) (some ref) (some []) h = skipped h
evaluated (some client) (some ref) (some (name ∷ required)) h =
    asked client ref (name ∷ required) (ci_gate_for_ref client ref (name ∷ required)) refl h

report-pass :
    (freshness : FreshnessResult) (ci : Option CiGateResult)
    → ((gate_report freshness ci).pass ≡ true)
      ↔ ((freshness.status ≢ block) × (is_empty (ci_block ci) ≡ true))
unfolding gate_report
report-pass freshness ci =
    let split = append-empty (freshness_block freshness.status freshness.reason) (ci_block ci) in
    let status = fresh_iff freshness.status freshness.reason in
    (λ h. let k = split.0 h in (status.0 k.0, k.1), λ h. split.1 (status.1 h.0, h.1))

-- Where the call gives a result, it passes exactly when the freshness check does not block and the
-- required checks hold, if a client, a ref and required names were given; a branch that needs a
-- rebase does not block.
pub pre_pr_gate_iff :
    (trim : String → String) (git : GitRunner) (ci : Option CiClient) (input : PrePrGateInput)
    {r : PrePrGateResult}
    → pre_pr_gate trim git ci input ≡ some r
    → (r.pass ≡ true) ↔ (
        ((check_branch_freshness trim git input.base_sha input.default_branch).status ≢ block)
        × ChecksHold ci input.head_ref input.required_checks)
unfolding pre_pr_gate
pre_pr_gate_iff trim git ci input {r = r} h =
    reported (evaluate_ci ci input.head_ref input.required_checks) refl h
  where
    reported :
        (o : Option (Option CiGateResult))
        → evaluate_ci ci input.head_ref input.required_checks ≡ o
        → (elim o as (λ x. Option PrePrGateResult) [
          | none ↦ none
          | some result ↦ some (
              gate_report
                (check_branch_freshness trim git input.base_sha input.default_branch)
                result)
        ])
          ≡ some r
        → (r.pass ≡ true) ↔ (
            ((check_branch_freshness trim git input.base_sha input.default_branch).status ≢ block)
            × ChecksHold ci input.head_ref input.required_checks)
    reported none e k = cc
    reported (some result) e k =
        let freshness = check_branch_freshness trim git input.base_sha input.default_branch in
        let pass = report-pass freshness result in
        let checks = evaluated ci input.head_ref input.required_checks e in
        let same = some_eq k in
        (
          λ p. let x = pass.0 (subst (λ y. y.pass ≡ true) (sym same) p) in (x.0, checks.0 x.1),
          λ p. subst (λ y. y.pass ≡ true) same (pass.1 (p.0, checks.1 p.1)),
        )
