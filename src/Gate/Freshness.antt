-- ===== src/Gate/Freshness.antt =====
-- The freshness of a task's branch (src/gate/freshness.ts). The git runner is a parameter: what it
-- prints for its arguments, or that it fails; `trim` is the text function of the language.
use nightshift0s.Prelude.{
  String, ◌≡◌, ◌≢◌, ◌⊎◌, inl, inr, refl, sym, ◌∙◌, subst, eq_iff, is_some, Option-cases, arith,
  Bool, true, false, Option, none, some, List, [], ◌∷◌, ◌==◌, string_Eq, if◌then◌else◌,
}
use nightshift0s.Prelude.Text.{◌⧺◌}

pub data FreshnessStatus : Type 0 where
  fresh rebase block : FreshnessStatus

pub record FreshnessResult : Type 0 where
  pub status : FreshnessStatus
  pub reason : String
  pub base_sha : String
  pub target_sha : String

-- The runner at one repository directory.
abbrev pub GitRunner : Type 0
GitRunner = List String → Option String

abbrev result : FreshnessStatus → String → String → String → FreshnessResult
result status reason base target = record {
  status = status;
  reason = reason;
  base_sha = base;
  target_sha = target;
}

unfoldable pub check_ancestor :
    GitRunner → (base_sha default_branch target_sha : String) → FreshnessResult
check_ancestor git base branch target =
    elim (git ("merge-base" ∷ "--is-ancestor" ∷ base ∷ branch ∷ [])) [
      | none ↦
          result block ("baseSha is not an ancestor of " ⧺ branch ⧺ "; history may have diverged")
            base target
      | some out ↦
          result rebase ("baseSha is an ancestor of " ⧺ branch ⧺ "; branch needs rebasing") base
            target
    ]

unfoldable pub check_known :
    GitRunner → (base_sha default_branch target_sha : String) → FreshnessResult
unfolding check_ancestor
check_known git base branch target = elim (git ("cat-file" ∷ "-e" ∷ base ∷ [])) [
  | none ↦ result block ("baseSha \"" ⧺ base ⧺ "\" is not a known git object") base target
  | some out ↦
      if base == target
      then result fresh "baseSha equals current defaultBranch HEAD" base target
      else check_ancestor git base branch target
]

unfoldable pub check_branch_freshness :
    (trim : String → String) → GitRunner → (base_sha default_branch : String) → FreshnessResult
unfolding check_known
check_branch_freshness trim git base branch = elim (git ("rev-parse" ∷ branch ∷ [])) [
  | none ↦ result block ("could not resolve " ⧺ branch ⧺ " HEAD") base ""
  | some out ↦ check_known git base branch (trim out)
]

-- What git answers of a base commit that is known in the repository, and of the branch's head.
abbrev pub Known : GitRunner → String → Type 0
Known git base = is_some (git ("cat-file" ∷ "-e" ∷ base ∷ [])) ≡ true

abbrev pub IsAncestor : GitRunner → String → String → Type 0
IsAncestor git base branch =
    is_some (git ("merge-base" ∷ "--is-ancestor" ∷ base ∷ branch ∷ [])) ≡ true

abbrev pub HeadIs : (String → String) → GitRunner → String → String → Type 0
HeadIs trim git branch head =
    (out : String) × (git ("rev-parse" ∷ branch ∷ []) ≡ some out) × (trim out ≡ head)

true-false : true ≡ false → ⊥
true-false e = cc

IsAncestor-status :
    (git : GitRunner) (base branch target : String)
    → (((check_ancestor git base branch target).status ≡ rebase) × IsAncestor git base branch)
      ⊎ (((check_ancestor git base branch target).status ≡ block)
          × (is_some (git ("merge-base" ∷ "--is-ancestor" ∷ base ∷ branch ∷ [])) ≡ false))
unfolding check_ancestor
IsAncestor-status git base branch target =
    elim (Option-cases (git ("merge-base" ∷ "--is-ancestor" ∷ base ∷ branch ∷ []))) [
      | inl fails ↦ inr (rw (fails, check_ancestor) refl, rw fails refl)
      | inr (out, answers) ↦ inl (rw (answers, check_ancestor) refl, rw answers refl)
    ]

abbrev pub Verdict : GitRunner → String → String → String → FreshnessStatus → Type 0
Verdict git base branch head fresh = Known git base × (base ≡ head)
Verdict git base branch head rebase = Known git base × (base ≢ head) × IsAncestor git base branch
Verdict git base branch head block =
    (Known git base → ⊥) ⊎ ((base ≢ head) × (IsAncestor git base branch → ⊥))

Known-case :
    (git : GitRunner) (base branch target : String) (b : Bool)
    → (base == target) ≡ b
    → Known git base
    → Verdict git base branch target
        (if b
          then result fresh "baseSha equals current defaultBranch HEAD" base target
          else check_ancestor git base branch target).status
Known-case git base branch target true e known = (known, (eq_iff base target).0 e)
Known-case git base branch target false e known =
    let away =
      λ (same : base ≡ target). absurd (true-false (sym ((eq_iff base target).1 same) ∙ e)) in
    elim (IsAncestor-status git base branch target) [
      | inl k ↦ subst (Verdict git base branch target) (sym k.0) (known, away, k.1)
      | inr k ↦
          subst (Verdict git base branch target) (sym k.0)
            (inr (away, λ anc. true-false (sym anc ∙ k.1)))
    ]

known-Verdict :
    (git : GitRunner) (base branch target : String)
    → Verdict git base branch target (check_known git base branch target).status
unfolding check_known
known-Verdict git base branch target = elim (Option-cases (git ("cat-file" ∷ "-e" ∷ base ∷ []))) [
  | inl fails ↦ rw (fails, check_known) (inl (λ k. ground (arith, fails)))
  | inr (out, answers) ↦
      rw (answers, check_known)
        (Known-case git base branch target (base == target) refl (rw answers refl))
]

ancestor_target :
    (git : GitRunner) (base branch target : String)
    → (check_ancestor git base branch target).target_sha ≡ target
unfolding check_ancestor
ancestor_target git base branch target =
    elim (Option-cases (git ("merge-base" ∷ "--is-ancestor" ∷ base ∷ branch ∷ []))) [
      | inl fails ↦ rw (fails, check_ancestor) refl
      | inr (out, answers) ↦ rw (answers, check_ancestor) refl
    ]

known_target :
    (git : GitRunner) (base branch target : String)
    → (check_known git base branch target).target_sha ≡ target
unfolding check_known
known_target git base branch target = elim (Option-cases (git ("cat-file" ∷ "-e" ∷ base ∷ []))) [
  | inl fails ↦ rw (fails, check_known) refl
  | inr (out, answers) ↦
      rw (answers, check_known) (ground (arith, ancestor_target git base branch target))
]

-- The verdict against what git answers. With the head of the branch resolved: fresh means that the
-- known base commit is the head, rebase that it is a known proper ancestor, and block that it is
-- unknown or neither; and a branch whose head cannot be resolved blocks.
check_branch_freshness-Verdict :
    (trim : String → String) (git : GitRunner) (base branch : String)
    → let r = check_branch_freshness trim git base branch in
      ((r.status ≡ block) × (git ("rev-parse" ∷ branch ∷ []) ≡ none))
      ⊎ ((head : String) × HeadIs trim git branch head
          × (r.target_sha ≡ head)
          × Verdict git base branch head r.status)
unfolding check_branch_freshness
check_branch_freshness-Verdict trim git base branch =
    elim (Option-cases (git ("rev-parse" ∷ branch ∷ []))) [
      | inl fails ↦ inl (rw (fails, check_branch_freshness) refl, fails)
      | inr (out, answers) ↦ inr (
        trim out,
        (out, answers, refl),
        rw (answers, check_branch_freshness) (known_target git base branch (trim out)),
        rw (answers, check_branch_freshness) (known-Verdict git base branch (trim out)),
      )
    ]
