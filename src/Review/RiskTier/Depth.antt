-- ===== src/Review/RiskTier/Depth.antt =====
-- The depth of a review (src/review/riskTier.ts).
use nightshift0s.Prelude.{
  ℕ, ◌≤◌, ◌<◌, Bool, true, false, not, Option, none, some, List, [], ◌∷◌, ◌≡◌, ◌⊎◌, ap, arith, inl,
  inr, All, length, keep, Bool-cases,
}
use nightshift0s.Db.Rows.{All-map}
use nightshift0s.Db.Columns.Tasks.{RiskTier, trivial, full}
use nightshift0s.Review.RiskTier.{
  is_noise, changed_file_paths, noise_filter, security_touched, changed_line_count, tier_rank,
  sized_tier, with_floor, classify_risk_tier, TierReason,
}

-- What a tier is chosen from: the security of the paths, the changed lines, the kept files, and the floor.
pub record Chosen (security : Bool) (lines files : ℕ) (declared : Option RiskTier) (tier : RiskTier)
    : Type 0 where
  pub full_if_security : security ≡ true → tier ≡ full
  pub full_if_large : 200 < lines → tier ≡ full
  pub floor : (d : RiskTier) → declared ≡ some d → tier_rank d ≤ tier_rank tier
  pub small_if_trivial : tier ≡ trivial → (security ≡ false) × (lines ≤ 10) × (files ≤ 2)
  pub full_only : tier ≡ full → (security ≡ true) ⊎ ((200 < lines) ⊎ (declared ≡ some full))

sized-Chosen :
    (security : Bool) (lines files : ℕ)
    → Chosen security lines files none (sized_tier security lines files).0
sized-Chosen security lines files = record {
  full_if_security = λ h. ground arith;
  full_if_large = λ h. ground arith;
  floor = λ d h. cc;
  small_if_trivial = λ h. (ground arith, ground arith, ground arith);
  full_only = λ h. ground arith;
}

full_from :
    (tier d : RiskTier) (reason : TierReason)
    → (with_floor (tier, reason) (some d)).0 ≡ full
    → (tier ≡ full) ⊎ (d ≡ full)
full_from tier d reason h = ground arith

with_floor-Chosen :
    (security : Bool) (lines files : ℕ) (tier : RiskTier) (reason : TierReason)
    (declared : Option RiskTier)
    → Chosen security lines files none tier
    → Chosen security lines files declared (with_floor (tier, reason) declared).0
with_floor-Chosen security lines files tier reason none h = h
with_floor-Chosen security lines files tier reason (some d) h = record {
  full_if_security = λ k. ground (arith, h.full_if_security k);
  full_if_large = λ k. ground (arith, h.full_if_large k);
  floor = λ e k. ground arith;
  small_if_trivial = λ k. h.small_if_trivial (ground arith);
  full_only = λ k. elim (full_from tier d reason k) [
    | inl sized ↦ elim (h.full_only sized) [
      | inl security ↦ inl security
      | inr rest ↦ elim rest [ inl large ↦ inr (inl large) | inr e ↦ cc ]
    ]
    | inr declared ↦ inr (inr (ap some declared))
  ];
}

keep-passes : (p : List ℕ → Bool) (xs : List (List ℕ)) → All (λ x. p x ≡ true) (keep p xs)
keep-passes p [] = tt
keep-passes p (x ∷ xs) = elim (Bool-cases (p x)) [
  | inl kept ↦ rw kept (kept, keep-passes p xs)
  | inr dropped ↦ rw dropped (keep-passes p xs)
]

not-true : (b : Bool) → not b ≡ true → b ≡ false
not-true b h = ground arith

-- The review is full if the kept files touch security, or if the whole diff, the generated files
-- included, changes more than 200 lines; and only then or where full is declared. It is never below the
-- declared tier, and trivial only without security, with at most 10 lines and 2 kept files. No file
-- that is kept is generated.
pub classify_risk_tier-Chosen :
    (diff : List ℕ) (declared : Option RiskTier)
    → Chosen
        (classify_risk_tier diff declared).security_touched
        (changed_line_count diff)
        (length (classify_risk_tier diff declared).changed_files)
        declared
        (classify_risk_tier diff declared).tier
      × All (λ path. is_noise path ≡ false) (classify_risk_tier diff declared).changed_files
unfolding classify_risk_tier noise_filter
classify_risk_tier-Chosen diff declared =
    let kept = keep (λ path. not (is_noise path)) (changed_file_paths diff) in
    let sized = sized_tier (security_touched kept) (changed_line_count diff) (length kept) in
    (
      with_floor-Chosen (security_touched kept) (changed_line_count diff) (length kept) sized.0
          sized.1 declared
          (sized-Chosen (security_touched kept) (changed_line_count diff) (length kept)),
      All-map kept (λ path h. not-true (is_noise path) h)
          (keep-passes (λ path. not (is_noise path)) (changed_file_paths diff)),
    )
