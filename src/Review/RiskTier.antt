-- ===== src/Review/RiskTier.antt =====
-- How deep a change is reviewed (src/review/riskTier.ts). A diff and its paths are lists of character
-- codes.
pub mod Depth
use nightshift0s.Prelude.{
  ℕ, suc, ◌+◌, Bool, true, false, not, ◌&&◌, ◌||◌, Option, none, some, List, [], ◌∷◌, ◌++◌, ◌==◌,
  nat_Eq, is_empty, any, keep, length, ltb, leb, if◌then◌else◌,
}
use nightshift0s.Prelude.Text.{
  codes, trim, words, split_on, strip, starts_with, ends_with, includes, lower_text, same_text,
}
use nightshift0s.Db.Columns.Tasks.{RiskTier, trivial, lite, full}

abbrev lockfiles : List (List ℕ)
lockfiles =
    codes "bun.lock"
    ∷ codes "bun.lockb"
    ∷ codes "package-lock.json"
    ∷ codes "yarn.lock"
    ∷ codes "pnpm-lock.yaml"
    ∷ []

abbrev generated_suffixes : List (List ℕ)
generated_suffixes = codes ".min.js" ∷ codes ".min.css" ∷ codes ".snap" ∷ []

-- What `.` of a pattern does not match.
abbrev ends_line : ℕ → Bool
ends_line c = c == 10 || c == 13 || c == 8232 || c == 8233

abbrev is_sql : Option (List ℕ) → Bool
is_sql none = false
is_sql (some rest) = ends_with (codes ".sql") rest && not (any ends_line rest)

-- `/(?:^|\/)drizzle\/.*\.sql$/`
abbrev behind_slash : List ℕ → Bool
behind_slash [] = false
behind_slash (c ∷ cs) = (c == b'/' && is_sql (strip (codes "drizzle/") cs)) || behind_slash cs

abbrev pub is_migration : List ℕ → Bool
is_migration path = is_sql (strip (codes "drizzle/") path) || behind_slash path

abbrev basename_from : List ℕ → List ℕ → List ℕ
basename_from best [] = best
basename_from best (c ∷ cs) = basename_from (if c == b'/' then cs else best) cs

abbrev pub basename : List ℕ → List ℕ
basename path = basename_from path path

unfoldable pub is_noise : List ℕ → Bool
is_noise path =
    not (is_migration path)
    && (any (same_text (basename path)) lockfiles
        || any (λ suffix. ends_with suffix path) generated_suffixes)

abbrev without_side : List ℕ → List ℕ
without_side (c ∷ d ∷ cs) = if (c == b'a' || c == b'b') && d == b'/' then cs else c ∷ d ∷ cs
without_side cs = cs

abbrev pub normalize_header_path : List ℕ → Option (List ℕ)
normalize_header_path raw =
    let p = trim raw in
    if is_empty p || same_text p (codes "/dev/null") then none else some (without_side p)

abbrev pub add_path : List (List ℕ) → Option (List ℕ) → List (List ℕ)
add_path out none = out
add_path out (some p) = if any (same_text p) out then out else out ++ p ∷ []

-- The two sides of `diff --git a/foo b/foo`; with more or fewer words the line names no path.
abbrev add_sides : List (List ℕ) → List (List ℕ) → List (List ℕ)
add_sides out (a ∷ b ∷ []) =
    add_path (add_path out (normalize_header_path a)) (normalize_header_path b)
add_sides out _ = out

abbrev add_side : List (List ℕ) → Option (List ℕ) → List (List ℕ)
add_side out none = out
add_side out (some rest) = add_path out (normalize_header_path rest)

abbrev add_minus : List (List ℕ) → List ℕ → List (List ℕ)
add_minus out line = add_side out (strip (codes "--- ") line)

abbrev add_plus : List (List ℕ) → List ℕ → Option (List ℕ) → List (List ℕ)
add_plus out line none = add_minus out line
add_plus out line (some rest) = add_side out (some rest)

abbrev add_line : List (List ℕ) → List ℕ → Option (List ℕ) → List (List ℕ)
add_line out line none = add_plus out line (strip (codes "+++ ") line)
add_line out line (some rest) = add_sides out (words (trim rest))

abbrev paths_of : List (List ℕ) → List (List ℕ) → List (List ℕ)
paths_of out [] = out
paths_of out (line ∷ lines) = paths_of (add_line out line (strip (codes "diff --git ") line)) lines

unfoldable pub changed_file_paths : List ℕ → List (List ℕ)
changed_file_paths diff = paths_of [] (split_on 10 diff)

pub record FilteredFiles : Type 0 where
  pub kept_files : List (List ℕ)
  pub dropped_files : List (List ℕ)

unfoldable pub noise_filter : List ℕ → FilteredFiles
noise_filter diff = record {
  kept_files = keep (λ path. not (is_noise path)) (changed_file_paths diff);
  dropped_files = keep is_noise (changed_file_paths diff);
}

abbrev security_patterns : List (List ℕ)
security_patterns =
    codes "auth"
    ∷ codes "crypto"
    ∷ codes "secret"
    ∷ codes "token"
    ∷ codes "password"
    ∷ codes "egress"
    ∷ codes "sandbox"
    ∷ codes "forge"
    ∷ codes "credential"
    ∷ []

unfoldable pub security_touched : List (List ℕ) → Bool
security_touched =
    any (λ path. any (λ pattern. includes pattern (lower_text path)) security_patterns)

abbrev is_body_line : List ℕ → Bool
is_body_line line =
    not (starts_with (codes "+++") line || starts_with (codes "---") line)
    && (starts_with (codes "+") line || starts_with (codes "-") line)

-- The lines of every file, the dropped ones included.
unfoldable pub changed_line_count : List ℕ → ℕ
changed_line_count diff = length (keep is_body_line (split_on 10 diff))

abbrev pub tier_rank : RiskTier → ℕ
tier_rank trivial = 0
tier_rank lite = 1
tier_rank full = 2

abbrev pub max_tier : RiskTier → RiskTier → RiskTier
max_tier a b = if leb (tier_rank b) (tier_rank a) then a else b

-- The reasons, in place of their texts.
pub data TierReason : Type 0 where
  security_paths : TierReason
  large : (lines : ℕ) → TierReason
  tiny moderate : (lines files : ℕ) → TierReason
  raised : TierReason → RiskTier → TierReason

pub record RiskTierResult : Type 0 where
  pub tier : RiskTier
  pub changed_files : List (List ℕ)
  pub security_touched : Bool
  pub reason : TierReason

abbrev pub sized_tier : Bool → ℕ → ℕ → RiskTier × TierReason
sized_tier security lines files =
    if security
    then (full, security_paths)
    else if ltb 200 lines
    then (full, large lines)
    else if leb lines 10 && leb files 2
    then (trivial, tiny lines files)
    else (lite, moderate lines files)

abbrev pub with_floor : RiskTier × TierReason → Option RiskTier → RiskTier × TierReason
with_floor (tier, reason) none = (tier, reason)
with_floor (tier, reason) (some declared) =
    if ltb (tier_rank tier) (tier_rank declared)
    then (max_tier tier declared, raised reason declared)
    else (tier, reason)

unfoldable pub classify_risk_tier : List ℕ → Option RiskTier → RiskTierResult
unfolding security_touched
classify_risk_tier diff declared =
    let kept = (noise_filter diff).kept_files in
    let chosen =
      with_floor (sized_tier (security_touched kept) (changed_line_count diff) (length kept))
        declared in
    record {
      tier = chosen.0;
      changed_files = kept;
      security_touched = security_touched kept;
      reason = chosen.1;
    }

-- `specialists.ts`
pub data SpecialistKind : Type 0 where
  security correctness performance quality docs agents_md : SpecialistKind

abbrev pub reviewers_for_tier : RiskTier → List SpecialistKind
reviewers_for_tier trivial = correctness ∷ security ∷ []
reviewers_for_tier lite = correctness ∷ security ∷ quality ∷ []
reviewers_for_tier full = security ∷ correctness ∷ performance ∷ quality ∷ docs ∷ agents_md ∷ []

abbrev pub coordinator_for_tier : RiskTier → Bool
coordinator_for_tier trivial = false
coordinator_for_tier _ = true
