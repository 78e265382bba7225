-- ===== src/Gate/Examples.antt =====
-- The theorems about the gates at small answers of git and of the forge.
use nightshift0s.Prelude.{
  is_empty, String, ◌≡◌, ◌≢◌, ◌↔◌, refl, true, false, some, List, [], ◌∷◌, ◌==◌, string_Eq,
  if◌then◌else◌,
}
use nightshift0s.Prelude.Text.{decimal}
use nightshift0s.Gate.Ci.{CheckRun, success, failure, ci_gate, ci_gate_for_ref}
use nightshift0s.Gate.Freshness.{block, GitRunner, check_branch_freshness}
use nightshift0s.Gate.PrePr.{
  CiClient, PrePrGateInput, ChecksHold, pre_pr_gate, evaluate_ci, gate_report, pre_pr_gate_iff,
}
use nightshift0s.Prelude.Json.{
  Json, null, string, boolean, number, natural, array, object, field, bare, item, end,
}
use nightshift0s.Gate.Preflight.{
  answered, ForgeClient, PreflightInput, protection_of, auto_merge_preflight, pr_snapshot,
  classic_protection, ruleset_protection, required_checks, check_runs, permission_blocks,
}
use nightshift0s.Gate.Preflight.Sound.{
  IsOpenAt, ChecksGreen, CannotBypass, auto_merge_preflight_sound,
}

abbrev checks : List CheckRun
checks =
    record { name = "lint"; status = failure } ∷ record { name = "lint"; status = success } ∷ []

-- The branch has moved on from the base commit.
abbrev git_answer : GitRunner
git_answer args = some "new"

abbrev trim : String → String
trim s = s

abbrev gate_input : PrePrGateInput
gate_input = record {
  base_sha = "old";
  default_branch = "main";
  head_ref = some "branch";
  required_checks = some ("lint" ∷ []);
}

abbrev client : CiClient
client ref = some checks

pre_pr_gate_iff_example :
    let freshness = check_branch_freshness trim git_answer "old" "main" in
    ((gate_report freshness (some (ci_gate ("lint" ∷ []) checks))).pass ≡ true)
    ↔ ((freshness.status ≢ block) × ChecksHold (some client) (some "branch") (some ("lint" ∷ [])))
unfolding pre_pr_gate evaluate_ci ci_gate_for_ref
pre_pr_gate_iff_example =
    pre_pr_gate_iff trim git_answer (some client) gate_input
      {r = gate_report (check_branch_freshness trim git_answer "old" "main")
        (some (ci_gate ("lint" ∷ []) checks))}
      refl

abbrev pair : String → Json → Json
pair key v = object (field key v bare)

abbrev input : PreflightInput
input = record {
  owner = "o";
  repo = "r";
  pr_number = 7;
  base_branch = "main";
  head_sha = "abc";
  approved_sha = "abc";
  trusted_check_app_ids = 15 ∷ [];
}

abbrev pr : Json
pr = object (
    field "state" (string "open")
      (field "base" (pair "ref" (string "main")) (field "head" (pair "sha" (string "abc")) bare)))

abbrev protection : Json
protection = pair "required_status_checks" (pair "contexts" (array (item (string "lint") end)))

abbrev lint_run : Json
lint_run = object (
    field "name" (string "lint")
      (field "conclusion" (string "success") (field "app" (pair "id" (number (natural 15))) bare)))

abbrev forge : ForgeClient
forge path =
    if path == "/repos/o/r/pulls/7"
    then answered 200 pr
    else if path == "/repos/o/r/branches/main/protection"
    then answered 200 protection
    else if path == "/repos/o/r/rules/branches/main"
    then answered 404 null
    else if path == "/repos/o/r/commits/abc/check-runs"
    then answered 200 (pair "check_runs" (array (item lint_run end)))
    else answered 200 (pair "permissions" (pair "admin" (boolean false)))

auto_merge_preflight_sound_example :
    (live : String) × IsOpenAt forge input live
    × (live ≡ input.approved_sha)
    × (live ≡ input.head_sha)
    × ((protection_of forge input).found ≡ true)
    × (is_empty (protection_of forge input).names ≡ false)
    × ChecksGreen forge input live
    × CannotBypass forge input
unfolding auto_merge_preflight pr_snapshot classic_protection ruleset_protection required_checks
    check_runs permission_blocks decimal
auto_merge_preflight_sound_example = auto_merge_preflight_sound forge input refl
