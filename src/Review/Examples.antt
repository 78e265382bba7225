-- ===== src/Review/Examples.antt =====
-- The theorems about the review at small verdicts.
use nightshift0s.Prelude.{
  if◌then◌else◌, Option, ◌↔◌, ℕ, any, is_empty, All, String, true, false, none, some, List, [], ◌∷◌,
  string_Eq, ◌≡◌, refl, inr,
}
use nightshift0s.Prelude.Json.{Json, string, fraction, array, object, field, bare, end, get}
use nightshift0s.Prelude.Text.{codes, decimal, same_text}
use nightshift0s.Db.Columns.Findings.{FindingSeverity, critical, high, nit, fixed}
use nightshift0s.Review.Coordinator.{
  FinderFinding, block, approve, CoordinatorResult, Verifier, dedup, decide_verdict, summarize,
  coordinate,
}
use nightshift0s.Review.Coordinator.Severe.{is_at_least, coordinate-severe}
use nightshift0s.Review.RiskTier.{
  SpecialistKind, correctness, security, is_noise, noise_filter, changed_file_paths,
  security_touched, changed_line_count, security_paths, classify_risk_tier,
}
use nightshift0s.Review.RiskTier.Depth.{Chosen, classify_risk_tier-Chosen}
use nightshift0s.Db.Columns.Tasks.{full}
use nightshift0s.Review.Verdict.{
  Decision, approved, revise, VerdictFinding, VerdictResolution, Verdict, Validated, ok, fail,
  decision_of, validate_finding, validate_resolution, validate_verdict,
}
use nightshift0s.Review.Verdict
use nightshift0s.Review.Verdict.Typed.{IsTyped, validate_verdict-IsTyped}
use nightshift0s.Review.Verdict.RoundTrip.{verdict_json, validate_verdict-verdict_json}
use nightshift0s.Review.Tournament.{
  ReviewerRunResult, synthesize, fulfilled, rejected, TiebreakInput, resolve_with_tiebreak,
  tournament_runner,
}
use nightshift0s.Review.Tournament.Union.{IsUnion, synthesize-IsUnion}
use nightshift0s.Review.Tournament.Decides.{DecidesBy, printed, tournament_runner-decides}
use nightshift0s.Review.Judge.{
  parse_output, print_verdict, extract_structured, extract_tag_block, repair_fences,
}
use nightshift0s.Review.Judge.Printed.{IsReadable}

abbrev leak : VerdictFinding
leak = record {
  file = "a.ts";
  line = some 3;
  severity = high;
  confidence = fraction false 0 9 10;
  description = "leaks the key";
  suggestion = none;
}

abbrev style : VerdictFinding
style = record leak { severity = nit; description = "style"; line = none }

abbrev blocked : Verdict
blocked = record {
  verdict = revise;
  summary = "one leak";
  findings = leak ∷ [];
  resolutions = some (record { finding_id = 1; state = fixed } ∷ []);
}

abbrev passed : Verdict
passed = record {
  verdict = approved;
  summary = "fine";
  findings = style ∷ leak ∷ [];
  resolutions = none;
}

-- An array is not an object, and a field of the wrong type is a reason.
array_refused : validate_verdict (array end) ≡ fail Verdict.not_an_object
unfolding validate_verdict
array_refused = refl

blank_refused :
    validate_verdict
      (object (field "verdict" (string "approved") (field "summary" (string " ") bare)))
    ≡ fail Verdict.blank_summary
unfolding validate_verdict
blank_refused = refl

blocked-IsTyped : IsTyped blocked
blocked-IsTyped = record {
  summary_given = refl;
  findings_typed = (
    record {
      file_given = refl;
      line_positive = refl;
      confidence_unit = refl;
      description_given = refl;
    },
    tt,
  );
  resolutions_typed = (record { id_positive = refl; settled = λ e. cc }, tt);
}

validate_verdict-verdict_json_example : validate_verdict (verdict_json blocked) ≡ ok blocked
validate_verdict-verdict_json_example = validate_verdict-verdict_json blocked blocked-IsTyped

validate_verdict-IsTyped_example :
    IsTyped passed × (decision_of (get (verdict_json passed) "verdict") ≡ some approved)
unfolding validate_verdict validate_finding
validate_verdict-IsTyped_example = validate_verdict-IsTyped (verdict_json passed) {v = passed} refl

abbrev label : String → String
label s = s

abbrev review : Verdict → ReviewerRunResult Json
review v = record { stdout = verdict_json v; run_id = 1; head_sha = "abc"; provider = "codex" }

synthesize-IsUnion_example :
    IsUnion label blocked passed (synthesize label (review blocked) blocked (review passed) passed)
synthesize-IsUnion_example =
    synthesize-IsUnion label (review blocked) (review passed) blocked passed

synthesized_findings :
    (synthesize label (review passed) passed (review blocked) blocked).findings ≡ leak ∷ style ∷ []
unfolding synthesize
synthesized_findings = refl

abbrev prompt : TiebreakInput
prompt = record { pr_title = "t"; pr_body = ""; diff = ""; round = 2 }

passed-IsTyped : IsTyped passed
unfolding validate_verdict validate_finding
passed-IsTyped = (validate_verdict-IsTyped (verdict_json passed) {v = passed} refl).0

abbrev output : String → ReviewerRunResult (List ℕ)
output text = record { stdout = codes text; run_id = 1; head_sha = "abc"; provider = "codex" }

abbrev first_output : ReviewerRunResult (List ℕ)
first_output = output "<output>1</output>"

abbrev second_output : ReviewerRunResult (List ℕ)
second_output = output "noise <output> 2 </output>"

-- JSON by a table: two short texts for the outputs above, and one for what is printed.
abbrev stringify : Json → List ℕ
stringify value = codes "{}"

abbrev parse_json : List ℕ → Option Json
parse_json cs =
    if same_text cs (codes "1")
    then some (verdict_json passed)
    else if same_text cs (codes "2")
    then some (verdict_json blocked)
    else if same_text cs (codes "{}")
    then some (verdict_json (printed label first_output second_output passed blocked (some none)))
    else none

first_parses : parse_output parse_json first_output.stdout ≡ ok passed
unfolding parse_output extract_structured extract_tag_block validate_verdict validate_finding
    validate_resolution
first_parses = refl

second_parses : parse_output parse_json second_output.stdout ≡ ok blocked
unfolding parse_output extract_structured extract_tag_block validate_verdict validate_finding
    validate_resolution
second_parses = refl

-- A third model that throws is not replaced by the stricter verdict: the throw is passed on.
third_throws :
    tournament_runner label label parse_json stringify
      (some (some (λ i. rejected "timeout")))
      prompt
      (fulfilled first_output)
      (fulfilled second_output)
    ≡ rejected "timeout"
unfolding tournament_runner parse_output extract_structured extract_tag_block validate_verdict
    validate_finding validate_resolution resolve_with_tiebreak
third_throws = refl

-- A text that holds the closing tag is cut there, and does not parse.
tagged_text :
    parse_output parse_json (print_verdict (λ value. codes "{\"summary\": \"</output>\"}") passed)
    ≡ fail Verdict.not_extracted
unfolding parse_output extract_structured extract_tag_block print_verdict repair_fences
tagged_text = refl

printed-IsReadable :
    IsReadable parse_json stringify
      (printed label first_output second_output passed blocked (some none))
printed-IsReadable = record { reads = refl; trimmed = refl; untagged = refl }

tournament_runner-decides_example :
    (r : ReviewerRunResult (List ℕ)) × (tournament_runner label label parse_json stringify
        (some none)
        prompt
        (fulfilled first_output)
        (fulfilled second_output)
      ≡ fulfilled r)
    × ((v : Verdict) × (parse_output parse_json r.stdout ≡ ok v)
        × DecidesBy v.verdict passed blocked)
tournament_runner-decides_example =
    tournament_runner-decides label label parse_json stringify (some none) prompt first_output
      second_output passed blocked passed-IsTyped blocked-IsTyped (inr refl) printed-IsReadable
      first_parses second_parses

-- A change of one line of a file whose name tells of security.
abbrev small_diff : List ℕ
small_diff =
    codes "diff --git a/src/Auth.ts b/src/Auth.ts\n--- a/src/Auth.ts\n+++ b/src/Auth.ts\n-a\n+b\n"

small_diff_result : classify_risk_tier small_diff none ≡ record {
  tier = full;
  changed_files = codes "src/Auth.ts" ∷ [];
  security_touched = true;
  reason = security_paths;
}
unfolding classify_risk_tier noise_filter changed_file_paths is_noise security_touched
    changed_line_count
small_diff_result = refl

-- The lines of a lockfile count, though the file itself is dropped.
lockfile_lines :
    (changed_line_count (codes "+++ b/bun.lock\n+a\n+b") ≡ 2)
    × ((noise_filter (codes "+++ b/bun.lock\n+a\n+b")).kept_files ≡ [])
unfolding noise_filter changed_file_paths is_noise changed_line_count
lockfile_lines = (refl, refl)

classify_risk_tier-Chosen_example :
    Chosen true 2 1 none full × All (λ path. is_noise path ≡ false) (codes "src/Auth.ts" ∷ [])
unfolding classify_risk_tier noise_filter changed_file_paths is_noise security_touched
    changed_line_count
classify_risk_tier-Chosen_example = classify_risk_tier-Chosen small_diff none

abbrev finder : SpecialistKind → FindingSeverity → FinderFinding
finder kind severity = record {
  kind = kind;
  file = "a.ts";
  line = some 3;
  severity = severity;
  confidence = fraction false 0 5 10;
  description = "leak";
  suggestion = none;
}

abbrev union : List FinderFinding
union = finder correctness high ∷ finder security critical ∷ []

-- The same place twice is one finding, with the higher severity.
union_result :
    coordinate label union none
    ≡ fulfilled (record {
      verdict = block;
      summary = "Blocking: 1 critical.";
      findings = finder correctness critical ∷ [];
    })
unfolding coordinate dedup decide_verdict summarize decimal
union_result = refl

coordinate-severe_example :
    ((r : CoordinatorResult) × (coordinate label union none ≡ fulfilled r)
      × (any (is_at_least 4) union ≡ true → r.verdict ≡ block)
      × ((r.verdict ≡ approve) ↔ (is_empty union ≡ true)))
    × ((verifier : Option Verifier) (r : CoordinatorResult)
        → coordinate label union verifier ≡ fulfilled r
        → r.verdict ≡ block
        → any (is_at_least 3) union ≡ true)
coordinate-severe_example = coordinate-severe label union
