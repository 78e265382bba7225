-- ===== src/Review/Tournament.antt =====
-- Two reviews of one change made into one (src/review/tournament.ts), and the third model that decides
-- where they disagree (src/review/tiebreaker.ts). The runs of the reviewers and the clean-up of a
-- prompt are parameters.
pub mod Union
pub mod Decides
use nightshift0s.Prelude.{
  ℕ, ◌+◌, ◌*◌, String, Bool, true, false, not, ◌&&◌, ◌||◌, Option, none, some, List, [], ◌∷◌, ◌++◌,
  ◌==◌, nat_Eq, string_Eq, contains, length, ltb, leb, nat_eq, if◌then◌else◌,
}
use nightshift0s.Prelude.Json.{Json, le_number}
use nightshift0s.Prelude.Text.{◌⧺◌, decimal}
use nightshift0s.Db.Columns.Findings.{FindingSeverity, critical, high, medium, low, nit}
use nightshift0s.Review.Judge.{parse_output, print_verdict}
use nightshift0s.Review.Verdict.{
  Decision, approved, revise, VerdictFinding, Verdict, Validated, ok, fail, Reason,
}

abbrev pub blocks : Decision → Bool
blocks approved = false
blocks revise = true

abbrev pub severity_order : FindingSeverity → ℕ
severity_order critical = 0
severity_order high = 1
severity_order medium = 2
severity_order low = 3
severity_order nit = 4

-- The comparison of `sortFindings`, as `<= 0`.
abbrev pub sorts_before : VerdictFinding → VerdictFinding → Bool
sorts_before a b =
    if severity_order a.severity == severity_order b.severity
    then le_number b.confidence a.confidence
    else ltb (severity_order a.severity) (severity_order b.severity)

abbrev pub insert_finding : VerdictFinding → List VerdictFinding → List VerdictFinding
insert_finding f [] = f ∷ []
insert_finding f (g ∷ findings) =
    let rest = insert_finding f findings in if sorts_before f g then f ∷ g ∷ findings else g ∷ rest

-- The sort is stable.
abbrev pub sort_findings : List VerdictFinding → List VerdictFinding
sort_findings [] = []
sort_findings (f ∷ findings) = insert_finding f (sort_findings findings)

pub record ReviewerRunResult (Text : Type 0) : Type 0 where
  pub stdout : Text
  pub run_id : ℕ
  pub head_sha : String
  pub provider : String

pub record TournamentResult (Text : Type 0) : Type 0 where
  pub verdict : Decision
  pub findings : List VerdictFinding
  pub summary : String
  pub stricter_provider : String
  pub primary : ReviewerRunResult Text
  pub challenger : ReviewerRunResult Text

-- What an awaited call comes to.
pub data Settled {ℓ} (A : Type ℓ) : Type ℓ where
  fulfilled : A → Settled A
  rejected : (reason : String) → Settled A

pub record TiebreakInput : Type 0 where
  pub pr_title : String
  pub pr_body : String
  pub diff : String
  pub round : ℕ

abbrev pub TiebreakDeps : Type 0
TiebreakDeps = Option (TiebreakInput → Settled Verdict)

abbrev stricter_is_primary : Verdict → Verdict → Bool
stricter_is_primary a b = blocks a.verdict || not (blocks b.verdict)

abbrev pub verdicts_disagree : Verdict → Verdict → Bool
verdicts_disagree a b = if blocks a.verdict then not (blocks b.verdict) else blocks b.verdict

abbrev pub stricter : Verdict → Verdict → Verdict
stricter a b = if blocks a.verdict then a else if blocks b.verdict then b else a

-- The verdict that is printed has no resolutions.
abbrev pub envelope : Decision → String → List VerdictFinding → Verdict
envelope verdict summary findings = record {
  verdict = verdict;
  summary = summary;
  findings = findings;
  resolutions = none;
}

-- `label` is the first 60 characters of a description in lower case, each run of white space made one.
module _ (label : String → String) where
  abbrev pub finding_key : VerdictFinding → String
  finding_key f = f.file ⧺ "::" ⧺ label f.description

  abbrev pub merge_findings : List String → List VerdictFinding → List VerdictFinding
  merge_findings seen [] = []
  merge_findings seen (f ∷ findings) =
      let rest = merge_findings (finding_key f ∷ seen) findings in
      let skipped = merge_findings seen findings in
      if contains seen (finding_key f) then skipped else f ∷ rest

  abbrev pub merge_agreed : Verdict → Verdict → Verdict
  merge_agreed a b = record a { findings = merge_findings [] (a.findings ++ b.findings) }

  module _ (sanitize : String → String) where
    abbrev pub sanitize_input : TiebreakInput → TiebreakInput
    sanitize_input input = record {
      pr_title = sanitize input.pr_title;
      pr_body = sanitize input.pr_body;
      diff = sanitize input.diff;
      round = input.round;
    }

    abbrev pub third_vote : TiebreakDeps → TiebreakInput → Verdict → Settled Verdict
    third_vote none input fallback = fulfilled fallback
    third_vote (some run_tiebreaker) input fallback = run_tiebreaker (sanitize_input input)

    unfoldable pub resolve_with_tiebreak :
        Verdict → Verdict → TiebreakDeps → TiebreakInput → Settled Verdict
    resolve_with_tiebreak a b deps input =
        if not (verdicts_disagree a b)
        then fulfilled (merge_agreed a b)
        else third_vote deps input (stricter a b)

module _ {Text : Type 0} (label : String → String) where
  unfoldable pub synthesize :
      ReviewerRunResult Text → Verdict → ReviewerRunResult Text → Verdict → TournamentResult Text
  synthesize primary a challenger b =
      let findings = sort_findings (merge_findings label [] (a.findings ++ b.findings)) in
      let provider = if stricter_is_primary a b then primary.provider else challenger.provider in
      let summary = if stricter_is_primary a b then a.summary else b.summary in
      record {
        verdict = if blocks a.verdict || blocks b.verdict then revise else approved;
        findings = findings;
        summary =
            "[Tournament: "
            ⧺ primary.provider
            ⧺ " + "
            ⧺ challenger.provider
            ⧺ "] "
            ⧺ summary
            ⧺ " ("
            ⧺ decimal (length findings)
            ⧺ " combined findings, verdict from "
            ⧺ provider
            ⧺ ")";
        stricter_provider = provider;
        primary = primary;
        challenger = challenger;
      }

-- The text of an output, by its codes; JSON.parse and JSON.stringify are parameters.
module _ (label sanitize : String → String) (parse_json : List ℕ → Option Json)
    (stringify : Json → List ℕ) where
  abbrev pub serialize_tournament_output : TournamentResult (List ℕ) → List ℕ
  serialize_tournament_output t = print_verdict stringify (envelope t.verdict t.summary t.findings)

  abbrev pub tiebroken :
      ReviewerRunResult (List ℕ)
      → ReviewerRunResult (List ℕ)
      → Settled Verdict
      → Settled (ReviewerRunResult (List ℕ))
  tiebroken primary challenger (rejected reason) = rejected reason
  tiebroken primary challenger (fulfilled v) = fulfilled (record primary {
    stdout = print_verdict stringify (envelope v.verdict ("[tiebreaker] " ⧺ v.summary) v.findings);
    provider = "tournament(" ⧺ primary.provider ⧺ "+" ⧺ challenger.provider ⧺ "+tiebreaker)";
  })

  abbrev pub synthesized :
      ReviewerRunResult (List ℕ)
      → Verdict
      → ReviewerRunResult (List ℕ)
      → Verdict
      → Settled (ReviewerRunResult (List ℕ))
  synthesized primary a challenger b = fulfilled (record primary {
    stdout = serialize_tournament_output (synthesize label primary a challenger b);
    provider = "tournament(" ⧺ primary.provider ⧺ "+" ⧺ challenger.provider ⧺ ")";
  })

  abbrev pub both_parsed :
      Option TiebreakDeps
      → TiebreakInput
      → ReviewerRunResult (List ℕ)
      → Verdict
      → ReviewerRunResult (List ℕ)
      → Verdict
      → Settled (ReviewerRunResult (List ℕ))
  both_parsed none input primary a challenger b = synthesized primary a challenger b
  both_parsed (some deps) input primary a challenger b =
      if verdicts_disagree a b
      then tiebroken primary challenger (resolve_with_tiebreak label sanitize a b deps input)
      else synthesized primary a challenger b

  -- An output that does not parse gives way to the other; where neither does, the primary's is kept.
  abbrev pub both_ran :
      Option TiebreakDeps
      → TiebreakInput
      → ReviewerRunResult (List ℕ)
      → ReviewerRunResult (List ℕ)
      → Validated Verdict
      → Validated Verdict
      → Settled (ReviewerRunResult (List ℕ))
  both_ran deps input primary challenger (fail e) (fail e') = fulfilled primary
  both_ran deps input primary challenger (fail e) (ok b) = fulfilled challenger
  both_ran deps input primary challenger (ok a) (fail e') = fulfilled primary
  both_ran deps input primary challenger (ok a) (ok b) =
      both_parsed deps input primary a challenger b

  unfoldable pub tournament_runner :
      Option TiebreakDeps
      → TiebreakInput
      → Settled (ReviewerRunResult (List ℕ))
      → Settled (ReviewerRunResult (List ℕ))
      → Settled (ReviewerRunResult (List ℕ))
  unfolding synthesize resolve_with_tiebreak parse_output
  tournament_runner deps input (rejected reason) (rejected reason') = rejected reason
  tournament_runner deps input (rejected reason) (fulfilled challenger) = fulfilled challenger
  tournament_runner deps input (fulfilled primary) (rejected reason) = fulfilled primary
  tournament_runner deps input (fulfilled primary) (fulfilled challenger) =
      both_ran deps input primary challenger (parse_output parse_json primary.stdout)
        (parse_output parse_json challenger.stdout)
