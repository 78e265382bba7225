-- ===== src/Review/Coordinator.antt =====
-- The triage of the specialists' findings (src/review/coordinator.ts). The verifier is a parameter, and
-- so is the form of a description (trimmed, in lower case, with single spaces) that names a finding.
pub mod Severe
use nightshift0s.Prelude.{
  ℕ, String, Bool, true, false, not, ◌&&◌, ◌||◌, Option, none, some, or_keep, List, [], ◌∷◌, ◌++◌,
  map, ◌==◌, nat_Eq, string_Eq, any, keep, length, is_empty, ltb, leb, if◌then◌else◌,
}
use nightshift0s.Prelude.Json.{Number, fraction, le_number}
use nightshift0s.Prelude.Text.{◌⧺◌, decimal, joined}
use nightshift0s.Db.Columns.Findings.{
  FindingSeverity, critical, high, medium, low, nit, severity_text, finding_severity_Eq,
}
use nightshift0s.Review.RiskTier.{SpecialistKind}
use nightshift0s.Review.Tournament.{Settled, fulfilled, rejected}

pub record FinderFinding : Type 0 where
  pub kind : SpecialistKind
  pub file : String
  pub line : Option ℕ
  pub severity : FindingSeverity
  pub confidence : Number
  pub description : String
  pub suggestion : Option String

pub data CoordinatorVerdict : Type 0 where
  approve approve_with_comments block : CoordinatorVerdict

pub record CoordinatorResult : Type 0 where
  pub verdict : CoordinatorVerdict
  pub summary : String
  pub findings : List FinderFinding

pub record VerifyDecision : Type 0 where
  pub keep_finding : Bool
  pub severity : Option FindingSeverity

abbrev pub severity_rank : FindingSeverity → ℕ
severity_rank critical = 4
severity_rank high = 3
severity_rank medium = 2
severity_rank low = 1
severity_rank nit = 0

abbrev pub severity_gte : FindingSeverity → FindingSeverity → Bool
severity_gte a b = leb (severity_rank b) (severity_rank a)

-- The first finding gives the identity; the severity and the confidence are the higher ones.
abbrev pub merge_two : FinderFinding → FinderFinding → FinderFinding
merge_two into other = record into {
  severity = if severity_gte into.severity other.severity then into.severity else other.severity;
  confidence =
      if le_number into.confidence other.confidence then other.confidence else into.confidence;
  suggestion = or_keep into.suggestion other.suggestion;
}

-- Less than 0.6.
abbrev threshold : Number
threshold = fraction false 0 6 10

abbrev pub is_confident : FinderFinding → Bool
is_confident f = le_number threshold f.confidence

abbrev line_text : Option ℕ → String
line_text none = "-"
line_text (some n) = decimal n

-- The map with its keys in the order of insertion.
abbrev pub put_finding :
    String → FinderFinding → List (String × FinderFinding) → List (String × FinderFinding)
put_finding key f [] = (key, f) ∷ []
put_finding key f ((k, g) ∷ entries) =
    let rest = put_finding key f entries in
    if k == key then (k, merge_two g f) ∷ entries else (k, g) ∷ rest

module _ (normalize : String → String) where
  abbrev pub dedup_key : FinderFinding → String
  dedup_key f = f.file ⧺ "::" ⧺ line_text f.line ⧺ "::" ⧺ normalize f.description

  abbrev pub put_all :
      List (String × FinderFinding) → List FinderFinding → List (String × FinderFinding)
  put_all entries [] = entries
  put_all entries (f ∷ findings) = put_all (put_finding (dedup_key f) f entries) findings

  unfoldable pub dedup : List FinderFinding → List FinderFinding
  dedup findings = map (λ e. e.1) (put_all [] findings)

-- A returned severity is applied only where it is lower.
abbrev pub soften : FinderFinding → Option FindingSeverity → FinderFinding
soften f none = f
soften f (some s) = if severity_gte s f.severity then f else record f { severity = s }

abbrev pub verified : FinderFinding → VerifyDecision → List FinderFinding → List FinderFinding
verified f decision rest = if decision.keep_finding then soften f decision.severity ∷ rest else rest

abbrev pub with_rest :
    FinderFinding → VerifyDecision → Settled (List FinderFinding) → Settled (List FinderFinding)
with_rest f decision (fulfilled rest) = fulfilled (verified f decision rest)
with_rest f decision (rejected reason) = rejected reason

abbrev pub kept_with : FinderFinding → Settled (List FinderFinding) → Settled (List FinderFinding)
kept_with f (fulfilled rest) = fulfilled (f ∷ rest)
kept_with f (rejected reason) = rejected reason

abbrev pub after_decision :
    FinderFinding
    → Settled VerifyDecision
    → Settled (List FinderFinding)
    → Settled (List FinderFinding)
after_decision f (fulfilled decision) rest = with_rest f decision rest
after_decision f (rejected reason) rest = rejected reason

abbrev pub Verifier : Type 0
Verifier = FinderFinding → Settled VerifyDecision

abbrev pub verify_low_confidence : Verifier → List FinderFinding → Settled (List FinderFinding)
verify_low_confidence verify [] = fulfilled []
verify_low_confidence verify (f ∷ findings) =
    let rest = verify_low_confidence verify findings in
    if is_confident f then kept_with f rest else after_decision f (verify f) rest

abbrev pub is_blocking : FinderFinding → Bool
is_blocking f = f.severity == critical || (f.severity == high && is_confident f)

unfoldable pub decide_verdict : List FinderFinding → CoordinatorVerdict
decide_verdict findings =
    if any is_blocking findings
    then block
    else if is_empty findings
    then approve
    else approve_with_comments

abbrev counted : List FinderFinding → List FindingSeverity → List String
counted findings [] = []
counted findings (s ∷ severities) =
    let n = length (keep (λ f. f.severity == s) findings) in
    let rest = counted findings severities in
    if ltb 0 n then (decimal n ⧺ " " ⧺ severity_text s) ∷ rest else rest

abbrev mix_text : List String → String
mix_text [] = ""
mix_text (s ∷ rest) = joined ", " s rest

abbrev with_verdict : CoordinatorVerdict → String → String
with_verdict block mix = "Blocking: " ⧺ mix ⧺ "."
with_verdict _ mix = "Approved with comments: " ⧺ mix ⧺ "."

unfoldable pub summarize : CoordinatorVerdict → List FinderFinding → String
summarize verdict findings =
    if is_empty findings
    then "No findings survived coordination — approved."
    else with_verdict verdict
        (mix_text (counted findings (critical ∷ high ∷ medium ∷ low ∷ nit ∷ [])))

abbrev pub survivors : Option Verifier → List FinderFinding → Settled (List FinderFinding)
survivors none findings = fulfilled findings
survivors (some verify) findings = verify_low_confidence verify findings

abbrev pub result_of : Settled (List FinderFinding) → Settled CoordinatorResult
result_of (rejected reason) = rejected reason
result_of (fulfilled findings) = fulfilled (record {
  verdict = decide_verdict findings;
  summary = summarize (decide_verdict findings) findings;
  findings = findings;
})

unfoldable pub coordinate :
    (String → String) → List FinderFinding → Option Verifier → Settled CoordinatorResult
coordinate normalize findings verifier = result_of (survivors verifier (dedup normalize findings))
