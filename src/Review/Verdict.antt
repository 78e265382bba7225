-- ===== src/Review/Verdict.antt =====
-- The verdict of a reviewer and the check of its JSON (src/review/verdict.ts).
pub mod Typed
pub mod RoundTrip
use nightshift0s.Prelude.{
  ℕ, suc, String, Bool, true, false, not, ◌&&◌, Option, none, some, List, [], ◌∷◌, ◌==◌, nat_Eq,
  string_Eq, leb, if◌then◌else◌,
}
use nightshift0s.Prelude.Json.{
  Number, natural, negative, fraction, infinite, Json, null, absent, boolean, number, string, array,
  object, Items, end, item, get,
}
use nightshift0s.Prelude.Text.{is_blank}
use nightshift0s.Db.Columns.Findings.{
  FindingSeverity, critical, high, medium, low, nit, FindingResolutionState, open_finding, fixed,
  rebutted, withdrawn, accepted_risk,
}

pub data Decision : Type 0 where
  approved revise : Decision

pub record VerdictFinding : Type 0 where
  pub file : String
  pub line : Option ℕ
  pub severity : FindingSeverity
  pub confidence : Number
  pub description : String
  pub suggestion : Option String

pub record VerdictResolution : Type 0 where
  pub finding_id : ℕ
  pub state : FindingResolutionState

pub record Verdict : Type 0 where
  pub verdict : Decision
  pub summary : String
  pub findings : List VerdictFinding
  pub resolutions : Option (List VerdictResolution)

-- The reasons, in place of their texts.
pub data Reason : Type 0 where
  not_an_object bad_verdict blank_summary no_findings bad_resolutions not_extracted : Reason
  finding_not_object bad_file bad_line bad_severity bad_confidence bad_description bad_suggestion :
      (i : ℕ) → Reason
  resolution_not_object bad_finding_id bad_state : (i : ℕ) → Reason

pub data Validated {ℓ} (A : Type ℓ) : Type ℓ where
  ok : A → Validated A
  fail : Reason → Validated A

infixl 5 ◌>>=◌ ◌>>◌
abbrev pub ◌>>=◌ {ℓ κ} : {A : Type ℓ} {B : Type κ} → Validated A → (A → Validated B) → Validated B
ok a >>= f = f a
fail e >>= f = fail e

abbrev pub ◌>>◌ {ℓ} : {B : Type ℓ} → Validated (Unit {0}) → Validated B → Validated B
m >> k = m >>= λ _. k

abbrev pub guard : Bool → Reason → Validated (Unit {0})
guard true e = ok tt
guard false e = fail e

abbrev pub require {ℓ} : {A : Type ℓ} → Option A → Reason → Validated A
require (some a) e = ok a
require none e = fail e

-- `isRecord`; an array is not one here.
abbrev pub is_object : Json → Bool
is_object (object fields) = true
is_object _ = false

-- The fields by their types; `none` is a violation.
abbrev pub text_of : Json → Option String
text_of (string s) = if s == "" then none else some s
text_of _ = none

abbrev pub positive_of : Json → Option ℕ
positive_of (number (natural n)) = if leb 1 n then some n else none
positive_of _ = none

abbrev pub optional {ℓ} : {A : Type ℓ} → (Json → Option A) → Json → Option (Option A)
optional read absent = some none
optional read v = elim (read v) [ none ↦ none | some a ↦ some (some a) ]

abbrev pub any_text_of : Json → Option String
any_text_of (string s) = some s
any_text_of _ = none

abbrev pub severity_named : String → Option FindingSeverity
severity_named s =
    if s == "critical"
    then some critical
    else if s == "high"
    then some high
    else if s == "medium"
    then some medium
    else if s == "low"
    then some low
    else if s == "nit"
    then some nit
    else none

abbrev pub severity_of : Json → Option FindingSeverity
severity_of (string s) = severity_named s
severity_of _ = none

-- `confidence >= 0 && confidence <= 1`
abbrev pub is_unit : Number → Bool
is_unit (natural n) = leb n 1
is_unit (negative n) = false
is_unit (fraction below_zero whole numerator denominator) = not below_zero && whole == 0
is_unit (infinite below_zero) = false

abbrev pub confidence_of : Json → Option Number
confidence_of (number n) = if is_unit n then some n else none
confidence_of _ = none

abbrev pub state_named : String → Option FindingResolutionState
state_named s =
    if s == "fixed"
    then some fixed
    else if s == "rebutted"
    then some rebutted
    else if s == "withdrawn"
    then some withdrawn
    else if s == "accepted_risk"
    then some accepted_risk
    else none

abbrev pub state_of : Json → Option FindingResolutionState
state_of (string s) = state_named s
state_of _ = none

unfoldable pub validate_finding : Json → ℕ → Validated VerdictFinding
validate_finding value i = do
  guard (is_object value) (finding_not_object i)
  file ← require (text_of (get value "file")) (bad_file i)
  line ← require (optional positive_of (get value "line")) (bad_line i)
  severity ← require (severity_of (get value "severity")) (bad_severity i)
  confidence ← require (confidence_of (get value "confidence")) (bad_confidence i)
  description ← require (text_of (get value "description")) (bad_description i)
  suggestion ← require (optional any_text_of (get value "suggestion")) (bad_suggestion i)
  ok (record {
    file = file;
    line = line;
    severity = severity;
    confidence = confidence;
    description = description;
    suggestion = suggestion;
  })

unfoldable pub validate_resolution : Json → ℕ → Validated VerdictResolution
validate_resolution value i = do
  guard (is_object value) (resolution_not_object i)
  id ← require (positive_of (get value "finding_id")) (bad_finding_id i)
  state ← require (state_of (get value "state")) (bad_state i)
  ok (record { finding_id = id; state = state })

-- The loops stop at the first violation.
module _ {A : Type 0} (validate : Json → ℕ → Validated A) where
  abbrev pub validate_items : ℕ → Items → Validated (List A)
  validate_items i end = ok []
  validate_items i (item v items) = do
    a ← validate v i
    rest ← validate_items (suc i) items
    ok (a ∷ rest)

  abbrev pub validate_array : Reason → Json → Validated (List A)
  validate_array reason (array items) = validate_items 0 items
  validate_array reason _ = fail reason

abbrev pub decision_of : Json → Option Decision
decision_of (string s) =
    if s == "approved" then some approved else if s == "revise" then some revise else none
decision_of _ = none

abbrev pub summary_of : Json → Option String
summary_of (string s) = if is_blank s then none else some s
summary_of _ = none

abbrev pub resolutions_of : Json → Validated (Option (List VerdictResolution))
resolutions_of absent = ok none
resolutions_of v = do
  resolutions ← validate_array validate_resolution bad_resolutions v
  ok (some resolutions)

unfoldable pub validate_verdict : Json → Validated Verdict
unfolding validate_finding validate_resolution
validate_verdict value = do
  guard (is_object value) not_an_object
  verdict ← require (decision_of (get value "verdict")) bad_verdict
  summary ← require (summary_of (get value "summary")) blank_summary
  findings ← validate_array validate_finding no_findings (get value "findings")
  resolutions ← resolutions_of (get value "resolutions")
  ok (record {
    verdict = verdict;
    summary = summary;
    findings = findings;
    resolutions = resolutions;
  })
