-- ===== src/Review/Verdict/RoundTrip.antt =====
-- A verdict as a JSON value, the way `JSON.stringify` prints it, and the check of that value
-- (src/review/verdict.ts, src/review/tournament.ts).
use nightshift0s.Prelude.{
  ℕ, suc, String, true, false, Option, none, some, List, [], ◌∷◌, ◌==◌, nat_Eq, string_Eq, ◌≡◌, ◌≢◌,
  refl, ap, ◌∙◌, arith, leb, All, if◌then◌else◌,
}
use nightshift0s.Prelude.Json.{
  Json, Number, Items, end, item, get, array, number, natural, string, object, Fields, field, bare,
}
use nightshift0s.Db.Columns.Findings.{
  FindingSeverity, critical, high, medium, low, nit, severity_text, FindingResolutionState,
  open_finding, fixed, rebutted, withdrawn, accepted_risk,
}
use nightshift0s.Review.Verdict.{
  Decision, approved, revise, VerdictFinding, VerdictResolution, Verdict, Reason, Validated, ok,
  ◌>>=◌, require, text_of, positive_of, optional, any_text_of, severity_of, is_unit, confidence_of,
  state_of, validate_finding, validate_resolution, validate_items, decision_of, resolutions_of,
  validate_verdict,
}
use nightshift0s.Review.Verdict.Typed.{IsTypedFinding, IsTypedResolution, IsTyped, OptionAll}

abbrev pub state_text : FindingResolutionState → String
state_text open_finding = "open"
state_text fixed = "fixed"
state_text rebutted = "rebutted"
state_text withdrawn = "withdrawn"
state_text accepted_risk = "accepted_risk"

abbrev pub decision_text : Decision → String
decision_text approved = "approved"
decision_text revise = "revise"

-- A field without a value is left out.
abbrev optional_field : String → Option Json → Fields → Fields
optional_field key none fields = fields
optional_field key (some v) fields = field key v fields

abbrev line_json : Option ℕ → Option Json
line_json none = none
line_json (some n) = some (number (natural n))

abbrev text_json : Option String → Option Json
text_json none = none
text_json (some s) = some (string s)

abbrev pub finding_json : VerdictFinding → Json
finding_json f = object (
    field "file" (string f.file) (
      field "severity" (string (severity_text f.severity)) (
        field "confidence" (number f.confidence) (
          field "description" (string f.description) (
            optional_field "line" (line_json f.line)
              (optional_field "suggestion" (text_json f.suggestion) bare))))))

abbrev pub resolution_json : VerdictResolution → Json
resolution_json r = object (
    field "finding_id" (number (natural r.finding_id))
      (field "state" (string (state_text r.state)) bare))

abbrev pub items_json {ℓ} : {A : Type ℓ} → (A → Json) → List A → Items
items_json print [] = end
items_json print (x ∷ xs) = item (print x) (items_json print xs)

abbrev resolutions_json : Option (List VerdictResolution) → Option Json
resolutions_json none = none
resolutions_json (some rs) = some (array (items_json resolution_json rs))

abbrev pub verdict_json : Verdict → Json
verdict_json v = object (
    field "verdict" (string (decision_text v.verdict)) (
      field "summary" (string v.summary) (
        field "findings" (array (items_json finding_json v.findings))
          (optional_field "resolutions" (resolutions_json v.resolutions) bare))))

severity_of-text : (s : FindingSeverity) → severity_of (string (severity_text s)) ≡ some s
severity_of-text critical = refl
severity_of-text high = refl
severity_of-text medium = refl
severity_of-text low = refl
severity_of-text nit = refl

decision_of-text : (d : Decision) → decision_of (string (decision_text d)) ≡ some d
decision_of-text approved = refl
decision_of-text revise = refl

state_of-text :
    (s : FindingResolutionState) → s ≢ open_finding → state_of (string (state_text s)) ≡ some s
state_of-text open_finding h = absurd (h refl)
state_of-text fixed h = refl
state_of-text rebutted h = refl
state_of-text withdrawn h = refl
state_of-text accepted_risk h = refl

-- The tail of a finding's fields, behind any that are asked for.
abbrev tail : Option ℕ → Option String → Json
tail line suggestion = object (
    optional_field "line" (line_json line)
      (optional_field "suggestion" (text_json suggestion) bare))

line_of-tail :
    (line : Option ℕ) (suggestion : Option String)
    → OptionAll (λ n. leb 1 n ≡ true) line
    → optional positive_of (get (tail line suggestion) "line") ≡ some line
line_of-tail none none h = refl
line_of-tail none (some s) h = refl
line_of-tail (some n) suggestion h = ground (arith, h)

suggestion_of-tail :
    (line : Option ℕ) (suggestion : Option String)
    → optional any_text_of (get (tail line suggestion) "suggestion") ≡ some suggestion
suggestion_of-tail none none = refl
suggestion_of-tail none (some s) = refl
suggestion_of-tail (some n) none = refl
suggestion_of-tail (some n) (some s) = refl

text_of-json : (s : String) → (s == "") ≡ false → text_of (string s) ≡ some s
text_of-json s h = rw h refl

confidence_of-json : (n : Number) → is_unit n ≡ true → confidence_of (number n) ≡ some n
confidence_of-json n h = rw h refl

require-then {ℓ κ} :
    {A : Type ℓ} {B : Type κ} {o : Option A} {a : A} (e : Reason) (f : A → Validated B)
    {r : Validated B}
    → o ≡ some a
    → f a ≡ r
    → (require o e >>= f) ≡ r
require-then e f h k = ap (λ o. require o e >>= f) h ∙ k

bind-then {ℓ κ} :
    {A : Type ℓ} {B : Type κ} {m : Validated A} {a : A} (f : A → Validated B) {r : Validated B}
    → m ≡ ok a
    → f a ≡ r
    → (m >>= f) ≡ r
bind-then f h k = ap (λ m. m >>= f) h ∙ k

validate_finding-json :
    (f : VerdictFinding) (i : ℕ) → IsTypedFinding f → validate_finding (finding_json f) i ≡ ok f
unfolding validate_finding
validate_finding-json f i h = require-then _ _ (text_of-json f.file h.file_given) (
    require-then _ _ (line_of-tail f.line f.suggestion h.line_positive) (
      require-then _ _ (severity_of-text f.severity) (
        require-then _ _ (confidence_of-json f.confidence h.confidence_unit) (
          require-then _ _ (text_of-json f.description h.description_given)
            (require-then _ _ (suggestion_of-tail f.line f.suggestion) refl)))))

validate_resolution-json :
    (r : VerdictResolution) (i : ℕ)
    → IsTypedResolution r
    → validate_resolution (resolution_json r) i ≡ ok r
unfolding validate_resolution
validate_resolution-json r i h =
    require-then _ _ (ap (λ b. if b then some r.finding_id else none) h.id_positive)
      (require-then _ _ (state_of-text r.state h.settled) refl)

module _ {A : Type 0} (P : A → Type 0) (validate : Json → ℕ → Validated A) (print : A → Json)
    (round_trip : (a : A) (i : ℕ) → P a → validate (print a) i ≡ ok a) where
  validate_items-json :
      (i : ℕ) (xs : List A) → All P xs → validate_items validate i (items_json print xs) ≡ ok xs
  validate_items-json i [] h = refl
  validate_items-json i (x ∷ xs) h =
      bind-then _ (round_trip x i h.0) (bind-then _ (validate_items-json (suc i) xs h.1) refl)

resolutions_of-json :
    (o : Option (List VerdictResolution))
    → OptionAll (All IsTypedResolution) o
    → resolutions_of
        (get (object (optional_field "resolutions" (resolutions_json o) bare)) "resolutions")
      ≡ ok o
resolutions_of-json none h = refl
resolutions_of-json (some rs) h =
    bind-then _
      (validate_items-json IsTypedResolution validate_resolution resolution_json
        validate_resolution-json 0 rs h)
      refl

-- A verdict with a summary that is not blank, and with findings and resolutions of their types, is read
-- back as it is from the JSON value that prints it.
pub validate_verdict-verdict_json :
    (v : Verdict) → IsTyped v → validate_verdict (verdict_json v) ≡ ok v
unfolding validate_verdict
validate_verdict-verdict_json v h = require-then _ _ (decision_of-text v.verdict) (
    require-then _ _ (ap (λ b. if b then none else some v.summary) h.summary_given) (
      bind-then _
        (validate_items-json IsTypedFinding validate_finding finding_json validate_finding-json 0
          v.findings h.findings_typed)
        (bind-then _ (resolutions_of-json v.resolutions h.resolutions_typed) refl)))
