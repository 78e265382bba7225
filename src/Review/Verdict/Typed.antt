-- ===== src/Review/Verdict/Typed.antt =====
-- What a verdict that passes the check is made of (src/review/verdict.ts).
use nightshift0s.Prelude.{
  ℕ, suc, String, Bool, true, false, not, Option, none, some, List, ◌==◌, nat_Eq, string_Eq, ◌≡◌,
  ◌≢◌, refl, arith, subst, leb, All, inl, inr, Bool-cases,
}
use nightshift0s.Prelude.Json.{
  absent, Json, Number, Items, end, item, get, array, number, natural, string,
}
use nightshift0s.Prelude.Text.{is_blank}
use nightshift0s.Db.Columns.Findings.{FindingResolutionState, open_finding}
use nightshift0s.Review.Verdict
use nightshift0s.Review.Verdict.{
  Decision, VerdictFinding, VerdictResolution, Verdict, Reason, Validated, ok, fail, ◌>>=◌, ◌>>◌,
  guard, require, is_object, text_of, positive_of, optional, any_text_of, severity_of, is_unit,
  confidence_of, state_of, state_named, validate_finding, validate_resolution, validate_items,
  validate_array, decision_of, summary_of, resolutions_of, validate_verdict,
}

abbrev pub OptionAll {ℓ κ} : {A : Type ℓ} → (A → Type κ) → Option A → Type κ
OptionAll P none = Unit
OptionAll P (some a) = P a

pub record IsTypedFinding (f : VerdictFinding) : Type 0 where
  pub file_given : (f.file == "") ≡ false
  pub line_positive : OptionAll (λ n. leb 1 n ≡ true) f.line
  pub confidence_unit : is_unit f.confidence ≡ true
  pub description_given : (f.description == "") ≡ false

pub record IsTypedResolution (r : VerdictResolution) : Type 0 where
  pub id_positive : leb 1 r.finding_id ≡ true
  pub settled : r.state ≢ open_finding

pub record IsTyped (v : Verdict) : Type 0 where
  pub summary_given : is_blank v.summary ≡ false
  pub findings_typed : All IsTypedFinding v.findings
  pub resolutions_typed : OptionAll (All IsTypedResolution) v.resolutions

bind-ok {ℓ κ} :
    {A : Type ℓ} {B : Type κ} (m : Validated A) (f : A → Validated B) {b : B}
    → (m >>= f) ≡ ok b
    → (a : A) × (m ≡ ok a) × (f a ≡ ok b)
bind-ok (ok a) f h = (a, refl, h)
bind-ok (fail e) f h = cc

ok-injective {ℓ} : {A : Type ℓ} {a b : A} → ok a ≡ ok b → a ≡ b
ok-injective h = cc

require-ok {ℓ κ} :
    {A : Type ℓ} {B : Type κ} (o : Option A) (e : Reason) (f : A → Validated B) {b : B}
    → (require o e >>= f) ≡ ok b
    → (a : A) × (o ≡ some a) × (f a ≡ ok b)
require-ok none e f h = cc
require-ok (some a) e f h = (a, refl, h)

guard-ok {κ} :
    {B : Type κ} (c : Bool) (e : Reason) (m : Validated B) {b : B}
    → (guard c e >> m) ≡ ok b
    → m ≡ ok b
guard-ok true e m h = h
guard-ok false e m h = cc

text_of-given : (v : Json) {s : String} → text_of v ≡ some s → (s == "") ≡ false
text_of-given (string t) h = elim (Bool-cases (t == "")) [
  | inl bare ↦ ground (arith, bare)
  | inr given ↦ grind (arith, given)
]
text_of-given v h = cc

positive_of-leb : (v : Json) {n : ℕ} → positive_of v ≡ some n → leb 1 n ≡ true
positive_of-leb (number (natural m)) h = ground arith
positive_of-leb v h = cc

line-leb :
    (v : Json) {o : Option ℕ} → optional positive_of v ≡ some o → OptionAll (λ n. leb 1 n ≡ true) o
line-leb absent {o = none} h = tt
line-leb absent {o = some n} h = cc
line-leb (number (natural m)) {o = none} h = tt
line-leb (number (natural m)) {o = some n} h = ground arith
line-leb v {o = none} h = tt
line-leb v {o = some n} h = cc

confidence_of-is_unit : (v : Json) {n : Number} → confidence_of v ≡ some n → is_unit n ≡ true
confidence_of-is_unit (number m) h = elim (Bool-cases (is_unit m)) [
  | inl is ↦ grind (arith, is)
  | inr not ↦ ground (arith, not)
]
confidence_of-is_unit v h = cc

state_named-settled :
    (s : String) {t : FindingResolutionState} → state_named s ≡ some t → t ≢ open_finding
state_named-settled s h = ground arith

state_of-settled : (v : Json) {s : FindingResolutionState} → state_of v ≡ some s → s ≢ open_finding
state_of-settled (string s) h = state_named-settled s h
state_of-settled v h = cc

summary_of-given : (v : Json) {s : String} → summary_of v ≡ some s → is_blank s ≡ false
summary_of-given (string t) h = elim (Bool-cases (is_blank t)) [
  | inl bare ↦ ground (arith, bare)
  | inr given ↦ grind (arith, given)
]
summary_of-given v h = cc

validate_finding-typed :
    (v : Json) (i : ℕ) (f : VerdictFinding) → validate_finding v i ≡ ok f → IsTypedFinding f
unfolding validate_finding
validate_finding-typed v i f h =
    let h = guard-ok (is_object v) (Verdict.finding_not_object i) _ h in
    let (file, file_is, h) = require-ok (text_of (get v "file")) (Verdict.bad_file i) _ h in
    let (line, line_is, h) =
      require-ok (optional positive_of (get v "line")) (Verdict.bad_line i) _ h in
    let (severity, severity_is, h) =
      require-ok (severity_of (get v "severity")) (Verdict.bad_severity i) _ h in
    let (confidence, confidence_is, h) =
      require-ok (confidence_of (get v "confidence")) (Verdict.bad_confidence i) _ h in
    let (description, description_is, h) =
      require-ok (text_of (get v "description")) (Verdict.bad_description i) _ h in
    let (suggestion, suggestion_is, h) =
      require-ok (optional any_text_of (get v "suggestion")) (Verdict.bad_suggestion i) _ h in
    subst IsTypedFinding (ok-injective h) (record {
      file_given = text_of-given (get v "file") file_is;
      line_positive = line-leb (get v "line") line_is;
      confidence_unit = confidence_of-is_unit (get v "confidence") confidence_is;
      description_given = text_of-given (get v "description") description_is;
    })

validate_resolution-typed :
    (v : Json) (i : ℕ) (r : VerdictResolution)
    → validate_resolution v i ≡ ok r
    → IsTypedResolution r
unfolding validate_resolution
validate_resolution-typed v i r h =
    let h = guard-ok (is_object v) (Verdict.resolution_not_object i) _ h in
    let (id, id_is, h) =
      require-ok (positive_of (get v "finding_id")) (Verdict.bad_finding_id i) _ h in
    let (state, state_is, h) = require-ok (state_of (get v "state")) (Verdict.bad_state i) _ h in
    subst IsTypedResolution (ok-injective h) (record {
      id_positive = positive_of-leb (get v "finding_id") id_is;
      settled = state_of-settled (get v "state") state_is;
    })

module _ {A : Type 0} (P : A → Type 0) (validate : Json → ℕ → Validated A)
    (sound : (v : Json) (i : ℕ) (a : A) → validate v i ≡ ok a → P a) where
  validate_items-typed :
      (i : ℕ) (items : Items) {xs : List A} → validate_items validate i items ≡ ok xs → All P xs
  validate_items-typed i end h = subst (All P) (ok-injective h) tt
  validate_items-typed i (item v items) h =
      let (a, a_is, h) = bind-ok (validate v i) _ h in
      let (rest, rest_is, h) = bind-ok (validate_items validate (suc i) items) _ h in
      subst (All P) (ok-injective h) (sound v i a a_is, validate_items-typed (suc i) items rest_is)

  validate_array-typed :
      (e : Reason) (v : Json) {xs : List A} → validate_array validate e v ≡ ok xs → All P xs
  validate_array-typed e (array items) h = validate_items-typed 0 items h
  validate_array-typed e v h = cc

resolutions_of-typed :
    (v : Json) {o : Option (List VerdictResolution)}
    → resolutions_of v ≡ ok o
    → OptionAll (All IsTypedResolution) o
resolutions_of-typed absent h = subst (OptionAll (All IsTypedResolution)) (ok-injective h) tt
resolutions_of-typed (array items) h =
    let (xs, xs_is, h) =
      bind-ok (validate_array validate_resolution Verdict.bad_resolutions (array items)) _ h in
    subst (OptionAll (All IsTypedResolution)) (ok-injective h) (
      validate_array-typed IsTypedResolution validate_resolution validate_resolution-typed
        Verdict.bad_resolutions (array items) xs_is)
resolutions_of-typed v h = cc

-- A verdict that passes the check has a summary that is not blank; each finding has a file, a
-- description, a line of at least 1 if it has one, and a confidence from 0 to 1; and each resolution
-- has an id of at least 1 and a state other than open. Its decision is the one of the JSON value.
pub validate_verdict-IsTyped :
    (value : Json) {v : Verdict}
    → validate_verdict value ≡ ok v
    → IsTyped v × (decision_of (get value "verdict") ≡ some v.verdict)
unfolding validate_verdict
validate_verdict-IsTyped value h =
    let h = guard-ok (is_object value) Verdict.not_an_object _ h in
    let (decision, decision_is, h) =
      require-ok (decision_of (get value "verdict")) Verdict.bad_verdict _ h in
    let (summary, summary_is, h) =
      require-ok (summary_of (get value "summary")) Verdict.blank_summary _ h in
    let (findings, findings_is, h) =
      bind-ok (validate_array validate_finding Verdict.no_findings (get value "findings")) _ h in
    let (resolutions, resolutions_is, h) = bind-ok (resolutions_of (get value "resolutions")) _ h in
    subst (λ v'. IsTyped v' × (decision_of (get value "verdict") ≡ some v'.verdict))
      (ok-injective h)
      (
        record {
          summary_given = summary_of-given (get value "summary") summary_is;
          findings_typed =
              validate_array-typed IsTypedFinding validate_finding validate_finding-typed
                Verdict.no_findings (get value "findings") findings_is;
          resolutions_typed = resolutions_of-typed (get value "resolutions") resolutions_is;
        },
        decision_is,
      )
