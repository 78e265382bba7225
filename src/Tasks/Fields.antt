-- ===== src/Tasks/Fields.antt =====
-- The checks of the fields of a task (src/tasks/tasks.ts). An input field is a JSON value of any kind.
use nightshift0s.Prelude.{
  ℕ, String, Option, none, some, List, [], ◌∷◌, ◌==◌, nat_Eq, string_Eq, contains, ltb,
  if◌then◌else◌,
}
use nightshift0s.Prelude.Int.{ℤ, pos, negsuc}
use nightshift0s.Prelude.Json.{Number, natural, negative, Json, null, absent, number, string}
use nightshift0s.Prelude.Text.{codes, trim_text, utf16_length}
use nightshift0s.Db.Columns.Tasks.{
  TaskState, draft, backlog, cancelled, done, task_state_Eq, TaskCategory, functional, style, chore,
  security, RiskTier, trivial, lite, full,
}

pub data InputField : Type 0 where
  description_field acceptance_field state_field category_field risk_tier_field : InputField

-- The errors, in place of their texts.
pub data ValidationError : Type 0 where
  project_id_not_integer title_required title_too_long priority_not_integer : ValidationError
  project_not_found : Number → ValidationError
  not_a_text text_too_long : InputField → ValidationError
  invalid_choice : InputField → Json → ValidationError
  cannot_delete : (id : ℕ) → TaskState → ValidationError
  empty_task_title title_exceeds criteria_exceeds : (line : ℕ) → ValidationError

abbrev pub error_status : ValidationError → ℕ
error_status (project_not_found id) = 404
error_status (cannot_delete id state) = 409
error_status _ = 400

pub data Checked {ℓ} (A : Type ℓ) : Type ℓ where
  valid : A → Checked A
  invalid : ValidationError → Checked A

infixl 5 ◌>>=◌
abbrev pub ◌>>=◌ {ℓ κ} : {A : Type ℓ} {B : Type κ} → Checked A → (A → Checked B) → Checked B
valid a >>= f = f a
invalid e >>= f = invalid e

abbrev checked_title : String → Checked String
checked_title trimmed =
    if trimmed == ""
    then invalid title_required
    else if ltb 200 (utf16_length (codes trimmed))
    then invalid title_too_long
    else valid trimmed

unfoldable pub validate_title : Json → Checked String
validate_title (string s) = checked_title (trim_text s)
validate_title _ = invalid title_required

unfoldable pub normalise_text : Json → InputField → Checked (Option String)
normalise_text null field = valid none
normalise_text absent field = valid none
normalise_text (string s) field =
    if ltb 5000 (utf16_length (codes s)) then invalid (text_too_long field) else valid (some s)
normalise_text _ field = invalid (not_a_text field)

-- `assertOneOf`, by the texts that are allowed; a field that is not given has no value.
module _ {A : Type 0} where
  abbrev pub named : String → List (String × A) → Option A
  named s [] = none
  named s ((name, a) ∷ choices) = let rest = named s choices in if s == name then some a else rest

  abbrev chosen : InputField → Json → Option A → Checked (Option A)
  chosen field value none = invalid (invalid_choice field value)
  chosen field value (some a) = valid (some a)

  unfoldable pub assert_one_of : Json → List (String × A) → InputField → Checked (Option A)
  assert_one_of absent choices field = valid none
  assert_one_of (string s) choices field = chosen field (string s) (named s choices)
  assert_one_of value choices field = invalid (invalid_choice field value)

abbrev pub creatable_states : List (String × TaskState)
creatable_states = ("draft", draft) ∷ ("backlog", backlog) ∷ []

abbrev pub deletable_states : List TaskState
deletable_states = draft ∷ backlog ∷ cancelled ∷ done ∷ []

abbrev pub categories : List (String × TaskCategory)
categories =
    ("functional", functional) ∷ ("style", style) ∷ ("chore", chore) ∷ ("security", security) ∷ []

abbrev pub risk_tiers : List (String × RiskTier)
risk_tiers = ("trivial", trivial) ∷ ("lite", lite) ∷ ("full", full) ∷ []

abbrev integer_of : Number → Checked (Option ℤ)
integer_of (natural n) = valid (some (pos n))
integer_of (negative n) = valid (some (negsuc n))
integer_of _ = invalid priority_not_integer

unfoldable pub assert_priority : Json → Checked (Option ℤ)
assert_priority absent = valid none
assert_priority (number n) = integer_of n
assert_priority _ = invalid priority_not_integer

abbrev pub existing_project : List ℕ → Number → Checked ℕ
existing_project projects (natural id) =
    if contains projects id then valid id else invalid (project_not_found (natural id))
existing_project projects (negative n) = invalid (project_not_found (negative n))
existing_project projects _ = invalid project_id_not_integer
