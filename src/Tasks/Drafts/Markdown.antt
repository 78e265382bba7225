-- ===== src/Tasks/Drafts/Markdown.antt =====
-- The import of a Markdown list of drafts (src/tasks/draftLane.ts).
pub mod Parsed
use Prim.Native.Char.{Char, code}
use Prim.Native.String
use nightshift0s.Prelude.{
  ℕ, suc, String, Bool, true, false, not, ◌&&◌, ◌||◌, Option, none, some, List, [], ◌∷◌, ◌++◌, ◌==◌,
  nat_Eq, string_Eq, ltb, leb, is_empty, if◌then◌else◌, ◌≡◌, refl,
}
use nightshift0s.Prelude.Json.{Json, natural, null, absent, string}
use nightshift0s.Prelude.Text.{codes, is_space, trim_text, utf16_length}
use nightshift0s.Db.Schema.{TaskRow}
use nightshift0s.Db.State.{Db}
use nightshift0s.Tasks.Fields.{
  Checked, valid, invalid, empty_task_title, title_exceeds, criteria_exceeds, ◌>>=◌,
}
use nightshift0s.Tasks.Crud.{CreateTaskInput, create_task}

-- `markdown.split("\n")`
abbrev on_first : Char → List String → List String
on_first c [] = String.◌∷◌ c "" ∷ []
on_first c (line ∷ lines) = String.◌∷◌ c line ∷ lines

abbrev pub lines_of : String → List String
lines_of String.[] = "" ∷ []
lines_of (String.◌∷◌ c s) =
    let rest = lines_of s in if code c == 10 then "" ∷ rest else on_first c rest

-- What follows a prefix, the prefix by its codes.
abbrev pub after_prefix : List ℕ → String → Option String
after_prefix [] s = some s
after_prefix (p ∷ prefix) String.[] = none
after_prefix (p ∷ prefix) (String.◌∷◌ c s) =
    let rest = after_prefix prefix s in if code c == p then rest else none

-- What `.` does not match.
abbrev pub ends_line : ℕ → Bool
ends_line c = c == 10 || c == 13 || c == 8232 || c == 8233

abbrev pub one_line : List ℕ → Bool
one_line [] = true
one_line (c ∷ cs) = not (ends_line c) && one_line cs

abbrev bullet_text : Option String → Option String
bullet_text none = none
bullet_text (some s) = if one_line (codes s) then some s else none

-- `/^- (.*)$/`
abbrev pub top_bullet : String → Option String
top_bullet line = bullet_text (after_prefix (codes "- ") line)

abbrev two_spaces : List ℕ → Bool
two_spaces (c ∷ d ∷ cs) = is_space c && is_space d
two_spaces cs = false

abbrev skip_space : String → String
skip_space String.[] = ""
skip_space (String.◌∷◌ c s) =
    let rest = skip_space s in if is_space (code c) then rest else String.◌∷◌ c s

abbrev not_empty : Option String → Option String
not_empty none = none
not_empty (some s) = if s == "" then none else some s

-- `/^\s{2,}- ac: (.+)$/`
abbrev pub criteria_bullet : String → Option String
criteria_bullet line =
    if two_spaces (codes line)
    then not_empty (bullet_text (after_prefix (codes "- ac: ") (skip_space line)))
    else none

pub record ImportedDraft : Type 0 where
  pub title : String
  pub acceptance_criteria : Option String

-- What a line adds to the list, and the draft that is open after it.
pub record Step : Type 0 where
  pub pushed : List ImportedDraft
  pub current : Option ImportedDraft

abbrev pub listed : Option ImportedDraft → List ImportedDraft
listed none = []
listed (some d) = d ∷ []

abbrev pub line_title : ℕ → String → Checked String
line_title i title =
    if title == ""
    then invalid (empty_task_title i)
    else if ltb 200 (utf16_length (codes title))
    then invalid (title_exceeds i)
    else valid title

abbrev pub with_criteria : ℕ → ImportedDraft → String → Checked Step
with_criteria i d ac =
    if ltb 5000 (utf16_length (codes ac))
    then invalid (criteria_exceeds i)
    else valid (record { pushed = []; current = some (record d { acceptance_criteria = some ac }) })

abbrev pub criteria_line : ℕ → Option ImportedDraft → Option String → Checked Step
criteria_line i (some d) (some ac) = with_criteria i d (trim_text ac)
criteria_line i current _ = valid (record { pushed = []; current = current })

abbrev pub parse_line : ℕ → Option ImportedDraft → String → Option String → Checked Step
parse_line i current line none = criteria_line i current (criteria_bullet line)
parse_line i current line (some text) = do
  title ← line_title i (trim_text text)
  valid (record {
    pushed = listed current;
    current = some (record { title = title; acceptance_criteria = none });
  })

abbrev pub parse_lines : ℕ → Option ImportedDraft → List String → Checked (List ImportedDraft)
parse_lines i current [] = valid (listed current)
parse_lines i current (line ∷ lines) = do
  step ← parse_line i current line (top_bullet line)
  rest ← parse_lines (suc i) step.current lines
  valid (step.pushed ++ rest)

unfoldable pub parse_markdown_drafts : String → Checked (List ImportedDraft)
parse_markdown_drafts markdown = parse_lines 1 none (lines_of markdown)

abbrev criteria_json : Option String → Json
criteria_json none = null
criteria_json (some ac) = string ac

abbrev draft_input : ℕ → ImportedDraft → CreateTaskInput
draft_input project d = record {
  project_id = natural project;
  title = string d.title;
  description = absent;
  acceptance_criteria = criteria_json d.acceptance_criteria;
  state = string "draft";
  priority = absent;
  category = absent;
  risk_tier = absent;
}

abbrev with_row :
    Db × Checked TaskRow → (Db → Db × Checked (List TaskRow)) → Db × Checked (List TaskRow)
with_row (db, invalid e) rest = (db, invalid e)
with_row (db, valid row) rest = let r = rest db in (r.0, do rows ← r.1; valid (row ∷ rows))

-- The first call that throws ends the calls; the links that are queued by then still run.
abbrev pub create_all : ℕ → ℕ → List ImportedDraft → Db → Db × Checked (List TaskRow)
create_all now project [] db = (db, valid [])
create_all now project (d ∷ drafts) db =
    with_row (create_task db now (draft_input project d)) (create_all now project drafts)

abbrev import_parsed : Db → ℕ → ℕ → Checked (List ImportedDraft) → Db × Checked (List TaskRow)
import_parsed db now project (invalid e) = (db, invalid e)
import_parsed db now project (valid drafts) = create_all now project drafts db

unfoldable pub import_markdown_drafts : Db → ℕ → ℕ → String → Db × Checked (List TaskRow)
import_markdown_drafts db now project markdown =
    import_parsed db now project (parse_markdown_drafts markdown)
