-- ===== src/Tasks/Drafts/Examples.antt =====
-- The draft lane (src/tasks/draftLane.ts) at a small board.
use nightshift0s.Prelude.{
  String, ◌≡◌, refl, Option, none, some, [], ◌∷◌, All, map, arith, nat_Eq, string_Eq,
}
use nightshift0s.Prelude.Json.{natural}
use nightshift0s.Prelude.Text.{trim_text}
use nightshift0s.Db.Columns.Tasks.{draft}
use nightshift0s.Db.State.{Db}
use nightshift0s.Db.Rows.{IsUnique}
use nightshift0s.Tasks.Examples.{board, task}
use nightshift0s.Tasks.Fields.{valid, invalid, empty_task_title, project_not_found}
use nightshift0s.Tasks.Crud.{create_task, check_create}
use nightshift0s.Tasks.Drafts.Markdown.{parse_markdown_drafts, import_markdown_drafts, lines_of}
use nightshift0s.Tasks.Drafts.Markdown.Parsed.{
  titles, line_titles, plain_lines, IsFit, parse_markdown_drafts-IsParsed,
}
use nightshift0s.Tasks.Drafts.{DraftLaneDeps, PlannerResult, promote_draft}
use nightshift0s.Tasks.Drafts.Promoted.{Promotion, promote_draft-Promotion}

abbrev drafts : Db
drafts = record board { tasks = task 7 draft none ∷ board.tasks }

abbrev plan : String → Option String → Option PlannerResult
plan title description = some (record { description = "what to do"; acceptance_criteria = "" })

abbrev deps : DraftLaneDeps
deps = record { planner = some plan; while_planning = λ d. d; while_waiting = λ d. d }

drafts-IsUnique : IsUnique (map (λ t. t.id) drafts.tasks)
drafts-IsUnique = ground arith

promote_draft-Promotion_example :
    Promotion deps 9 7 "operator" drafts (promote_draft deps 9 7 "operator" drafts)
promote_draft-Promotion_example =
    promote_draft-Promotion deps 9 7 "operator" (λ d. refl) (λ d. refl) drafts drafts-IsUnique

abbrev two_drafts : String
two_drafts = "- first\n  - ac: it works\nnot a bullet\n- lost\r\n-  second "

two_parsed :
    parse_markdown_drafts two_drafts
    ≡ valid (
        record { title = "first"; acceptance_criteria = some "it works" }
        ∷ record { title = "second"; acceptance_criteria = none }
        ∷ [])
unfolding parse_markdown_drafts trim_text
two_parsed = refl

-- A line that ends in a carriage return is no bullet, and is passed over.
crlf_dropped : parse_markdown_drafts "- first\r\n- second\r\n" ≡ valid []
unfolding parse_markdown_drafts trim_text
crlf_dropped = refl

blank_title : parse_markdown_drafts "- first\n- " ≡ invalid (empty_task_title 2)
unfolding parse_markdown_drafts trim_text
blank_title = refl

no_project :
    import_markdown_drafts board 9 4 two_drafts ≡ (board, invalid (project_not_found (natural 4)))
unfolding import_markdown_drafts parse_markdown_drafts trim_text create_task check_create
no_project = refl

parse_markdown_drafts-IsParsed_example :
    (titles (
        record { title = "first"; acceptance_criteria = some "it works" }
        ∷ record { title = "second"; acceptance_criteria = none }
        ∷ [])
      ≡ line_titles (plain_lines (lines_of two_drafts)))
    × All IsFit (
        record { title = "first"; acceptance_criteria = some "it works" }
        ∷ record { title = "second"; acceptance_criteria = none }
        ∷ [])
parse_markdown_drafts-IsParsed_example = parse_markdown_drafts-IsParsed two_drafts two_parsed
