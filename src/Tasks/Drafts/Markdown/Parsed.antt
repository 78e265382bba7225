-- ===== src/Tasks/Drafts/Markdown/Parsed.antt =====
-- What the import of drafts (src/tasks/draftLane.ts) makes of the lines of a list.
use Prim.Native.Char.{code}
use nightshift0s.Prelude.{
  or_else, keep, true, false, sym, eq_true, ℕ, suc, ◌≤◌, String, ◌≡◌, refl, ap, subst, ◌∙◌, ◌≢◌,
  Option, none, some, List, [], ◌∷◌, ◌++◌, map, All, All-append, ◌==◌, inl, inr, Bool-cases, ltb,
  nat_Eq, string_Eq, arith,
}
use nightshift0s.Prelude.Text.{codes, trim_text, utf16_length}
use nightshift0s.Tasks.Fields.{valid}
use nightshift0s.Tasks.Crud.Checks.{Holds, bind-Holds}
use nightshift0s.Tasks.Drafts.Markdown.{
  ImportedDraft, Step, listed, line_title, with_criteria, criteria_line, parse_line, parse_lines,
  parse_markdown_drafts, top_bullet, criteria_bullet, lines_of, after_prefix, one_line, ends_line,
  bullet_text,
}

abbrev pub titles : List ImportedDraft → List String
titles drafts = map (λ d. d.title) drafts

abbrev pub on_bullet : Option String → List String → List String
on_bullet none rest = rest
on_bullet (some text) rest = trim_text text ∷ rest

-- The trimmed texts of the lines that the parser's pattern matches.
abbrev bullet_titles : List String → List String
bullet_titles [] = []
bullet_titles (line ∷ lines) = on_bullet (top_bullet line) (bullet_titles lines)

abbrev IsFitCriteria : Option String → Type 0
IsFitCriteria none = Unit
IsFitCriteria (some ac) = utf16_length (codes ac) ≤ 5000

-- The title is not empty, and the texts are within their limits.
pub record IsFit (d : ImportedDraft) : Type 0 where
  pub titled : d.title ≢ ""
  pub short_title : utf16_length (codes d.title) ≤ 200
  pub short_criteria : IsFitCriteria d.acceptance_criteria

map-append : (xs ys : List ImportedDraft) → titles (xs ++ ys) ≡ titles xs ++ titles ys
map-append [] ys = refl
map-append (x ∷ xs) ys = ap (λ rest. x.title ∷ rest) (map-append xs ys)

append_assoc : (xs ys zs : List String) → (xs ++ ys) ++ zs ≡ xs ++ (ys ++ zs)
append_assoc [] ys zs = refl
append_assoc (x ∷ xs) ys zs = ap (λ rest. x ∷ rest) (append_assoc xs ys zs)

-- A line neither drops nor adds a title besides its own, and keeps what is listed fit.
pub record IsStep (current : Option ImportedDraft) (bullet : Option String) (s : Step)
    : Type 0 where
  pub same_titles :
      (rest : List String)
      → titles s.pushed ++ (titles (listed s.current) ++ rest)
        ≡ titles (listed current) ++ on_bullet bullet rest
  pub pushed_fit : All IsFit s.pushed
  pub current_fit : All IsFit (listed s.current)

with_criteria-IsStep :
    (i : ℕ) (d : ImportedDraft) (ac : String)
    → IsFit d
    → Holds (IsStep (some d) none) (with_criteria i d ac)
with_criteria-IsStep i d ac fit = elim (Bool-cases (ltb 5000 (utf16_length (codes ac)))) [
  | inl long ↦ rw long tt
  | inr short ↦ rw short (record {
    same_titles = λ rest. refl;
    pushed_fit = tt;
    current_fit = (
      record {
        titled = fit.titled;
        short_title = fit.short_title;
        short_criteria = ground (arith, short);
      },
      tt,
    );
  })
]

criteria_line-IsStep :
    (i : ℕ) (current : Option ImportedDraft) (bullet : Option String)
    → All IsFit (listed current)
    → Holds (IsStep current none) (criteria_line i current bullet)
criteria_line-IsStep i (some d) (some ac) fit = with_criteria-IsStep i d (trim_text ac) fit.0
criteria_line-IsStep i none b fit = record {
  same_titles = λ rest. refl;
  pushed_fit = tt;
  current_fit = fit;
}
criteria_line-IsStep i (some d) none fit = record {
  same_titles = λ rest. refl;
  pushed_fit = tt;
  current_fit = fit;
}

line_title-IsFit :
    (i : ℕ) (title : String)
    → Holds
        (λ t. (t ≡ title) × IsFit (record { title = t; acceptance_criteria = none }))
        (line_title i title)
line_title-IsFit i title = elim (Bool-cases (title == "")) [
  | inl empty ↦ rw empty tt
  | inr given ↦ rw given (elim (Bool-cases (ltb 200 (utf16_length (codes title)))) [
    | inl long ↦ rw long tt
    | inr short ↦ rw short (
      refl,
      record {
        titled = λ e. cc (ap (λ t. t == "") e, given);
        short_title = ground (arith, short);
        short_criteria = tt;
      },
    )
  ])
]

parse_line-IsStep :
    (i : ℕ) (current : Option ImportedDraft) (line : String) (bullet : Option String)
    → All IsFit (listed current)
    → Holds (IsStep current bullet) (parse_line i current line bullet)
parse_line-IsStep i current line none fit =
    criteria_line-IsStep i current (criteria_bullet line) fit
parse_line-IsStep i current line (some text) fit =
    bind-Holds (IsStep current (some text)) (line_title i (trim_text text)) _ (λ title e.
      let (same, good) = subst (Holds _) e (line_title-IsFit i (trim_text text)) in
      record {
        same_titles = λ rest. ap (λ t. titles (listed current) ++ t ∷ rest) same;
        pushed_fit = fit;
        current_fit = (good, tt);
      })

-- What is parsed: the titles of the open draft and of the lines, and fit drafts.
pub record IsParsed (current : Option ImportedDraft) (lines : List String)
    (drafts : List ImportedDraft) : Type 0 where
  pub all_titles : titles drafts ≡ titles (listed current) ++ bullet_titles lines
  pub all_fit : All IsFit drafts

parse_lines-IsParsed :
    (i : ℕ) (current : Option ImportedDraft) (lines : List String)
    → All IsFit (listed current)
    → Holds (IsParsed current lines) (parse_lines i current lines)
parse_lines-IsParsed i none [] fit = record { all_titles = refl; all_fit = fit }
parse_lines-IsParsed i (some d) [] fit = record { all_titles = refl; all_fit = fit }
parse_lines-IsParsed i current (line ∷ lines) fit =
    bind-Holds (IsParsed current (line ∷ lines)) (parse_line i current line (top_bullet line)) _
      (λ s e.
        let step = subst (Holds _) e (parse_line-IsStep i current line (top_bullet line) fit) in
        bind-Holds (IsParsed current (line ∷ lines)) (parse_lines (suc i) s.current lines) _
          (λ rest f.
            let parsed =
              subst (Holds _) f (parse_lines-IsParsed (suc i) s.current lines step.current_fit) in
            record {
              all_titles =
                  map-append s.pushed rest
                  ∙ ap (λ r. titles s.pushed ++ r) parsed.all_titles
                  ∙ step.same_titles (bullet_titles lines);
              all_fit = All-append IsFit s.pushed rest step.pushed_fit parsed.all_fit;
            }))

-- The trimmed texts of the lines that start with "- ", in their order.
abbrev pub line_titles : List String → List String
line_titles [] = []
line_titles (line ∷ lines) = on_bullet (after_prefix (codes "- ") line) (line_titles lines)

-- The lines that hold no carriage return, and no other line end than the one they are split at.
abbrev pub plain_lines : List String → List String
plain_lines lines = keep (λ line. one_line (codes line)) lines

one_line-after_prefix :
    (prefix : List ℕ) (line : String) {rest : String}
    → one_line prefix ≡ true
    → after_prefix prefix line ≡ some rest
    → one_line (codes line) ≡ one_line (codes rest)
one_line-after_prefix [] line h e = ap (λ o. one_line (codes (or_else o ""))) e
one_line-after_prefix (p ∷ prefix) String.[] h e = cc
one_line-after_prefix (p ∷ prefix) (String.◌∷◌ c line) {rest = rest} h e =
    elim (Bool-cases (code c == p)) [
      | inl same ↦
          let here : ends_line (code c) ≡ false = rw (eq_true (code c) p same) (ground arith) in
          rw here
            (one_line-after_prefix prefix line {rest = rest} (ground arith) (ground (arith, same)))
      | inr other ↦ ground (arith, other)
    ]

plain_line :
    (line : String) (lines : List String) (found : Option String)
    → after_prefix (codes "- ") line ≡ found
    → on_bullet (bullet_text found) (line_titles (plain_lines lines))
      ≡ line_titles (plain_lines (line ∷ lines))
plain_line line lines none e = elim (Bool-cases (one_line (codes line))) [
  | inl plain ↦ rw plain (rw e refl)
  | inr broken ↦ rw broken refl
]
plain_line line lines (some rest) e =
    let same = one_line-after_prefix (codes "- ") line refl e in
    elim (Bool-cases (one_line (codes line))) [
      | inl plain ↦ rw (sym same, plain) (rw e refl)
      | inr broken ↦ rw (sym same, broken) refl
    ]

bullet_titles-line_titles :
    (lines : List String) → bullet_titles lines ≡ line_titles (plain_lines lines)
bullet_titles-line_titles [] = refl
bullet_titles-line_titles (line ∷ lines) =
    ap (on_bullet (top_bullet line)) (bullet_titles-line_titles lines)
    ∙ plain_line line lines (after_prefix (codes "- ") line) refl

-- Where the import reads the whole list, it has one draft for each line that starts with "- " and holds
-- no carriage return or other line end, in order and under the trimmed text of the line; a line that
-- does hold one, as every line of a CRLF file, gives no draft and no error. Each title has from 1 to
-- 200 units, and each criteria text 5000 at most.
pub parse_markdown_drafts-IsParsed :
    (markdown : String) {drafts : List ImportedDraft}
    → parse_markdown_drafts markdown ≡ valid drafts
    → (titles drafts ≡ line_titles (plain_lines (lines_of markdown))) × All IsFit drafts
unfolding parse_markdown_drafts
parse_markdown_drafts-IsParsed markdown e =
    let parsed = subst (Holds _) e (parse_lines-IsParsed 1 none (lines_of markdown) tt) in
    (parsed.all_titles ∙ bullet_titles-line_titles (lines_of markdown), parsed.all_fit)
