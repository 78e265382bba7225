-- ===== src/Review/Judge.antt =====
-- How the output of a reviewer is read (src/review/judge.ts, src/providers/schemaRepair.ts) and how a
-- verdict is printed in its envelope. The parser and the printer of JSON are parameters.
pub mod Printed
pub mod Fuel
use nightshift0s.Prelude.{
  ℕ, zero, suc, Bool, true, false, ◌||◌, ◌-◌, Option, none, some, List, [], ◌∷◌, ◌++◌, length, ◌==◌,
  nat_Eq, is_empty, if◌then◌else◌,
}
use nightshift0s.Prelude.Json.{Json}
use nightshift0s.Prelude.Text.{
  codes, trim, drop_space, drop_last_space, strip, lower_text, ends_with,
}
use nightshift0s.Review.Verdict.{Verdict, Validated, ok, fail, validate_verdict}
use nightshift0s.Review.Verdict
use nightshift0s.Review.Verdict.RoundTrip.{verdict_json}

abbrev pub open_tag : List ℕ
open_tag = codes "<output>"

abbrev pub close_tag : List ℕ
close_tag = codes "</output>"

-- What follows the first opening tag.
abbrev pub after_open : List ℕ → Option (List ℕ)
after_open [] = none
after_open (c ∷ cs) =
    let rest = after_open cs in elim (strip open_tag (c ∷ cs)) [ none ↦ rest | some r ↦ some r ]

abbrev pub with_first : ℕ → Option (List ℕ × List ℕ) → Option (List ℕ × List ℕ)
with_first c none = none
with_first c (some (body, rest)) = some (c ∷ body, rest)

abbrev pub closed_at : ℕ → Option (List ℕ) → Option (List ℕ × List ℕ) → Option (List ℕ × List ℕ)
closed_at c (some rest) later = some ([], rest)
closed_at c none later = with_first c later

-- What stands before the first closing tag, and what follows it.
abbrev pub until_close : List ℕ → Option (List ℕ × List ℕ)
until_close [] = none
until_close (c ∷ cs) = closed_at c (strip close_tag (c ∷ cs)) (until_close cs)

abbrev pub block_from : Option (List ℕ) → Option (List ℕ × List ℕ)
block_from none = none
block_from (some cs) = until_close cs

-- The last of the blocks that the pattern finds one after another; each takes up some characters.
abbrev pub last_block : ℕ → Option (List ℕ) → List ℕ → Option (List ℕ)
last_block zero last cs = last
last_block (suc fuel) last cs = elim (block_from (after_open cs)) [
  | none ↦ last
  | some block ↦ last_block fuel (some block.0) block.1
]

unfoldable pub extract_tag_block : List ℕ → Option (List ℕ)
extract_tag_block cs = last_block (suc (length cs)) none cs

abbrev first : ℕ → List ℕ → List ℕ
first zero cs = []
first (suc n) [] = []
first (suc n) (c ∷ cs) = c ∷ first n cs

abbrev rest_after : ℕ → List ℕ → List ℕ
rest_after zero cs = cs
rest_after (suc n) [] = []
rest_after (suc n) (c ∷ cs) = rest_after n cs

abbrev without_json : List ℕ → List ℕ
without_json cs =
    drop_space (elim (strip (codes "json") (lower_text (first 4 cs))) [
      | none ↦ cs
      | some r ↦ rest_after 4 cs
    ])

-- `/^```(?:json)?\s*/i`
abbrev without_open_fence : List ℕ → List ℕ
without_open_fence cs = elim (strip (codes "```") cs) [ none ↦ cs | some r ↦ without_json r ]

-- `/\s*```\s*$/`, and the white space before and after it
abbrev without_close_fence : List ℕ → List ℕ
without_close_fence cs =
    if ends_with (codes "```") cs then drop_last_space (first (length cs - 3) cs) else cs

abbrev is_end : ℕ → Bool
is_end c = c == 125 || c == 93

-- Up to the last `}` or `]`.
abbrev to_last_brace : List ℕ → List ℕ
to_last_brace [] = []
to_last_brace (c ∷ cs) =
    let rest = to_last_brace cs in
    if is_empty rest then (if is_end c then c ∷ [] else []) else c ∷ rest

abbrev or_whole : List ℕ → List ℕ → List ℕ
or_whole whole [] = whole
or_whole whole (c ∷ cs) = c ∷ cs

-- `repairFences`, of a trimmed text
unfoldable pub repair_fences : List ℕ → List ℕ
repair_fences raw =
    let s = trim (without_close_fence (drop_last_space (without_open_fence raw))) in
    or_whole s (to_last_brace s)

abbrev pub or_repaired : Option Json → Option Json → Option Json
or_repaired (some value) repaired = some value
or_repaired none repaired = repaired

-- `JSON.parse`, which throws at a text that is no JSON
module _ (parse_json : List ℕ → Option Json) where
  abbrev pub parse_block : Option (List ℕ) → Option Json
  parse_block none = none
  parse_block (some block) =
      or_repaired (parse_json (trim block)) (parse_json (repair_fences (trim block)))

  unfoldable pub extract_structured : List ℕ → Option Json
  extract_structured stdout = parse_block (extract_tag_block stdout)

  abbrev pub validated : Option Json → Validated Verdict
  validated none = fail Verdict.not_extracted
  validated (some value) = validate_verdict value

  -- `codeReviewJudge.parse`
  unfoldable pub parse_output : List ℕ → Validated Verdict
  parse_output stdout = validated (extract_structured stdout)

-- `JSON.stringify` of a verdict, in the tag of the judge
unfoldable pub print_verdict : (Json → List ℕ) → Verdict → List ℕ
print_verdict stringify v = open_tag ++ stringify (verdict_json v) ++ close_tag
