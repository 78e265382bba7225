-- ===== src/Review/Judge/Printed.antt =====
-- The output of the program's own printer, read back (src/review/judge.ts, src/review/tournament.ts).
use nightshift0s.Prelude.{
  ℕ, ◌≡◌, refl, sym, ◌∙◌, ap, inl, inr, false, ◌||◌, Option, none, some, List, [], ◌∷◌, ◌++◌, ◌==◌,
  nat_Eq, is_some, length, arith, Bool-cases, Option-cases,
}
use nightshift0s.Prelude.Json.{Json}
use nightshift0s.Prelude.Text.{codes, trim, strip, includes}
use nightshift0s.Review.Verdict.{Verdict, ok}
use nightshift0s.Review.Verdict.Typed.{IsTyped}
use nightshift0s.Review.Verdict.RoundTrip.{verdict_json, validate_verdict-verdict_json}
use nightshift0s.Review.Judge.{
  open_tag, close_tag, closed_at, with_first, validated, parse_block, or_repaired, repair_fences,
  until_close, last_block, extract_tag_block, extract_structured, parse_output, print_verdict,
}

-- A pattern without `<` is not completed by a text that starts with one.
strip-none :
    (p xs ys : List ℕ)
    → includes (60 ∷ []) p ≡ false
    → strip p xs ≡ none
    → strip p (xs ++ 60 ∷ ys) ≡ none
strip-none [] xs ys h e = cc
strip-none (q ∷ p) [] ys h e = ground arith
strip-none (q ∷ p) (x ∷ xs) ys h e = elim (Bool-cases (x == q)) [
  | inl same ↦ rw same (strip-none p xs ys (ground arith) (ground (arith, same)))
  | inr other ↦ rw other refl
]

close_rest : List ℕ
close_rest = codes "/output>"

close-none :
    (x : ℕ) (xs : List ℕ)
    → strip close_tag (x ∷ xs) ≡ none
    → strip close_tag (x ∷ xs ++ close_tag) ≡ none
unfolding close_rest
close-none x xs e = elim (Bool-cases (x == 60)) [
  | inl same ↦ rw same (strip-none close_rest xs close_rest refl (ground (arith, same)))
  | inr other ↦ rw other refl
]

includes_parts :
    (x : ℕ) (xs : List ℕ)
    → includes close_tag (x ∷ xs) ≡ false
    → (strip close_tag (x ∷ xs) ≡ none) × (includes close_tag xs ≡ false)
includes_parts x xs h = elim (Option-cases (strip close_tag (x ∷ xs))) [
  | inl miss ↦ (miss, ap (λ o. is_some o || includes close_tag xs) (sym miss) ∙ h)
  | inr (rest, hit) ↦ cc (ap (λ o. is_some o || includes close_tag xs) (sym hit) ∙ h)
]

until_close-body :
    (body : List ℕ)
    → includes close_tag body ≡ false
    → until_close (body ++ close_tag) ≡ some (body, [])
until_close-body [] h = refl
until_close-body (x ∷ xs) h =
    let (miss, later) = includes_parts x xs h in
    ap (λ o. closed_at x o (until_close (xs ++ close_tag))) (close-none x xs miss)
    ∙ ap (with_first x) (until_close-body xs later)

-- A text without a closing tag is what the extraction gives of its envelope.
extract_tag_block-envelope :
    (body : List ℕ)
    → includes close_tag body ≡ false
    → extract_tag_block (open_tag ++ body ++ close_tag) ≡ some body
unfolding extract_tag_block
extract_tag_block-envelope body h =
    ap
      (λ (o : Option (List ℕ × List ℕ)). elim o as (λ x. Option (List ℕ)) [
        | none ↦ none
        | some block ↦ last_block (length (open_tag ++ body ++ close_tag)) (some block.0) block.1
      ])
      (until_close-body body h)

-- The JSON text of a verdict is read back by the parser of JSON, has no white space around it, and does
-- not hold the closing tag.
pub record IsReadable (parse_json : List ℕ → Option Json) (stringify : Json → List ℕ) (v : Verdict)
    : Type 0 where
  pub reads : parse_json (stringify (verdict_json v)) ≡ some (verdict_json v)
  pub trimmed : trim (stringify (verdict_json v)) ≡ stringify (verdict_json v)
  pub untagged : includes close_tag (stringify (verdict_json v)) ≡ false

pub parse_output-print_verdict :
    (parse_json : List ℕ → Option Json) (stringify : Json → List ℕ) (v : Verdict)
    → IsReadable parse_json stringify v
    → IsTyped v
    → parse_output parse_json (print_verdict stringify v) ≡ ok v
unfolding parse_output extract_structured print_verdict
parse_output-print_verdict parse_json stringify v r t =
    let body = stringify (verdict_json v) in
    ap (λ b. validated parse_json (parse_block parse_json b))
      (extract_tag_block-envelope body r.untagged)
    ∙ ap (λ o. validated parse_json (or_repaired o (parse_json (repair_fences (trim body)))))
        (ap parse_json r.trimmed ∙ r.reads)
    ∙ validate_verdict-verdict_json v t
