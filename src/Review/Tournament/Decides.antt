-- ===== src/Review/Tournament/Decides.antt =====
-- The output of a tournament, read back as a verdict (src/review/tournament.ts,
-- src/review/tiebreaker.ts).
use nightshift0s.Prelude.{
  ℕ, List, ap, subst, String, true, false, Option, none, some, nat_Eq, string_Eq, ◌≡◌, ◌↔◌, ◌⊎◌,
  refl, arith, inl, inr, if◌then◌else◌, Bool-cases,
}
use nightshift0s.Prelude.Text.{◌⧺◌, is_blank, codes-append}
use nightshift0s.Review.Verdict.{Decision, revise, Verdict, ok}
use nightshift0s.Review.Verdict.Typed.{IsTypedFinding, IsTyped}
use nightshift0s.Prelude.Json.{Json}
use nightshift0s.Review.Judge.{parse_output}
use nightshift0s.Review.Judge.Printed.{IsReadable, parse_output-print_verdict}
use nightshift0s.Review.Tournament.{
  blocks, ReviewerRunResult, TournamentResult, synthesize, Settled, fulfilled, TiebreakInput,
  TiebreakDeps, verdicts_disagree, stricter, resolve_with_tiebreak, envelope, tiebroken,
  synthesized, both_parsed, tournament_runner,
}
use nightshift0s.Review.Tournament.Union.{synthesize-All, synthesize-IsUnion}

abbrev pub tournament_verdict : {Text : Type 0} → TournamentResult Text → Verdict
tournament_verdict t = envelope t.verdict t.summary t.findings

-- The block wins.
abbrev pub DecidesBy : Decision → Verdict → Verdict → Type 0
DecidesBy d a b = (d ≡ revise) ↔ ((a.verdict ≡ revise) ⊎ (b.verdict ≡ revise))

stricter-verdict : (a b : Verdict) → DecidesBy (stricter a b).verdict a b
stricter-verdict a b = (λ h. ground arith, λ h. ground arith)

stricter_one : (P : Verdict → Type 0) (a b : Verdict) → P a → P b → P (stricter a b)
stricter_one P a b pa pb =
    elim (blocks a.verdict) as (λ x. P (if x then a else if blocks b.verdict then b else a)) [
      | true ↦ pa
      | false ↦ elim (blocks b.verdict) as (λ x. P (if x then b else a)) [ true ↦ pb | false ↦ pa ]
    ]

abbrev pub tiebreaker_envelope : Verdict → Verdict
tiebreaker_envelope v = envelope v.verdict ("[tiebreaker] " ⧺ v.summary) v.findings

tiebreaker_envelope-IsTyped : (v : Verdict) → IsTyped v → IsTyped (tiebreaker_envelope v)
tiebreaker_envelope-IsTyped v h = record {
  summary_given = rw codes-append refl;
  findings_typed = h.findings_typed;
  resolutions_typed = tt;
}

module _ (label : String → String) where
  synthesize-summary :
      {Text : Type 0} (primary challenger : ReviewerRunResult Text) (a b : Verdict)
      → is_blank (synthesize label primary a challenger b).summary ≡ false
  unfolding synthesize
  synthesize-summary primary challenger a b = rw codes-append refl

  synthesize-IsTyped :
      {Text : Type 0} (primary challenger : ReviewerRunResult Text) (a b : Verdict)
      → IsTyped a
      → IsTyped b
      → IsTyped (tournament_verdict (synthesize label primary a challenger b))
  synthesize-IsTyped primary challenger a b h k = record {
    summary_given = synthesize-summary primary challenger a b;
    findings_typed =
        synthesize-All label IsTypedFinding primary challenger a b h.findings_typed
          k.findings_typed;
    resolutions_typed = tt;
  }

  -- The verdict that is printed where no third model votes.
  abbrev pub printed :
      {Text : Type 0} (primary challenger : ReviewerRunResult Text) (a b : Verdict)
      → Option TiebreakDeps
      → Verdict
  printed primary challenger a b none = tournament_verdict (synthesize label primary a challenger b)
  printed primary challenger a b (some deps) =
      if verdicts_disagree a b
      then tiebreaker_envelope (stricter a b)
      else tournament_verdict (synthesize label primary a challenger b)

  module _ (sanitize : String → String) (parse_json : List ℕ → Option Json)
      (stringify : Json → List ℕ) where
    abbrev pub Outcome : Verdict → Verdict → Settled (ReviewerRunResult (List ℕ)) → Type 0
    Outcome a b s =
        (r : ReviewerRunResult (List ℕ)) × (s ≡ fulfilled r)
        × ((v : Verdict) × (parse_output parse_json r.stdout ≡ ok v) × DecidesBy v.verdict a b)

    module _ (input : TiebreakInput) (primary challenger : ReviewerRunResult (List ℕ))
        (a b : Verdict) (typed_a : IsTyped a) (typed_b : IsTyped b) where
      resolve_alone :
          verdicts_disagree a b ≡ true
          → resolve_with_tiebreak label sanitize a b none input ≡ fulfilled (stricter a b)
      unfolding resolve_with_tiebreak
      resolve_alone h = rw h refl

      tiebroken-Outcome :
          IsReadable parse_json stringify (tiebreaker_envelope (stricter a b))
          → Outcome a b (
              tiebroken label sanitize parse_json stringify primary challenger
                (fulfilled (stricter a b)))
      tiebroken-Outcome r =
          let v = tiebreaker_envelope (stricter a b) in
          (
            _,
            refl,
            (
              v,
              parse_output-print_verdict parse_json stringify v r (
                  tiebreaker_envelope-IsTyped (stricter a b)
                    (stricter_one IsTyped a b typed_a typed_b)),
              stricter-verdict a b,
            ),
          )

      synthesized-Outcome :
          IsReadable parse_json stringify
            (tournament_verdict (synthesize label primary a challenger b))
          → Outcome a b (synthesized label sanitize parse_json stringify primary a challenger b)
      synthesized-Outcome r =
          let v = tournament_verdict (synthesize label primary a challenger b) in
          (
            _,
            refl,
            (
              v,
              parse_output-print_verdict parse_json stringify v r
                  (synthesize-IsTyped primary challenger a b typed_a typed_b),
              (synthesize-IsUnion label primary challenger a b).blocking,
            ),
          )

      both_parsed-Outcome :
          (deps : Option TiebreakDeps)
          → (deps ≡ none) ⊎ (deps ≡ some none)
          → IsReadable parse_json stringify (printed primary challenger a b deps)
          → Outcome a b
              (both_parsed label sanitize parse_json stringify deps input primary a challenger b)
      both_parsed-Outcome none h r = synthesized-Outcome r
      both_parsed-Outcome (some none) h r = elim (Bool-cases (verdicts_disagree a b)) [
        | inl differ ↦
            rw (differ, resolve_alone differ)
              (tiebroken-Outcome (
                subst (IsReadable parse_json stringify)
                  (ap
                    (λ c.
                      if c
                      then tiebreaker_envelope (stricter a b)
                      else tournament_verdict (synthesize label primary a challenger b))
                    differ)
                  r))
        | inr agree ↦ rw agree (
            synthesized-Outcome (
              subst (IsReadable parse_json stringify)
                (ap
                  (λ c.
                    if c
                    then tiebreaker_envelope (stricter a b)
                    else tournament_verdict (synthesize label primary a challenger b))
                  agree)
                r))
      ]
      both_parsed-Outcome (some (some third)) h r = absurd (elim h [ inl e ↦ cc | inr e ↦ cc ])

-- If no third model is there to ask, and JSON.parse reads back the JSON text of the verdict that is
-- printed, which has no white space around it and does not hold the judge's closing tag: two outputs that
-- parse as verdicts of their types give a result whose output parses, and it blocks exactly when one of
-- the two does.
pub tournament_runner-decides :
    (label sanitize : String → String) (parse_json : List ℕ → Option Json)
    (stringify : Json → List ℕ) (deps : Option TiebreakDeps) (input : TiebreakInput)
    (primary challenger : ReviewerRunResult (List ℕ)) (a b : Verdict) (typed_a : IsTyped a)
    (typed_b : IsTyped b)
    → (deps ≡ none) ⊎ (deps ≡ some none)
    → IsReadable parse_json stringify (printed label primary challenger a b deps)
    → parse_output parse_json primary.stdout ≡ ok a
    → parse_output parse_json challenger.stdout ≡ ok b
    → (r : ReviewerRunResult (List ℕ)) × (tournament_runner label sanitize parse_json stringify deps
          input
          (fulfilled primary)
          (fulfilled challenger)
        ≡ fulfilled r)
      × ((v : Verdict) × (parse_output parse_json r.stdout ≡ ok v) × DecidesBy v.verdict a b)
unfolding tournament_runner
tournament_runner-decides label sanitize parse_json stringify deps input primary challenger a b ta
      tb alone readable pa pb =
    rw (pa, pb)
      (both_parsed-Outcome label sanitize parse_json stringify input primary challenger a b ta tb
        deps alone readable)
