-- ===== src/Review/Tournament/Union.antt =====
-- What the synthesis of two reviews keeps (src/review/tournament.ts).
use nightshift0s.Prelude.{
  ℕ, suc, ◌≤◌, leb, String, Bool, true, false, ◌||◌, List, [], ◌∷◌, ◌++◌, ◌==◌, nat_Eq, string_Eq,
  eq_iff, ◌≡◌, ◌↔◌, ◌⊎◌, refl, ap, ◌∙◌, sym, arith, inl, inr, All, contains, if◌then◌else◌,
  Bool-cases, All-append,
}
use nightshift0s.Db.Rows.{All-map}
use nightshift0s.Review.Verdict.{Decision, approved, revise, VerdictFinding, Verdict}
use nightshift0s.Review.Tournament.{
  blocks, severity_order, sorts_before, insert_finding, sort_findings, finding_key, merge_findings,
  ReviewerRunResult, TournamentResult, synthesize, merge_agreed,
}

abbrev Ranks : VerdictFinding → VerdictFinding → Type 0
Ranks f g = severity_order f.severity ≤ severity_order g.severity

-- Each finding is at least as severe as all that follow it.
abbrev pub IsRanked : List VerdictFinding → Type 0
IsRanked [] = Unit
IsRanked (f ∷ findings) =
    All (λ g. severity_order f.severity ≤ severity_order g.severity) findings × IsRanked findings

before-Ranks : (f g : VerdictFinding) → sorts_before f g ≡ true → Ranks f g
before-Ranks f g h = ground arith

after-Ranks : (f g : VerdictFinding) → sorts_before f g ≡ false → Ranks g f
after-Ranks f g h = ground arith

module _ (P : VerdictFinding → Type 0) where
  insert-All :
      (f : VerdictFinding) (xs : List VerdictFinding) → P f → All P xs → All P (insert_finding f xs)
  insert-All f [] h k = (h, tt)
  insert-All f (g ∷ xs) h k = elim (Bool-cases (sorts_before f g)) [
    | inl first ↦ rw first (h, k)
    | inr later ↦ rw later (k.0, insert-All f xs h k.1)
  ]

  sort-All : (xs : List VerdictFinding) → All P xs → All P (sort_findings xs)
  sort-All [] h = tt
  sort-All (f ∷ xs) h = insert-All f (sort_findings xs) h.0 (sort-All xs h.1)

insert-IsRanked :
    (f : VerdictFinding) (xs : List VerdictFinding) → IsRanked xs → IsRanked (insert_finding f xs)
insert-IsRanked f [] h = (tt, tt)
insert-IsRanked f (g ∷ xs) h = elim (Bool-cases (sorts_before f g)) [
  | inl first ↦ rw first (
    (before-Ranks f g first, All-map xs (λ x k. omega (arith, before-Ranks f g first, k)) h.0),
    h,
  )
  | inr later ↦ rw later (
    insert-All (λ x. severity_order g.severity ≤ severity_order x.severity) f xs
        (after-Ranks f g later) h.0,
    insert-IsRanked f xs h.1,
  )
]

sort-IsRanked : (xs : List VerdictFinding) → IsRanked (sort_findings xs)
sort-IsRanked [] = tt
sort-IsRanked (f ∷ xs) = insert-IsRanked f (sort_findings xs) (sort-IsRanked xs)

pub stricter_wins :
    (a b : Decision)
    → ((if blocks a || blocks b then revise else approved) ≡ revise) ↔ ((a ≡ revise) ⊎ (b ≡ revise))
stricter_wins revise b = (λ h. inl refl, λ h. refl)
stricter_wins approved revise = (λ h. inr refl, λ h. refl)
stricter_wins approved approved = (λ h. cc, λ h. elim h [ inl e ↦ e | inr e ↦ e ])

module _ (label : String → String) where
  abbrev pub has_key : String → VerdictFinding → Bool
  has_key key f = finding_key label f == key

  abbrev add_if : Bool → ℕ → ℕ
  add_if true n = suc n
  add_if false n = n

  add_if_swap : (a b : Bool) (n : ℕ) → add_if a (add_if b n) ≡ add_if b (add_if a n)
  add_if_swap true true n = refl
  add_if_swap true false n = refl
  add_if_swap false b n = refl

  abbrev pub key_count : String → List VerdictFinding → ℕ
  key_count key [] = 0
  key_count key (f ∷ fs) = add_if (has_key key f) (key_count key fs)

  insert-key_count :
      (key : String) (f : VerdictFinding) (xs : List VerdictFinding)
      → key_count key (insert_finding f xs) ≡ key_count key (f ∷ xs)
  insert-key_count key f [] = refl
  insert-key_count key f (g ∷ xs) = elim (Bool-cases (sorts_before f g)) [
    | inl first ↦ rw first refl
    | inr later ↦ rw later (
        ap (add_if (has_key key g)) (insert-key_count key f xs)
        ∙ add_if_swap (has_key key g) (has_key key f) (key_count key xs))
  ]

  sort-key_count :
      (key : String) (xs : List VerdictFinding)
      → key_count key (sort_findings xs) ≡ key_count key xs
  sort-key_count key [] = refl
  sort-key_count key (f ∷ xs) =
      insert-key_count key f (sort_findings xs)
      ∙ ap (add_if (has_key key f)) (sort-key_count key xs)

  contains-key :
      (key : String) (seen : List String) (f : VerdictFinding)
      → has_key key f ≡ true
      → contains seen (finding_key label f) ≡ contains seen key
  contains-key key seen f h = ap (contains seen) ((eq_iff (finding_key label f) key).0 h)

  abbrev pub once : Bool → ℕ → ℕ
  once true n = 0
  once false n = if leb 1 n then 1 else 0

  once_zero : (old : Bool) → 0 ≡ once old 0
  once_zero true = refl
  once_zero false = refl

  once_old : (old : Bool) (n m : ℕ) → old ≡ true → once old n ≡ once old m
  once_old old n m h = rw h refl

  once_new : (old : Bool) (n m : ℕ) → old ≡ false → suc (once true n) ≡ once old (suc m)
  once_new old n m h = rw h (ground arith)

  -- A key that was not seen is met once, if it occurs at all.
  merge_findings-key_count :
      (key : String) (seen : List String) (xs : List VerdictFinding)
      → key_count key (merge_findings label seen xs) ≡ once (contains seen key) (key_count key xs)
  merge_findings-key_count key seen [] = once_zero (contains seen key)
  merge_findings-key_count key seen (f ∷ xs) = elim (Bool-cases (has_key key f)) [
    | inl hit ↦ elim (Bool-cases (contains seen (finding_key label f))) [
      | inl old ↦ rw old (
          merge_findings-key_count key seen xs
          ∙ once_old (contains seen key) (key_count key xs) (key_count key (f ∷ xs))
              (sym (contains-key key seen f hit) ∙ old))
      | inr new ↦
          rw (new, hit)
            (ap suc (
                merge_findings-key_count key (finding_key label f ∷ seen) xs
                ∙ ap (λ b. once (b || contains seen key) (key_count key xs)) hit)
              ∙ once_new (contains seen key) (key_count key xs) (key_count key xs)
                  (sym (contains-key key seen f hit) ∙ new))
    ]
    | inr miss ↦ elim (Bool-cases (contains seen (finding_key label f))) [
      | inl old ↦ rw (old, miss) (merge_findings-key_count key seen xs)
      | inr new ↦
          rw (new, miss)
            (merge_findings-key_count key (finding_key label f ∷ seen) xs
              ∙ ap (λ b. once (b || contains seen key) (key_count key xs)) miss)
    ]
  ]

  merge_findings-All :
      (P : VerdictFinding → Type 0) (seen : List String) (xs : List VerdictFinding)
      → All P xs
      → All P (merge_findings label seen xs)
  merge_findings-All P seen [] h = tt
  merge_findings-All P seen (f ∷ xs) h = elim (Bool-cases (contains seen (finding_key label f))) [
    | inl old ↦ rw old (merge_findings-All P seen xs h.1)
    | inr new ↦ rw new (h.0, merge_findings-All P (finding_key label f ∷ seen) xs h.1)
  ]

  pub record IsUnion {Text : Type 0} (a b : Verdict) (t : TournamentResult Text) : Type 0 where
    pub blocking : (t.verdict ≡ revise) ↔ ((a.verdict ≡ revise) ⊎ (b.verdict ≡ revise))
    pub keys :
        (key : String)
        → key_count key t.findings ≡ once false (key_count key (a.findings ++ b.findings))
    pub ranked : IsRanked t.findings

  -- The synthesis blocks exactly when one of the two reviews does; each key of a finding of either
  -- occurs once among its findings, and no other does; and they are in descending order of severity.
  pub synthesize-IsUnion :
      {Text : Type 0} (primary challenger : ReviewerRunResult Text) (a b : Verdict)
      → IsUnion a b (synthesize label primary a challenger b)
  unfolding synthesize
  synthesize-IsUnion primary challenger a b = record {
    blocking = stricter_wins a.verdict b.verdict;
    keys = λ key.
        sort-key_count key (merge_findings label [] (a.findings ++ b.findings))
        ∙ merge_findings-key_count key [] (a.findings ++ b.findings);
    ranked = sort-IsRanked (merge_findings label [] (a.findings ++ b.findings));
  }

  pub synthesize-All :
      {Text : Type 0} (P : VerdictFinding → Type 0) (primary challenger : ReviewerRunResult Text)
      (a b : Verdict)
      → All P a.findings
      → All P b.findings
      → All P (synthesize label primary a challenger b).findings
  unfolding synthesize
  synthesize-All P primary challenger a b h k =
      sort-All P (merge_findings label [] (a.findings ++ b.findings)) (
        merge_findings-All P [] (a.findings ++ b.findings) (All-append P a.findings b.findings h k))

  pub merge_agreed-All :
      (P : VerdictFinding → Type 0) (a b : Verdict)
      → All P a.findings
      → All P b.findings
      → All P (merge_agreed label a b).findings
  merge_agreed-All P a b h k =
      merge_findings-All P [] (a.findings ++ b.findings) (All-append P a.findings b.findings h k)
