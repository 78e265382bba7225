-- ===== src/Review/Coordinator/Severe.antt =====
-- What the triage can add and lose (src/review/coordinator.ts).
use nightshift0s.Prelude.{
  ℕ, String, Bool, true, false, ◌||◌, Option, none, some, List, [], ◌∷◌, map, ◌==◌, nat_Eq,
  string_Eq, ◌≡◌, ◌↔◌, refl, sym, ap, ◌∙◌, arith, any, is_empty, leb, if◌then◌else◌, inl, inr,
  Bool-cases,
}
use nightshift0s.Db.Columns.Findings.{FindingSeverity}
use nightshift0s.Review.Tournament.{Settled, fulfilled, rejected}
use nightshift0s.Review.Coordinator.{
  FinderFinding, severity_rank, severity_gte, merge_two, dedup_key, put_finding, put_all, dedup,
  block, approve, CoordinatorResult, soften, verified, kept_with, after_decision, Verifier,
  VerifyDecision, verify_low_confidence, is_confident, is_blocking, decide_verdict, result_of,
  survivors, coordinate,
}

-- Of rank `n` or more: 4 is critical, and 3 is high or critical.
abbrev pub is_at_least : ℕ → FinderFinding → Bool
is_at_least n f = leb n (severity_rank f.severity)

leb_max :
    (n : ℕ) (s t : FindingSeverity)
    → leb n (severity_rank (if severity_gte s t then s else t))
      ≡ leb n (severity_rank s) || leb n (severity_rank t)
leb_max n s t = ground arith

merge_two-is_at_least :
    (n : ℕ) (f g : FinderFinding)
    → is_at_least n (merge_two f g) ≡ is_at_least n f || is_at_least n g
merge_two-is_at_least n f g = leb_max n f.severity g.severity

or_swap : (a b c : Bool) → (a || b) || c ≡ (a || c) || b
or_swap true b c = refl
or_swap false true true = refl
or_swap false true false = refl
or_swap false false true = refl
or_swap false false false = refl

or_assoc : (a b c : Bool) → a || (b || c) ≡ (a || b) || c
or_assoc true b c = refl
or_assoc false b c = refl

or_false : (a : Bool) → a || false ≡ a
or_false true = refl
or_false false = refl

module _ (n : ℕ) where
  abbrev entries_at_least : List (String × FinderFinding) → Bool
  entries_at_least [] = false
  entries_at_least ((k, g) ∷ entries) = is_at_least n g || entries_at_least entries

  put_finding-at_least :
      (key : String) (f : FinderFinding) (entries : List (String × FinderFinding))
      → entries_at_least (put_finding key f entries) ≡ entries_at_least entries || is_at_least n f
  put_finding-at_least key f [] = or_false (is_at_least n f)
  put_finding-at_least key f ((k, g) ∷ entries) = elim (Bool-cases (k == key)) [
    | inl same ↦ rw same (
        ap (λ b. b || entries_at_least entries) (merge_two-is_at_least n g f)
        ∙ or_swap (is_at_least n g) (is_at_least n f) (entries_at_least entries))
    | inr other ↦ rw other (
        ap (λ b. is_at_least n g || b) (put_finding-at_least key f entries)
        ∙ or_assoc (is_at_least n g) (entries_at_least entries) (is_at_least n f))
  ]

  put_all-at_least :
      (normalize : String → String) (entries : List (String × FinderFinding))
      (findings : List FinderFinding)
      → entries_at_least (put_all normalize entries findings)
        ≡ entries_at_least entries || any (is_at_least n) findings
  put_all-at_least normalize entries [] = sym (or_false (entries_at_least entries))
  put_all-at_least normalize entries (f ∷ findings) =
      let key = dedup_key normalize f in
      put_all-at_least normalize (put_finding key f entries) findings
      ∙ ap (λ b. b || any (is_at_least n) findings) (put_finding-at_least key f entries)
      ∙ sym (or_assoc (entries_at_least entries) (is_at_least n f) (any (is_at_least n) findings))

  values-at_least :
      (entries : List (String × FinderFinding))
      → any (is_at_least n) (map (λ e. e.1) entries) ≡ entries_at_least entries
  values-at_least [] = refl
  values-at_least ((k, g) ∷ entries) = ap (λ b. is_at_least n g || b) (values-at_least entries)

  dedup-at_least :
      (normalize : String → String) (findings : List FinderFinding)
      → any (is_at_least n) (dedup normalize findings) ≡ any (is_at_least n) findings
  unfolding dedup
  dedup-at_least normalize findings =
      values-at_least (put_all normalize [] findings) ∙ put_all-at_least normalize [] findings

  soften-at_least :
      (f : FinderFinding) (s : Option FindingSeverity)
      → is_at_least n (soften f s) ≡ true
      → is_at_least n f ≡ true
  soften-at_least f none h = h
  soften-at_least f (some s) h = ground arith

  or_mono :
      (a b c d : Bool)
      → (a ≡ true → c ≡ true)
      → (b ≡ true → d ≡ true)
      → a || b ≡ true
      → c || d ≡ true
  or_mono true b c d f g h = rw (f refl) refl
  or_mono false b true d f g h = refl
  or_mono false b false d f g h = g h

  -- What survives was found before, at least as severe.
  abbrev IsFound : Bool → Settled (List FinderFinding) → Type 0
  IsFound found (fulfilled out) = any (is_at_least n) out ≡ true → found ≡ true
  IsFound found (rejected reason) = Unit

  kept-IsFound :
      (f : FinderFinding) (found : Bool) (rest : Settled (List FinderFinding))
      → IsFound found rest
      → IsFound (is_at_least n f || found) (kept_with f rest)
  kept-IsFound f found (rejected reason) h = tt
  kept-IsFound f found (fulfilled out) h =
      λ k. or_mono (is_at_least n f) (any (is_at_least n) out) (is_at_least n f) found (λ e. e) h k

  verified-IsFound :
      (f : FinderFinding) (d : VerifyDecision) (found : Bool) (out : List FinderFinding)
      → (any (is_at_least n) out ≡ true → found ≡ true)
      → any (is_at_least n) (verified f d out) ≡ true
      → is_at_least n f || found ≡ true
  verified-IsFound f d found out h k = elim (Bool-cases d.keep_finding) [
    | inl kept ↦
        or_mono (is_at_least n (soften f d.severity)) (any (is_at_least n) out) (is_at_least n f)
          found (soften-at_least f d.severity) h
          (ap (λ b. any (is_at_least n) (if b then soften f d.severity ∷ out else out)) (sym kept)
            ∙ k)
    | inr dropped ↦
        or_mono false (any (is_at_least n) out) (is_at_least n f) found (λ e. cc) h
          (ap (λ b. any (is_at_least n) (if b then soften f d.severity ∷ out else out))
              (sym dropped)
            ∙ k)
  ]

  decided-IsFound :
      (f : FinderFinding) (d : Settled VerifyDecision) (found : Bool)
      (rest : Settled (List FinderFinding))
      → IsFound found rest
      → IsFound (is_at_least n f || found) (after_decision f d rest)
  decided-IsFound f (rejected reason) found rest h = tt
  decided-IsFound f (fulfilled d) found (rejected reason) h = tt
  decided-IsFound f (fulfilled d) found (fulfilled out) h = verified-IsFound f d found out h

  verify-IsFound :
      (verify : Verifier) (findings : List FinderFinding)
      → IsFound (any (is_at_least n) findings) (verify_low_confidence verify findings)
  verify-IsFound verify [] = λ h. h
  verify-IsFound verify (f ∷ findings) =
      let found = any (is_at_least n) findings in
      let rest = verify_low_confidence verify findings in
      elim (is_confident f)
        as (λ b.
          IsFound (is_at_least n f || found)
            (if b then kept_with f rest else after_decision f (verify f) rest)) [
              | true ↦ kept-IsFound f found rest (verify-IsFound verify findings)
              | false ↦ decided-IsFound f (verify f) found rest (verify-IsFound verify findings)
            ]

put_finding-not_empty :
    (key : String) (f : FinderFinding) (entries : List (String × FinderFinding))
    → is_empty (put_finding key f entries) ≡ false
put_finding-not_empty key f [] = refl
put_finding-not_empty key f ((k, g) ∷ entries) = ground arith

put_all-not_empty :
    (normalize : String → String) (entries : List (String × FinderFinding))
    (findings : List FinderFinding)
    → is_empty entries ≡ false
    → is_empty (put_all normalize entries findings) ≡ false
put_all-not_empty normalize entries [] h = h
put_all-not_empty normalize entries (f ∷ findings) h =
    put_all-not_empty normalize (put_finding (dedup_key normalize f) f entries) findings
      (put_finding-not_empty (dedup_key normalize f) f entries)

map-is_empty :
    (entries : List (String × FinderFinding)) → is_empty (map (λ e. e.1) entries) ≡ is_empty entries
map-is_empty [] = refl
map-is_empty (e ∷ entries) = refl

dedup-is_empty :
    (normalize : String → String) (findings : List FinderFinding)
    → is_empty (dedup normalize findings) ≡ is_empty findings
unfolding dedup
dedup-is_empty normalize [] = refl
dedup-is_empty normalize (f ∷ findings) =
    map-is_empty (put_all normalize [] (f ∷ findings))
    ∙ put_all-not_empty normalize (put_finding (dedup_key normalize f) f []) findings refl

any_mono :
    (p q : FinderFinding → Bool) (xs : List FinderFinding)
    → ((f : FinderFinding) → p f ≡ true → q f ≡ true)
    → any p xs ≡ true
    → any q xs ≡ true
any_mono p q [] h k = k
any_mono p q (x ∷ xs) h k = or_mono 0 (p x) (any p xs) (q x) (any q xs) (h x) (any_mono p q xs h) k

blocking_at_least : (f : FinderFinding) → is_blocking f ≡ true → is_at_least 3 f ≡ true
blocking_at_least f h = ground arith

critical_blocking : (f : FinderFinding) → is_at_least 4 f ≡ true → is_blocking f ≡ true
critical_blocking f h = ground arith

decide-block :
    (findings : List FinderFinding)
    → decide_verdict findings ≡ block
    → any is_blocking findings ≡ true
unfolding decide_verdict
decide-block findings h = ground arith

decide-approve :
    (findings : List FinderFinding)
    → (decide_verdict findings ≡ approve) ↔ (is_empty findings ≡ true)
unfolding decide_verdict
decide-approve [] = (λ h. refl, λ h. refl)
decide-approve (f ∷ findings) = (λ h. ground arith, λ h. cc)

fulfilled-injective : {a b : CoordinatorResult} → fulfilled a ≡ fulfilled b → a ≡ b
fulfilled-injective h = cc

survivors-IsFound :
    (verifier : Option Verifier) (findings : List FinderFinding)
    → IsFound 3 (any (is_at_least 3) findings) (survivors verifier findings)
survivors-IsFound none findings = λ h. h
survivors-IsFound (some verify) findings = verify-IsFound 3 verify findings

block-found :
    (found : Bool) (s : Settled (List FinderFinding)) (r : CoordinatorResult)
    → IsFound 3 found s
    → result_of s ≡ fulfilled r
    → r.verdict ≡ block
    → found ≡ true
block-found found (rejected reason) r h e k = cc
block-found found (fulfilled out) r h e k = h (
    any_mono is_blocking (is_at_least 3) out blocking_at_least
      (decide-block out (ap CoordinatorResult.verdict (fulfilled-injective e) ∙ k)))

decide-critical :
    (findings : List FinderFinding)
    → any (is_at_least 4) findings ≡ true
    → decide_verdict findings ≡ block
unfolding decide_verdict
decide-critical findings h =
    rw (any_mono (is_at_least 4) is_blocking findings critical_blocking h) refl

-- Without a verifier the triage gives a result, which blocks where a finding is critical and approves
-- without comments exactly where there are no findings. With or without one, whatever the verifier
-- answers, a result blocks only where a finding was high or critical before.
pub coordinate-severe :
    (normalize : String → String) (findings : List FinderFinding)
    → ((r : CoordinatorResult) × (coordinate normalize findings none ≡ fulfilled r)
        × (any (is_at_least 4) findings ≡ true → r.verdict ≡ block)
        × ((r.verdict ≡ approve) ↔ (is_empty findings ≡ true)))
      × ((verifier : Option Verifier) (r : CoordinatorResult)
          → coordinate normalize findings verifier ≡ fulfilled r
          → r.verdict ≡ block
          → any (is_at_least 3) findings ≡ true)
unfolding coordinate
coordinate-severe normalize findings =
    let out = dedup normalize findings in
    let clean = decide-approve out in
    let bare = dedup-is_empty normalize findings in
    (
      (
        _,
        refl,
        λ h. decide-critical out (dedup-at_least 4 normalize findings ∙ h),
        (λ h. sym bare ∙ clean.0 h, λ h. clean.1 (bare ∙ h)),
      ),
      λ verifier r e h.
          sym (dedup-at_least 3 normalize findings)
          ∙ block-found (any (is_at_least 3) out) (survivors verifier out) r
              (survivors-IsFound verifier out) e h,
    )
