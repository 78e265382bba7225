-- ===== src/Triggers/Cron/First.antt =====
-- The next firing of an expression (src/triggers/cron.ts).
use nightshift0s.Prelude.{
  ℕ, zero, suc, ◌+◌, ◌-◌, ◌*◌, ◌/◌, ◌%◌, ◌≤◌, ◌<◌, Bool, true, false, Option, none, some, List, ◌≡◌,
  refl, ap, sym, ◌∙◌, subst, arith, leb, leb→le, inl, inr, Bool-cases,
}
use nightshift0s.Triggers.Cron.{
  parsed, ◌>>=◌, max_horizon, walk_minutes, matches, first_minute, next_match, ParsedCron,
  parse_cron, next_fire_time,
}

some-injective : {a b : ℕ} → some a ≡ some b → a ≡ b
some-injective h = cc

-- The loop with its rounds counted: the first minute from the cursor on that passes the test.
module _ (test : ℕ → Bool) (deadline : ℕ) where
  abbrev pub IsFirst : ℕ → ℕ → Type 0
  IsFirst cursor t =
      ((k : ℕ) × (t ≡ cursor + k * 60000) × ((j : ℕ) → j < k → test (cursor + j * 60000) ≡ false))
      × (t ≤ deadline)
      × (test t ≡ true)

  walk_over :
      (fuel cursor : ℕ)
      → leb cursor deadline ≡ false
      → walk_minutes test (suc fuel) cursor deadline ≡ none
  walk_over fuel cursor over = rw over refl

  walk_hit :
      (fuel cursor : ℕ)
      → leb cursor deadline ≡ true
      → test cursor ≡ true
      → walk_minutes test (suc fuel) cursor deadline ≡ some cursor
  walk_hit fuel cursor more hit = rw (more, hit) refl

  walk_miss :
      (fuel cursor : ℕ)
      → leb cursor deadline ≡ true
      → test cursor ≡ false
      → walk_minutes test (suc fuel) cursor deadline
        ≡ walk_minutes test fuel (cursor + 60000) deadline
  walk_miss fuel cursor more miss = rw (more, miss) refl

  shift :
      (cursor k : ℕ)
      → test cursor ≡ false
      → ((j : ℕ) → j < k → test (cursor + 60000 + j * 60000) ≡ false)
      → (j : ℕ) → j < suc k
      → test (cursor + j * 60000) ≡ false
  shift cursor k miss rest zero lt = subst (λ x. test x ≡ false) (omega arith) miss
  shift cursor k miss rest (suc j) lt =
      subst (λ x. test x ≡ false) (omega arith) (rest j (omega arith))

  IsFirst-next :
      (cursor : ℕ) {t : ℕ} → test cursor ≡ false → IsFirst (cursor + 60000) t → IsFirst cursor t
  IsFirst-next cursor miss ((k, at, before), in_time, hit) =
      ((suc k, omega arith, shift cursor k miss before), in_time, hit)

  walk_minutes-some :
      (fuel cursor : ℕ) {t : ℕ} → walk_minutes test fuel cursor deadline ≡ some t → IsFirst cursor t
  walk_minutes-some zero cursor h = cc
  walk_minutes-some (suc fuel) cursor {t = t} h = elim (Bool-cases (leb cursor deadline)) [
    | inr over ↦ cc (walk_over fuel cursor over)
    | inl more ↦ elim (Bool-cases (test cursor)) [
      | inl hit ↦
          subst (IsFirst cursor) (some-injective (sym (walk_hit fuel cursor more hit) ∙ h))
            ((0, omega arith, λ j lt. absurd (omega arith)), leb→le cursor deadline more, hit)
      | inr miss ↦
          IsFirst-next cursor miss
            (walk_minutes-some fuel (cursor + 60000) (sym (walk_miss fuel cursor more miss) ∙ h))
    ]
  ]

  -- The fuel is enough: where no result is given, no minute up to the deadline passes.
  walk_minutes-none :
      (fuel cursor : ℕ)
      → deadline < cursor + fuel * 60000
      → walk_minutes test fuel cursor deadline ≡ none
      → (k : ℕ) → cursor + k * 60000 ≤ deadline
      → test (cursor + k * 60000) ≡ false
  walk_minutes-none zero cursor room h k le = absurd (omega arith)
  walk_minutes-none (suc fuel) cursor room h k le = elim (Bool-cases (leb cursor deadline)) [
    | inr over ↦ absurd (ground (arith, over))
    | inl more ↦ elim (Bool-cases (test cursor)) [
      | inl hit ↦ cc (walk_hit fuel cursor more hit)
      | inr miss ↦
          shift cursor k miss
            (λ j lt.
              walk_minutes-none fuel (cursor + 60000) (omega arith)
                (sym (walk_miss fuel cursor more miss) ∙ h) j (omega arith))
            k (omega arith)
    ]
  ]

-- What the next firing after an instant is: a whole minute within the horizon that matches, and the
-- first one. Where there is none, no minute within the horizon matches.
abbrev pub IsNext : ParsedCron → ℕ → Option ℕ → Type 0
IsNext p after none =
    (s : ℕ) → s % 60000 ≡ 0 → after < s → s ≤ after + max_horizon * 60000 → matches p s ≡ false
IsNext p after (some t) =
    (t % 60000 ≡ 0)
    × (after < t)
    × (t ≤ after + max_horizon * 60000)
    × (matches p t ≡ true)
    × ((s : ℕ) → s % 60000 ≡ 0 → after < s → s < t → matches p s ≡ false)

module _ (p : ParsedCron) (after : ℕ) where
  at_minute : (s : ℕ) → s % 60000 ≡ 0 → after < s → (k : ℕ) × (s ≡ first_minute after + k * 60000)
  at_minute s whole later = (s / 60000 - (after / 60000 + 1), omega arith)

  IsFirst-IsNext :
      (t : ℕ)
      → IsFirst (matches p) (after + max_horizon * 60000) (first_minute after) t
      → IsNext p after (some t)
  IsFirst-IsNext t ((k, at, before), in_time, hit) = (
    omega arith,
    omega arith,
    in_time,
    hit,
    λ s whole later earlier.
        let (j, is) = at_minute s whole later in
        subst (λ x. matches p x ≡ false) (sym is) (before j (omega arith)),
  )

  next_match-IsNext : (o : Option ℕ) → next_match p after ≡ o → IsNext p after o
  next_match-IsNext none h = λ s whole later in_time.
      let (j, is) = at_minute s whole later in
      subst (λ x. matches p x ≡ false) (sym is)
        (walk_minutes-none (matches p) (after + max_horizon * 60000) max_horizon
          (first_minute after) (omega arith) h j (omega arith))
  next_match-IsNext (some t) h = IsFirst-IsNext t (
      walk_minutes-some (matches p) (after + max_horizon * 60000) max_horizon (first_minute after)
        h)

-- If an expression parses, its next firing after an instant is the first whole minute after the instant
-- that matches it, and none is given exactly when no minute of the next 366 days matches.
pub next_fire_time-IsNext :
    (other_number : List ℕ → ℕ) (expr : List ℕ) (after : ℕ) {p : ParsedCron}
    → parse_cron other_number expr ≡ parsed p
    → (o : Option ℕ) × (next_fire_time other_number expr after ≡ parsed o) × IsNext p after o
unfolding next_fire_time
next_fire_time-IsNext other_number expr after {p = p} h = (
  next_match p after,
  ap (λ m. m >>= λ p. parsed (next_match p after)) h,
  next_match-IsNext p after (next_match p after) refl,
)
