-- ===== src/Triggers/Cron/Due.antt =====
-- Which triggers are due (src/triggers/cron.ts).
use nightshift0s.Prelude.{
  In, In-keep, ℕ, ◌+◌, ◌*◌, ◌%◌, ◌≤◌, ◌<◌, String, Bool, true, false, not, ◌&&◌, Option, none, some,
  List, ◌==◌, string_Eq, ◌≡◌, ◌↔◌, refl, ap, sym, ◌∙◌, subst, arith, keep, leb→le, ltb, ltb→lt, inl,
  inr, Bool-cases,
}
use nightshift0s.Prelude.Text.{codes}
use nightshift0s.Triggers.Cron.{
  Parsed, parsed, error, CronError, next_match, ◌>>=◌, ParsedCron, parse_cron, max_horizon, matches,
  next_fire_time, TriggerRow, is_enabled_cron, parse_after, is_due_at, schedule_due, is_due,
  due_triggers,
}
use nightshift0s.Triggers.Cron.First.{IsNext, next_fire_time-IsNext}

unless-true : (b c : Bool) → not b && c ≡ true → (b ≡ false) × (c ≡ true)
unless-true true c h = cc
unless-true false c h = (refl, h)

of-unless : (b c : Bool) → b ≡ false → c ≡ true → not b && c ≡ true
of-unless b c h k = rw (h, k) refl

module _ (other_number : List ℕ → ℕ) (parse_date : String → Option ℕ) (now : ℕ) where
  -- A whole minute after the last firing, within the horizon and not after now, that matches.
  abbrev pub HasFiring : ℕ → String → Type 0
  HasFiring after s =
      (p : ParsedCron) × (t : ℕ) × (parse_cron other_number (codes s) ≡ parsed p)
      × (t % 60000 ≡ 0)
      × (after < t)
      × (t ≤ after + max_horizon * 60000)
      × (t ≤ now)
      × (matches p t ≡ true)

  abbrev pub IsDue : TriggerRow → Type 0
  IsDue row =
      (s : String) × (row.schedule ≡ some s)
      × ((s == "") ≡ false)
      × HasFiring (parse_after other_number parse_date row.last_fired_at) s

  failed :
      (after : ℕ) (expr : List ℕ) (e : CronError)
      → parse_cron other_number expr ≡ error e
      → next_fire_time other_number expr after ≡ error e
  unfolding next_fire_time
  failed after expr e h = ap (λ m. m >>= λ p. parsed (next_match p after)) h

  given :
      (after : ℕ) (s : String) (p : ParsedCron) (o : Option ℕ)
      → parse_cron other_number (codes s) ≡ parsed p
      → IsNext p after o
      → is_due_at other_number parse_date now (parsed o) ≡ true
      → HasFiring after s
  given after s p none is next h = cc
  given after s p (some t) is (whole, later, near, hit, first) h =
      (p, t, is, whole, later, near, leb→le t now h, hit)

  firing-of :
      (after : ℕ) (s : String) (m : Parsed ParsedCron)
      → parse_cron other_number (codes s) ≡ m
      → is_due_at other_number parse_date now (next_fire_time other_number (codes s) after) ≡ true
      → HasFiring after s
  firing-of after s (error e) is h =
      cc (ap (is_due_at other_number parse_date now) (failed after (codes s) e is), h)
  firing-of after s (parsed p) is h =
      let (o, o_is, next) = next_fire_time-IsNext other_number (codes s) after is in
      given after s p o is next (ap (is_due_at other_number parse_date now) (sym o_is) ∙ h)

  due_next :
      (after t : ℕ) (p : ParsedCron) (o : Option ℕ)
      → IsNext p after o
      → t % 60000 ≡ 0
      → after < t
      → t ≤ after + max_horizon * 60000
      → t ≤ now
      → matches p t ≡ true
      → is_due_at other_number parse_date now (parsed o) ≡ true
  due_next after t p none next whole later near past hit = cc (next t whole later near, hit)
  due_next after t p (some u) (_, _, _, _, first) whole later near past hit =
      elim (Bool-cases (ltb t u)) [
        | inl earlier ↦ cc (first t whole later (ltb→lt t u earlier), hit)
        | inr other ↦ ground (arith, other)
      ]

  of-firing :
      (after : ℕ) (s : String)
      → HasFiring after s
      → is_due_at other_number parse_date now (next_fire_time other_number (codes s) after) ≡ true
  of-firing after s (p, t, is, whole, later, near, past, hit) =
      let (o, o_is, next) = next_fire_time-IsNext other_number (codes s) after is in
      ap (is_due_at other_number parse_date now) o_is
      ∙ due_next after t p o next whole later near past hit

  schedule_due_iff :
      (last schedule : Option String)
      → (schedule_due other_number parse_date now last schedule ≡ true) ↔ (
          (s : String) × (schedule ≡ some s)
          × ((s == "") ≡ false)
          × HasFiring (parse_after other_number parse_date last) s)
  schedule_due_iff last none = (λ h. cc, λ h. cc (h.1))
  schedule_due_iff last (some s) = (
    λ h.
        let (given, due) = unless-true (s == "") _ h in
        (s, refl, given, firing-of (parse_after other_number parse_date last) s _ refl due),
    λ h.
        let (s', same, given, firing) = h in
        subst (λ r. schedule_due other_number parse_date now last r ≡ true) (sym same)
          (of-unless (s' == "") _ given
            (of-firing (parse_after other_number parse_date last) s' firing)),
  )

-- The triggers that are due are the enabled ones of kind cron whose schedule is given and parses, and
-- which match a whole minute after their last firing (after 1970, if there is none), up to now and to
-- 366 days after that firing.
pub due_triggers_iff :
    (other_number : List ℕ → ℕ) (parse_date : String → Option ℕ) (rows : List TriggerRow) (now : ℕ)
    (row : TriggerRow)
    → In row (due_triggers other_number parse_date rows now)
      ↔ ((In row rows × (is_enabled_cron row ≡ true)) × IsDue other_number parse_date now row)
unfolding due_triggers
due_triggers_iff other_number parse_date rows now row =
    let iff = schedule_due_iff other_number parse_date now row.last_fired_at row.schedule in
    let outer = In-keep (is_due other_number parse_date now) row (keep is_enabled_cron rows) in
    let inner = In-keep is_enabled_cron row rows in
    (λ h. (inner.0 (outer.0 h).0, iff.0 (outer.0 h).1), λ h. outer.1 (inner.1 h.0, iff.1 h.1))
