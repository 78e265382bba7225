-- ===== src/Triggers/Examples.antt =====
-- Cron expressions at small inputs.
use nightshift0s.Prelude.{
  In, ℕ, String, true, false, Option, none, some, List, [], ◌∷◌, ◌≡◌, ◌↔◌, refl,
}
use nightshift0s.Prelude.Text.{codes}
use nightshift0s.Triggers.Cron.{
  parsed, error, inverted_range, parse_value, parse_range, parse_term, parse_field, parse_cron,
  ParsedCron, utc_month, utc_date, utc_day, utc_hours, utc_minutes, matches, day_of_week_bounds,
  next_fire_time, TriggerRow, cron, due_triggers, is_enabled_cron,
}
use nightshift0s.Triggers.Cron.Bounds.{IsBounded, parse_cron-IsBounded}
use nightshift0s.Triggers.Cron.First.{IsNext, next_fire_time-IsNext}
use nightshift0s.Triggers.Cron.Due.{IsDue, due_triggers_iff}

-- No text but digits is a step here.
abbrev no_number : List ℕ → ℕ
no_number cs = 0

abbrev no_date : String → Option ℕ
no_date s = none

-- 29 February 2024, 12:34
calendar :
    (utc_month 1709210040000 ≡ 1)
    × (utc_date 1709210040000 ≡ 29)
    × (utc_day 1709210040000 ≡ 4)
    × (utc_hours 1709210040000 ≡ 12)
    × (utc_minutes 1709210040000 ≡ 34)
calendar = (refl, refl, refl, refl, refl)

epoch : (utc_month 0 ≡ 0) × (utc_date 0 ≡ 1) × (utc_day 0 ≡ 4)
epoch = (refl, refl, refl)

steps_and_ranges :
    parse_field no_number day_of_week_bounds (codes "1-5/2,0") ≡ parsed (1 ∷ 3 ∷ 5 ∷ 0 ∷ [])
unfolding parse_field parse_term parse_range parse_value
steps_and_ranges = refl

-- A range that ends in Sunday as 7 is refused, and the whole week is read as Sunday alone.
to_sunday : parse_field no_number day_of_week_bounds (codes "5-7") ≡ error inverted_range
unfolding parse_field parse_term parse_range parse_value
to_sunday = refl

whole_week : parse_field no_number day_of_week_bounds (codes "0-7") ≡ parsed (0 ∷ [])
unfolding parse_field parse_term parse_range parse_value
whole_week = refl

abbrev half_hours : ParsedCron
half_hours = record {
  minute = 0 ∷ 30 ∷ [];
  hour = 9 ∷ [];
  day_of_month = 1 ∷ [];
  month = 2 ∷ [];
  day_of_week = 1 ∷ [];
  dom_restricted = true;
  dow_restricted = true;
}

half_hours_parsed : parse_cron no_number (codes " 0,30 9 1  2 1 ") ≡ parsed half_hours
unfolding parse_cron parse_field parse_term parse_range parse_value
half_hours_parsed = refl

parse_cron-IsBounded_example : IsBounded half_hours
parse_cron-IsBounded_example =
    parse_cron-IsBounded no_number (codes " 0,30 9 1  2 1 ") {p = half_hours} half_hours_parsed

next_fire_time-IsNext_example :
    (o : Option ℕ) × (next_fire_time no_number (codes " 0,30 9 1  2 1 ") 0 ≡ parsed o)
    × IsNext half_hours 0 o
next_fire_time-IsNext_example =
    next_fire_time-IsNext no_number (codes " 0,30 9 1  2 1 ") 0 {p = half_hours} half_hours_parsed

abbrev row : TriggerRow
row = record {
  id = 1;
  routine_id = 1;
  kind = cron;
  schedule = some " 0,30 9 1  2 1 ";
  dry_run_default = false;
  enabled = true;
  last_fired_at = none;
}

due_triggers_iff_example :
    In row (due_triggers no_number no_date (row ∷ []) 5)
    ↔ ((In row (row ∷ []) × (is_enabled_cron row ≡ true)) × IsDue no_number no_date 5 row)
due_triggers_iff_example = due_triggers_iff no_number no_date (row ∷ []) 5 row

-- A trigger that never fired is due at once, whatever the minute of now is.
never_fired_due :
    due_triggers no_number no_date (record row { schedule = some "*/5 * * * *" } ∷ []) 1709210040000
    ≡ record row { schedule = some "*/5 * * * *" } ∷ []
unfolding due_triggers next_fire_time parse_cron parse_field parse_term parse_range parse_value
    matches
never_fired_due = refl
