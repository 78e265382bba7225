-- ===== src/Triggers/Cron.antt =====
-- The evaluator of cron expressions (src/triggers/cron.ts). Texts are lists of character codes, and an
-- instant is its milliseconds since 1970.
pub mod Bounds
pub mod First
pub mod Due
use nightshift0s.Prelude.{
  ℕ, zero, suc, ◌+◌, ◌-◌, ◌*◌, ◌/◌, ◌%◌, String, Bool, true, false, not, ◌&&◌, ◌||◌, Option, none,
  some, List, [], ◌∷◌, ◌++◌, ◌==◌, nat_Eq, string_Eq, contains, is_empty, length, keep, ltb, leb,
  if◌then◌else◌,
}
use nightshift0s.Prelude.Text.{codes, trim, split_on, words}

-- The errors, in place of their texts.
pub data CronError : Type 0 where
  field_count empty_term invalid_step not_an_integer out_of_range inverted_range no_values :
      CronError

pub data Parsed {ℓ} (A : Type ℓ) : Type ℓ where
  parsed : A → Parsed A
  error : CronError → Parsed A

infixl 5 ◌>>=◌
abbrev pub ◌>>=◌ {ℓ κ} : {A : Type ℓ} {B : Type κ} → Parsed A → (A → Parsed B) → Parsed B
parsed a >>= f = f a
error e >>= f = error e

pub record FieldBounds : Type 0 where
  pub min : ℕ
  pub max : ℕ
  pub is_day_of_week : Bool

abbrev bounds : ℕ → ℕ → FieldBounds
bounds min max = record { min = min; max = max; is_day_of_week = false }

abbrev pub minute_bounds : FieldBounds
minute_bounds = bounds 0 59

abbrev pub hour_bounds : FieldBounds
hour_bounds = bounds 0 23

abbrev pub day_of_month_bounds : FieldBounds
day_of_month_bounds = bounds 1 31

abbrev pub month_bounds : FieldBounds
month_bounds = bounds 1 12

abbrev pub day_of_week_bounds : FieldBounds
day_of_week_bounds = record { min = 0; max = 6; is_day_of_week = true }

-- The text before the first of a character, and the text after it.
abbrev put_first : ℕ → Option (List ℕ × List ℕ) → Option (List ℕ × List ℕ)
put_first c none = none
put_first c (some (before, after)) = some (c ∷ before, after)

abbrev pub cut_at : ℕ → List ℕ → Option (List ℕ × List ℕ)
cut_at mark [] = none
cut_at mark (c ∷ cs) =
    let rest = put_first c (cut_at mark cs) in if c == mark then some ([], cs) else rest

abbrev pub is_digit : ℕ → Bool
is_digit c = leb b'0' c && leb c b'9'

abbrev pub all_digits : List ℕ → Bool
all_digits [] = true
all_digits (c ∷ cs) = is_digit c && all_digits cs

abbrev pub digits_value : ℕ → List ℕ → ℕ
digits_value n [] = n
digits_value n (c ∷ cs) = digits_value (n * 10 + (c - b'0')) cs

-- `/^\d+$/`
abbrev pub is_number : List ℕ → Bool
is_number cs = not (is_empty cs) && all_digits cs

abbrev pub fold_sunday : FieldBounds → ℕ → ℕ
fold_sunday f n = if f.is_day_of_week && n == 7 then 0 else n

abbrev pub within : FieldBounds → ℕ → Parsed ℕ
within f v = if ltb v f.min || ltb f.max v then error out_of_range else parsed v

unfoldable pub parse_value : List ℕ → FieldBounds → Parsed ℕ
parse_value raw f =
    let trimmed = trim raw in
    if not (is_number trimmed)
    then error not_an_integer
    else within f (fold_sunday f (digits_value 0 trimmed))

-- `for (let v = lo; v <= hi; v += step)`; there are at most as many rounds as values.
abbrev pub steps : ℕ → ℕ → ℕ → ℕ → List ℕ
steps zero v hi step = []
steps (suc fuel) v hi step =
    let rest = steps fuel (v + step) hi step in if leb v hi then v ∷ rest else []

-- A set, in the order of insertion.
abbrev pub add_values : List ℕ → List ℕ → List ℕ
add_values out [] = out
add_values out (v ∷ vs) = add_values (if contains out v then out else out ++ v ∷ []) vs

abbrev pub parse_dashed : FieldBounds → List ℕ × List ℕ → Parsed (ℕ × ℕ)
parse_dashed f (before, after) = do
  lo ← parse_value before f
  hi ← parse_value after f
  if ltb hi lo then error inverted_range else parsed (lo, hi)

-- A value with a step walks to the end of the field.
abbrev pub parse_single : FieldBounds → Bool → List ℕ → Parsed (ℕ × ℕ)
parse_single f stepped range = do
  lo ← parse_value range f
  parsed (lo, if stepped then f.max else lo)

abbrev pub parse_bounds : FieldBounds → Bool → List ℕ → Option (List ℕ × List ℕ) → Parsed (ℕ × ℕ)
parse_bounds f stepped range none = parse_single f stepped range
parse_bounds f stepped range (some p) = parse_dashed f p

abbrev pub is_star : List ℕ → Bool
is_star (c ∷ []) = c == b'*'
is_star _ = false

unfoldable pub parse_range : FieldBounds → Bool → List ℕ → Parsed (ℕ × ℕ)
parse_range f stepped range =
    if is_star range
    then parsed (f.min, f.max)
    else parse_bounds f stepped range (cut_at b'-' range)

-- `Number(text)` of a step is its value where it is digits that a double holds exactly. `other_number`
-- is what the language reads in another text (`1e1`, `0x10`), with 0 where that is no positive integer.
module _ (other_number : List ℕ → ℕ) where
  abbrev pub step_value : List ℕ → ℕ
  step_value raw =
      if is_number raw && leb (length raw) 15 then digits_value 0 raw else other_number raw

  abbrev pub parse_step : Option (List ℕ × List ℕ) → List ℕ → Parsed (List ℕ × ℕ)
  parse_step none piece = parsed (piece, 1)
  parse_step (some (range, raw)) piece =
      if step_value raw == 0 then error invalid_step else parsed (range, step_value raw)

  abbrev pub stepped : Option (List ℕ × List ℕ) → Bool
  stepped none = false
  stepped (some p) = true

  unfoldable pub parse_term : FieldBounds → List ℕ → Parsed (List ℕ)
  parse_term f part =
      let piece = trim part in
      let slash = cut_at b'/' piece in
      if is_empty piece then error empty_term else do
        (range, step) ← parse_step slash piece
        (lo, hi) ← parse_range f (stepped slash) range
        parsed (steps (suc (hi - lo)) lo hi step)

  abbrev pub parse_terms : FieldBounds → List ℕ → List (List ℕ) → Parsed (List ℕ)
  parse_terms f out [] = parsed out
  parse_terms f out (part ∷ parts) = do
    vs ← parse_term f part
    parse_terms f (add_values out vs) parts

  abbrev pub non_empty : List ℕ → Parsed (List ℕ)
  non_empty [] = error no_values
  non_empty (v ∷ vs) = parsed (v ∷ vs)

  unfoldable pub parse_field : FieldBounds → List ℕ → Parsed (List ℕ)
  parse_field f raw = do out ← parse_terms f [] (split_on b',' raw); non_empty out

pub record ParsedCron : Type 0 where
  pub minute : List ℕ
  pub hour : List ℕ
  pub day_of_month : List ℕ
  pub month : List ℕ
  pub day_of_week : List ℕ
  pub dom_restricted : Bool
  pub dow_restricted : Bool

abbrev pub parse_fields : (List ℕ → ℕ) → List (List ℕ) → Parsed ParsedCron
parse_fields other_number (m ∷ h ∷ dom ∷ mon ∷ dow ∷ []) = do
  minute ← parse_field other_number minute_bounds m
  hour ← parse_field other_number hour_bounds h
  day_of_month ← parse_field other_number day_of_month_bounds dom
  month ← parse_field other_number month_bounds mon
  day_of_week ← parse_field other_number day_of_week_bounds dow
  parsed (record {
    minute = minute;
    hour = hour;
    day_of_month = day_of_month;
    month = month;
    day_of_week = day_of_week;
    dom_restricted = not (is_star dom);
    dow_restricted = not (is_star dow);
  })
parse_fields other_number fields = error field_count

unfoldable pub parse_cron : (List ℕ → ℕ) → List ℕ → Parsed ParsedCron
parse_cron other_number expr = parse_fields other_number (words (trim expr))

-- The parts of an instant in UTC, by the calendar of the language's `Date`.
abbrev pub minute_ms : ℕ
minute_ms = 60000

abbrev pub utc_minutes : ℕ → ℕ
utc_minutes t = t / 60000 % 60

abbrev pub utc_hours : ℕ → ℕ
utc_hours t = t / 3600000 % 24

abbrev utc_day_number : ℕ → ℕ
utc_day_number t = t / 86400000

-- The first of January 1970 was a Thursday.
abbrev pub utc_day : ℕ → ℕ
utc_day t = (utc_day_number t + 4) % 7

-- The month (from 0, March) and the date of a day of a year that begins in March.
abbrev month_of : ℕ → ℕ × ℕ
month_of day = let march = (5 * day + 2) / 153 in (march, day - (153 * march + 2) / 5 + 1)

abbrev day_of_year : ℕ → ℕ
day_of_year day =
    let in_era = (day + 719468) % 146097 in
    let year = (in_era - in_era / 1460 + in_era / 36524 - in_era / 146096) / 365 in
    in_era - (365 * year + year / 4 - year / 100)

-- From 0.
abbrev pub utc_month : ℕ → ℕ
utc_month t = ((month_of (day_of_year (utc_day_number t))).0 + 2) % 12

abbrev pub utc_date : ℕ → ℕ
utc_date t = (month_of (day_of_year (utc_day_number t))).1

unfoldable pub matches : ParsedCron → ℕ → Bool
matches p t =
    contains p.minute (utc_minutes t)
    && contains p.hour (utc_hours t)
    && contains p.month (utc_month t + 1)
    && (if p.dom_restricted && p.dow_restricted
        then contains p.day_of_month (utc_date t) || contains p.day_of_week (utc_day t)
        else contains p.day_of_month (utc_date t) && contains p.day_of_week (utc_day t))

-- 366 days, in minutes.
abbrev pub max_horizon : ℕ
max_horizon = 527040

-- The loop over the cursor; a round takes it one minute on.
abbrev pub walk_minutes : (ℕ → Bool) → ℕ → ℕ → ℕ → Option ℕ
walk_minutes test zero cursor deadline = none
walk_minutes test (suc fuel) cursor deadline =
    let rest = walk_minutes test fuel (cursor + minute_ms) deadline in
    if leb cursor deadline then if test cursor then some cursor else rest else none

abbrev pub first_minute : ℕ → ℕ
first_minute after = (after / minute_ms + 1) * minute_ms

abbrev pub next_match : ParsedCron → ℕ → Option ℕ
next_match p after =
    walk_minutes (matches p) max_horizon (first_minute after) (after + max_horizon * minute_ms)

unfoldable pub next_fire_time : (List ℕ → ℕ) → List ℕ → ℕ → Parsed (Option ℕ)
next_fire_time other_number expr after = do
  p ← parse_cron other_number expr
  parsed (next_match p after)

pub data TriggerKind : Type 0 where
  manual cron webhook chat : TriggerKind

abbrev pub is_cron : TriggerKind → Bool
is_cron cron = true
is_cron _ = false

pub record TriggerRow : Type 0 where
  pub id : ℕ
  pub routine_id : ℕ
  pub kind : TriggerKind
  pub schedule : Option String
  pub dry_run_default : Bool
  pub enabled : Bool
  pub last_fired_at : Option String

-- The condition of the query.
abbrev pub is_enabled_cron : TriggerRow → Bool
is_enabled_cron row = is_cron row.kind && row.enabled

-- `Date.parse` is a parameter, with `none` where it is no number.
module _ (other_number : List ℕ → ℕ) (parse_date : String → Option ℕ) where
  abbrev or_zero : Option ℕ → ℕ
  or_zero none = 0
  or_zero (some t) = t

  abbrev pub parse_after : Option String → ℕ
  parse_after none = 0
  parse_after (some s) = if s == "" then 0 else or_zero (parse_date s)

  abbrev pub is_due_at : ℕ → Parsed (Option ℕ) → Bool
  is_due_at now (parsed (some next)) = leb next now
  is_due_at now _ = false

  abbrev pub schedule_due : ℕ → Option String → Option String → Bool
  schedule_due now last none = false
  schedule_due now last (some s) =
      not (s == "") && is_due_at now (next_fire_time other_number (codes s) (parse_after last))

  abbrev pub is_due : ℕ → TriggerRow → Bool
  is_due now row = schedule_due now row.last_fired_at row.schedule

  -- The rows in the order of the query.
  unfoldable pub due_triggers : List TriggerRow → ℕ → List TriggerRow
  due_triggers rows now = keep (is_due now) (keep is_enabled_cron rows)
