-- ===== src/Triggers/Cron/Bounds.antt =====
-- The values of a parsed expression (src/triggers/cron.ts).
use nightshift0s.Prelude.{
  ℕ, zero, suc, ◌+◌, ◌-◌, ◌≤◌, Bool, true, false, not, Option, none, some, List, [], ◌∷◌, ◌++◌,
  nat_Eq, ◌≡◌, refl, subst, ap, sym, ◌∙◌, arith, All, All-append, contains, is_empty, ltb, leb,
  if◌then◌else◌, inl, inr, Bool-cases,
}
use nightshift0s.Prelude.Text.{trim, split_on, words}
use nightshift0s.Db.Rows.{All-map}
use nightshift0s.Triggers.Cron
use nightshift0s.Triggers.Cron.{
  Parsed, parsed, error, CronError, ◌>>=◌, FieldBounds, minute_bounds, hour_bounds,
  day_of_month_bounds, month_bounds, day_of_week_bounds, within, fold_sunday, is_number,
  digits_value, parse_value, steps, add_values, parse_dashed, parse_single, parse_bounds, is_star,
  parse_range, parse_step, stepped, parse_term, parse_terms, non_empty, parse_field, parse_fields,
  parse_cron, ParsedCron, cut_at,
}

-- What a chain of steps that gives a value has given on the way.
bind-parsed {ℓ κ} :
    {A : Type ℓ} {B : Type κ} (m : Parsed A) (f : A → Parsed B) {b : B}
    → (m >>= f) ≡ parsed b
    → (a : A) × (m ≡ parsed a) × (f a ≡ parsed b)
bind-parsed (parsed a) f h = (a, refl, h)
bind-parsed (error e) f h = cc

parsed-injective {ℓ} : {A : Type ℓ} {a b : A} → parsed a ≡ parsed b → a ≡ b
parsed-injective h = cc

unless-parsed {ℓ} :
    {A : Type ℓ} (c : Bool) (e : CronError) (m : Parsed A) {a : A}
    → (if c then error e else m) ≡ parsed a
    → (c ≡ false) × (m ≡ parsed a)
unless-parsed true e m h = cc
unless-parsed false e m h = (refl, h)

module _ (f : FieldBounds) where
  abbrev pub IsWithin : ℕ → Type 0
  IsWithin v = (f.min ≤ v) × (v ≤ f.max)

  abbrev IsWithinRange : ℕ × ℕ → Type 0
  IsWithinRange (lo, hi) = (f.min ≤ lo) × (lo ≤ hi) × (hi ≤ f.max)

  within-IsWithin : (n v : ℕ) → within f n ≡ parsed v → IsWithin v
  within-IsWithin n v h = (ground arith, ground arith)

  parse_value-IsWithin : (raw : List ℕ) (v : ℕ) → parse_value raw f ≡ parsed v → IsWithin v
  unfolding parse_value
  parse_value-IsWithin raw v h =
      within-IsWithin (fold_sunday f (digits_value 0 (trim raw))) v
        (unless-parsed (not (is_number (trim raw))) Cron.not_an_integer _ h).1

  parse_dashed-IsWithin :
      (p : List ℕ × List ℕ) (r : ℕ × ℕ) → parse_dashed f p ≡ parsed r → IsWithinRange r
  parse_dashed-IsWithin (before, after) r h =
      let (lo, lo_is, h) = bind-parsed (parse_value before f) _ h in
      let (hi, hi_is, h) = bind-parsed (parse_value after f) _ h in
      let (up, h) = unless-parsed (ltb hi lo) Cron.inverted_range _ h in
      let low = parse_value-IsWithin before lo lo_is in
      let high = parse_value-IsWithin after hi hi_is in
      subst IsWithinRange (parsed-injective h) (low.0, ground (arith, up), high.1)

  parse_single-IsWithin :
      (is_stepped : Bool) (range : List ℕ) (r : ℕ × ℕ)
      → parse_single f is_stepped range ≡ parsed r
      → IsWithinRange r
  parse_single-IsWithin is_stepped range r h =
      let (lo, lo_is, h) = bind-parsed (parse_value range f) _ h in
      let low = parse_value-IsWithin range lo lo_is in
      subst IsWithinRange (parsed-injective h) (low.0, ground (arith, low.1), ground (arith, low.1))

  parse_bounds-IsWithin :
      (is_stepped : Bool) (range : List ℕ) (cut : Option (List ℕ × List ℕ)) (r : ℕ × ℕ)
      → parse_bounds f is_stepped range cut ≡ parsed r
      → IsWithinRange r
  parse_bounds-IsWithin is_stepped range none r h = parse_single-IsWithin is_stepped range r h
  parse_bounds-IsWithin is_stepped range (some p) r h = parse_dashed-IsWithin p r h

  parse_range-IsWithin :
      (is_stepped : Bool) (range : List ℕ) (r : ℕ × ℕ)
      → f.min ≤ f.max
      → parse_range f is_stepped range ≡ parsed r
      → IsWithinRange r
  unfolding parse_range
  parse_range-IsWithin is_stepped range r room h = elim (Bool-cases (is_star range)) [
    | inl star ↦
        subst IsWithinRange
          (parsed-injective (
            ap
              (λ b.
                if b
                then parsed (f.min, f.max)
                else parse_bounds f is_stepped range (cut_at b'-' range))
              (sym star)
            ∙ h))
          (omega arith, room, omega arith)
    | inr other ↦ parse_bounds-IsWithin is_stepped range (cut_at b'-' range) r (
        ap
          (λ b.
            if b
            then parsed (f.min, f.max)
            else parse_bounds f is_stepped range (cut_at b'-' range))
          (sym other)
        ∙ h)
  ]

  steps-All :
      (fuel v lo hi step : ℕ) → lo ≤ v → All (λ x. (lo ≤ x) × (x ≤ hi)) (steps fuel v hi step)
  steps-All zero v lo hi step h = tt
  steps-All (suc fuel) v lo hi step h = elim (Bool-cases (leb v hi)) [
    | inl more ↦
        rw more ((h, ground (arith, more)), steps-All fuel (v + step) lo hi step (omega arith))
    | inr over ↦ rw over tt
  ]

  steps-not_empty : (fuel v hi step : ℕ) → v ≤ hi → is_empty (steps (suc fuel) v hi step) ≡ false
  steps-not_empty fuel v hi step h = ground arith

add_values-All :
    (P : ℕ → Type 0) (out vs : List ℕ) → All P out → All P vs → All P (add_values out vs)
add_values-All P out [] h k = h
add_values-All P out (v ∷ vs) h k = elim (Bool-cases (contains out v)) [
  | inl old ↦ rw old (add_values-All P out vs h k.1)
  | inr new ↦
      rw new (add_values-All P (out ++ v ∷ []) vs (All-append P out (v ∷ []) h (k.0, tt)) k.1)
]

abbrev pub IsField : FieldBounds → List ℕ → Type 0
IsField f vs = All (IsWithin f) vs × (is_empty vs ≡ false)

module _ (other_number : List ℕ → ℕ) (f : FieldBounds) (room : f.min ≤ f.max) where
  parse_term-IsWithin :
      (part vs : List ℕ)
      → parse_term other_number f part ≡ parsed vs
      → All (IsWithin f) vs × (is_empty vs ≡ false)
  unfolding parse_term
  parse_term-IsWithin part vs h =
      let piece = trim part in
      let slash = cut_at b'/' piece in
      let h = (unless-parsed (is_empty piece) Cron.empty_term _ h).1 in
      let (p, p_is, h) = bind-parsed (parse_step other_number slash piece) _ h in
      let (r, r_is, h) = bind-parsed (parse_range f (stepped other_number slash) p.0) _ h in
      let (low, up, high) = parse_range-IsWithin f (stepped other_number slash) p.0 r room r_is in
      subst (λ vs. All (IsWithin f) vs × (is_empty vs ≡ false)) (parsed-injective h)
        (
          All-map (steps (suc (r.1 - r.0)) r.0 r.1 p.1)
              (λ x k. (omega (arith, low, k.0), omega (arith, high, k.1)))
              (steps-All f (suc (r.1 - r.0)) r.0 r.0 r.1 p.1 (omega arith)),
          steps-not_empty f (r.1 - r.0) r.0 r.1 p.1 up,
        )

  parse_terms-IsWithin :
      (out : List ℕ) (parts : List (List ℕ)) (vs : List ℕ)
      → All (IsWithin f) out
      → parse_terms other_number f out parts ≡ parsed vs
      → All (IsWithin f) vs
  parse_terms-IsWithin out [] vs k h = subst (All (IsWithin f)) (parsed-injective h) k
  parse_terms-IsWithin out (part ∷ parts) vs k h =
      let (us, us_is, h) = bind-parsed (parse_term other_number f part) _ h in
      parse_terms-IsWithin (add_values out us) parts vs
        (add_values-All (IsWithin f) out us k (parse_term-IsWithin part us us_is).0) h

  non_empty-parsed :
      (us vs : List ℕ) → non_empty other_number us ≡ parsed vs → (us ≡ vs) × (is_empty vs ≡ false)
  non_empty-parsed [] vs h = cc
  non_empty-parsed (u ∷ us) vs h = (parsed-injective h, ap is_empty (sym (parsed-injective h)))

  parse_field-IsField :
      (raw vs : List ℕ) → parse_field other_number f raw ≡ parsed vs → IsField f vs
  unfolding parse_field
  parse_field-IsField raw vs h =
      let (us, us_is, h) = bind-parsed (parse_terms other_number f [] (split_on b',' raw)) _ h in
      let (same, some_value) = non_empty-parsed us vs h in
      (
        subst (All (IsWithin f)) same (parse_terms-IsWithin [] (split_on b',' raw) us tt us_is),
        some_value,
      )

pub record IsBounded (p : ParsedCron) : Type 0 where
  pub minutes : IsField minute_bounds p.minute
  pub hours : IsField hour_bounds p.hour
  pub days_of_month : IsField day_of_month_bounds p.day_of_month
  pub months : IsField month_bounds p.month
  pub days_of_week : IsField day_of_week_bounds p.day_of_week

parse_fields-IsBounded :
    (other_number : List ℕ → ℕ) (fields : List (List ℕ)) (p : ParsedCron)
    → parse_fields other_number fields ≡ parsed p
    → IsBounded p
parse_fields-IsBounded other_number (m ∷ h ∷ dom ∷ mon ∷ dow ∷ []) p e =
    let (minute, minute_is, e) = bind-parsed (parse_field other_number minute_bounds m) _ e in
    let (hour, hour_is, e) = bind-parsed (parse_field other_number hour_bounds h) _ e in
    let (date, date_is, e) = bind-parsed (parse_field other_number day_of_month_bounds dom) _ e in
    let (month, month_is, e) = bind-parsed (parse_field other_number month_bounds mon) _ e in
    let (day, day_is, e) = bind-parsed (parse_field other_number day_of_week_bounds dow) _ e in
    subst IsBounded (parsed-injective e) (record {
      minutes = parse_field-IsField other_number minute_bounds (omega arith) m minute minute_is;
      hours = parse_field-IsField other_number hour_bounds (omega arith) h hour hour_is;
      days_of_month =
          parse_field-IsField other_number day_of_month_bounds (omega arith) dom date date_is;
      months = parse_field-IsField other_number month_bounds (omega arith) mon month month_is;
      days_of_week =
          parse_field-IsField other_number day_of_week_bounds (omega arith) dow day day_is;
    })
parse_fields-IsBounded other_number fields p e = cc

-- Each field of an expression that parses has a value, and all its values are within the field's
-- bounds: minutes from 0 to 59, hours to 23, dates from 1 to 31, months from 1 to 12, and days of the
-- week from 0 to 6.
pub parse_cron-IsBounded :
    (other_number : List ℕ → ℕ) (expr : List ℕ) {p : ParsedCron}
    → parse_cron other_number expr ≡ parsed p
    → IsBounded p
unfolding parse_cron
parse_cron-IsBounded other_number expr {p = p} h =
    parse_fields-IsBounded other_number (words (trim expr)) p h
