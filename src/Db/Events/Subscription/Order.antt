-- ===== src/Db/Events/Subscription/Order.antt =====
-- Lists of events by their sequence numbers (src/events/events.ts).
use nightshift0s.Prelude.{
  ℕ, max, ◌≤◌, ◌<◌, ◌≡◌, refl, ap, inl, inr, Bool, true, false, List, [], ◌∷◌, ◌++◌, keep, All,
  All-keep, ltb, leb, arith, Bool-cases,
}
use nightshift0s.Db.Rows.{All-map}
use nightshift0s.Db.Events.{EventRow, max_seq}

-- The last number after some deliveries.
abbrev pub top : ℕ → List EventRow → ℕ
top n [] = n
top n (e ∷ rows) = top (max n e.seq) rows

abbrev pub later : ℕ → List EventRow → List EventRow
later n rows = keep (λ e. ltb n e.seq) rows

abbrev pub IsAscending : List EventRow → Type 0
IsAscending [] = Unit
IsAscending (e ∷ rows) = All (λ x. e.seq < x.seq) rows × IsAscending rows

abbrev pub AllBelow : ℕ → List EventRow → Type 0
AllBelow n rows = All (λ x. x.seq ≤ n) rows

pub keep-append :
    (p : EventRow → Bool) (xs ys : List EventRow) → keep p (xs ++ ys) ≡ keep p xs ++ keep p ys
keep-append p [] ys = refl
keep-append p (x ∷ xs) ys = elim (Bool-cases (p x)) [
  | inl kept ↦ rw kept (ap (λ r. x ∷ r) (keep-append p xs ys))
  | inr gone ↦ rw gone (keep-append p xs ys)
]

pub append_assoc : (xs ys zs : List EventRow) → (xs ++ ys) ++ zs ≡ xs ++ (ys ++ zs)
append_assoc [] ys zs = refl
append_assoc (x ∷ xs) ys zs = ap (λ r. x ∷ r) (append_assoc xs ys zs)

pub append-nil : (xs : List EventRow) → xs ++ [] ≡ xs
append-nil [] = refl
append-nil (x ∷ xs) = ap (λ r. x ∷ r) (append-nil xs)

later-beyond : (n : ℕ) (rows : List EventRow) → All (λ x. n < x.seq) rows → later n rows ≡ rows
later-beyond n [] h = refl
later-beyond n (x ∷ rows) h = ground (arith, later-beyond n rows h.1)

pub later-none : (n : ℕ) (rows : List EventRow) → AllBelow n rows → later n rows ≡ []
later-none n [] h = refl
later-none n (x ∷ rows) h = ground (arith, later-none n rows h.1)

pub later-old :
    (n : ℕ) (e : EventRow) (q : List EventRow) → leb e.seq n ≡ true → later n (e ∷ q) ≡ later n q
later-old n e q h = ground arith

pub later-new :
    (n : ℕ) (e : EventRow) (q : List EventRow)
    → leb e.seq n ≡ false
    → All (λ x. e.seq < x.seq) q
    → later n (e ∷ q) ≡ e ∷ later e.seq q
later-new n e q h beyond =
    let kept = later-beyond n q (All-map q (λ x l. ground arith) beyond) in
    ground (arith, kept, later-beyond e.seq q beyond)

pub top-ge : (n : ℕ) (rows : List EventRow) → n ≤ top n rows
top-ge n [] = omega arith
top-ge n (e ∷ rows) = omega (arith, top-ge (max n e.seq) rows)

pub top-le : (n m : ℕ) (rows : List EventRow) → AllBelow m rows → top n rows ≤ max n m
top-le n m [] h = omega arith
top-le n m (e ∷ rows) h = omega (arith, top-le (max n e.seq) m rows h.1, h.0)

pub top-append :
    (n : ℕ) (rows : List EventRow) (e : EventRow) → top n (rows ++ e ∷ []) ≡ max (top n rows) e.seq
top-append n [] e = refl
top-append n (x ∷ rows) e = top-append (max n x.seq) rows e

pub max_seq-append :
    (log : List EventRow) (e : EventRow) → max_seq (log ++ e ∷ []) ≡ max (max_seq log) e.seq
unfolding max_seq
max_seq-append [] e = omega arith
max_seq-append (x ∷ log) e = omega (arith, max_seq-append log e)

pub AllBelow-mono : (n m : ℕ) (rows : List EventRow) → n ≤ m → AllBelow n rows → AllBelow m rows
AllBelow-mono n m rows h = All-map rows (λ x l. omega arith)

pub AllBelow-append :
    (n m : ℕ) (rows : List EventRow) (e : EventRow)
    → n ≤ m
    → e.seq ≤ m
    → AllBelow n rows
    → AllBelow m (rows ++ e ∷ [])
AllBelow-append n m [] e h last below = (last, tt)
AllBelow-append n m (x ∷ rows) e h last below =
    (omega (arith, below.0), AllBelow-append n m rows e h last below.1)

pub AllBelow-max_seq : (log : List EventRow) → AllBelow (max_seq log) log
unfolding max_seq
AllBelow-max_seq [] = tt
AllBelow-max_seq (x ∷ log) = (
  omega arith,
  AllBelow-mono (max_seq log) (max x.seq (max_seq log)) log (omega arith) (AllBelow-max_seq log),
)

pub IsAscending-append :
    (n : ℕ) (rows : List EventRow) (e : EventRow)
    → AllBelow n rows
    → n < e.seq
    → IsAscending rows
    → IsAscending (rows ++ e ∷ [])
IsAscending-append n [] e below h asc = (tt, tt)
IsAscending-append n (x ∷ rows) e below h asc =
    (beyond rows asc.0, IsAscending-append n rows e below.1 h asc.1)
  where
    beyond :
        (ys : List EventRow) → All (λ y. x.seq < y.seq) ys → All (λ y. x.seq < y.seq) (ys ++ e ∷ [])
    beyond [] l = (omega (arith, below.0), tt)
    beyond (y ∷ ys) l = (l.0, beyond ys l.1)

pub IsAscending-keep :
    (p : EventRow → Bool) (rows : List EventRow) → IsAscending rows → IsAscending (keep p rows)
IsAscending-keep p [] asc = tt
IsAscending-keep p (x ∷ rows) asc = elim (Bool-cases (p x)) [
  | inl kept ↦ rw kept (All-keep (λ y. x.seq < y.seq) p rows asc.0, IsAscending-keep p rows asc.1)
  | inr gone ↦ rw gone (IsAscending-keep p rows asc.1)
]
