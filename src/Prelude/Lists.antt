-- ===== src/Prelude/Lists.antt =====
-- Lists measured by native numbers, and the searches that the program makes in them.
use Prim.Native.Nat.{ℕ, suc, ◌+◌, ◌≤◌}
use mathlib.Core.Path.{◌≡◌, refl, sym, subst}
use mathlib.Core.Logic.{inl, inr, ◌↔◌, ◌⊎◌}
use mathlib.Core.Bool.{Bool, true, false, ◌||◌}
use mathlib.Core.Option.{Option, none, some}
use mathlib.Core.List.{List, [], ◌∷◌, ◌++◌}
use native.Mathlib.Omega.{arith}
use nightshift0s.Prelude.Tests.{if◌then◌else◌, Eq, ◌==◌, Bool-cases}

module _ {ℓ} {A : Type ℓ} where
  abbrev pub length : List A → ℕ
  length [] = 0
  length (x ∷ xs) = suc (length xs)

  -- `xs.filter(p)`
  abbrev pub keep : (A → Bool) → List A → List A
  keep p [] = []
  keep p (x ∷ xs) = let rest = keep p xs in if p x then x ∷ rest else rest

  -- `xs.find(p)`, and the first row of a query
  abbrev pub find : (A → Bool) → List A → Option A
  find p [] = none
  find p (x ∷ xs) = let rest = find p xs in if p x then some x else rest

  -- `xs.some(p)`
  abbrev pub any : (A → Bool) → List A → Bool
  any p [] = false
  any p (x ∷ xs) = p x || any p xs

  abbrev pub All {κ} : (A → Type κ) → List A → Type κ
  All P [] = Unit
  All P (x ∷ xs) = P x × All P xs

  pub length-append : (xs ys : List A) → length (xs ++ ys) ≡ length xs + length ys
  length-append [] ys = omega arith
  length-append (x ∷ xs) ys = omega (arith, length-append xs ys)

  pub find-true : (p : A → Bool) (xs : List A) {a : A} → find p xs ≡ some a → p a ≡ true
  find-true p [] h = cc
  find-true p (x ∷ xs) {a = a} h = ground (arith, find-true p xs {a = a})

  pub find-none : (p : A → Bool) (xs : List A) → find p xs ≡ none → any p xs ≡ false
  find-none p [] h = refl
  find-none p (x ∷ xs) h = ground (arith, find-none p xs)

  pub length-keep-le : (p : A → Bool) (xs : List A) → length (keep p xs) ≤ length xs
  length-keep-le p [] = omega arith
  length-keep-le p (x ∷ xs) = ground (arith, length-keep-le p xs)

module _ {ℓ κ} {A : Type ℓ} (P : A → Type κ) where
  pub All-append : (xs ys : List A) → All P xs → All P ys → All P (xs ++ ys)
  All-append [] ys h k = k
  All-append (x ∷ xs) ys h k = (h.0, All-append xs ys h.1 k)

  pub All-keep : (p : A → Bool) (xs : List A) → All P xs → All P (keep p xs)
  All-keep p [] h = tt
  All-keep p (x ∷ xs) h = ground (arith, All-keep p xs h.1)

  pub All-find : (p : A → Bool) (xs : List A) {a : A} → All P xs → find p xs ≡ some a → P a
  All-find p [] h e = cc
  All-find p (x ∷ xs) h e = elim (Bool-cases (p x)) [
    | inl hit ↦ ground (arith, h.0)
    | inr miss ↦ All-find p xs h.1 (ground arith)
  ]

module _ {ℓ} {A : Type ℓ} ⦃e : Eq A⦄ where
  -- `xs.includes(a)`
  abbrev pub contains : List A → A → Bool
  contains [] a = false
  contains (x ∷ xs) a = x == a || contains xs a

module _ {ℓ} {A : Type ℓ} where
  -- `xs.length === 0`
  abbrev pub is_empty : List A → Bool
  is_empty [] = true
  is_empty (x ∷ xs) = false

  pub append-empty :
      (xs ys : List A)
      → (is_empty (xs ++ ys) ≡ true) ↔ ((is_empty xs ≡ true) × (is_empty ys ≡ true))
  append-empty [] ys = (λ h. (refl, h), λ h. h.1)
  append-empty (x ∷ xs) ys = (λ h. cc, λ h. cc)

pub or-true : (b c : Bool) → c ≡ true → b || c ≡ true
or-true true c h = refl
or-true false c h = h

-- Membership, as a proposition.
abbrev pub In : {A : Type 0} → A → List A → Type 0
In a [] = ⊥
In a (x ∷ xs) = (x ≡ a) ⊎ In a xs

pub In-keep :
    {A : Type 0} (p : A → Bool) (a : A) (xs : List A) → In a (keep p xs) ↔ (In a xs × (p a ≡ true))
In-keep p a [] = (λ h. absurd h, λ h. h.0)
In-keep p a (x ∷ xs) = elim (Bool-cases (p x)) [
  | inl kept ↦ rw kept (
    λ h. elim h [
      | inl e ↦ (inl e, subst (λ y. p y ≡ true) e kept)
      | inr h ↦ let (there, passes) = (In-keep p a xs).0 h in (inr there, passes)
    ],
    λ h. elim h.0 [ inl e ↦ inl e | inr there ↦ inr ((In-keep p a xs).1 (there, h.1)) ],
  )
  | inr dropped ↦ rw dropped (
    λ h. let (there, passes) = (In-keep p a xs).0 h in (inr there, passes),
    λ h. elim h.0 [
      | inl e ↦ absurd (cc (subst (λ y. p y ≡ false) e dropped, h.1))
      | inr there ↦ (In-keep p a xs).1 (there, h.1)
    ],
  )
]

pub any-In :
    {A : Type 0} (p : A → Bool) (xs : List A) (a : A) → In a xs → p a ≡ true → any p xs ≡ true
any-In p [] a h k = absurd h
any-In p (x ∷ xs) a (inl e) k = rw (subst (λ y. p y ≡ true) (sym e) k) refl
any-In p (x ∷ xs) a (inr h) k = or-true (p x) (any p xs) (any-In p xs a h k)

-- What some of the first passes, some of the second passes too.
pub any-All :
    {A : Type 0} (p : A → Bool) (xs ys : List A)
    → All (λ x. In x ys) xs
    → any p xs ≡ true
    → any p ys ≡ true
any-All p [] ys h k = cc
any-All p (x ∷ xs) ys h k = elim (Bool-cases (p x)) [
  | inl hit ↦ any-In p ys x h.0 hit
  | inr miss ↦ any-All p xs ys h.1 (ground (arith, miss))
]
