-- ===== src/Db/Rows.antt =====
-- Lemmas on patched rows, and on rows told apart by their id.
use nightshift0s.Prelude.{
  ℕ, ◌≡◌, refl, sym, ◌∙◌, ◌≢◌, Bool, true, false, some, List, [], ◌∷◌, map, ◌==◌, find, All, arith,
  Bool-cases, nat_Eq, nat_eq_iff, length, inl, inr, eq_true,
}
use nightshift0s.Db.State.{update_rows}

module _ {ℓ κ} {A : Type ℓ} (P : A → Type κ) (test : A → Bool) (patch : A → A) where
  pub All-update_rows :
      (xs : List A)
      → ((x : A) → test x ≡ true → P x → P (patch x))
      → All P xs
      → All P (update_rows test patch xs)
  All-update_rows [] f h = tt
  All-update_rows (x ∷ xs) f h = elim (Bool-cases (test x)) [
    | inl hit ↦ rw hit (f x hit h.0, All-update_rows xs f h.1)
    | inr miss ↦ rw miss (h.0, All-update_rows xs f h.1)
  ]

module _ {ℓ κ μ} {A : Type ℓ} (P : A → Type κ) (Q : A → Type μ) (test : A → Bool)
    (patch : A → A) where
  pub All-update_rows_cases :
      (xs : List A)
      → ((x : A) → test x ≡ true → P x → Q (patch x))
      → ((x : A) → test x ≡ false → P x → Q x)
      → All P xs
      → All Q (update_rows test patch xs)
  All-update_rows_cases [] f g h = tt
  All-update_rows_cases (x ∷ xs) f g h = elim (Bool-cases (test x)) [
    | inl hit ↦ rw hit (f x hit h.0, All-update_rows_cases xs f g h.1)
    | inr miss ↦ rw miss (g x miss h.0, All-update_rows_cases xs f g h.1)
  ]

module _ {ℓ} {A : Type ℓ} (test : A → Bool) (patch : A → A) where
  pub length-update_rows : (xs : List A) → length (update_rows test patch xs) ≡ length xs
  length-update_rows [] = refl
  length-update_rows (x ∷ xs) = ground (arith, length-update_rows xs)

  -- A column that the patch leaves alone is unchanged in every row.
  pub map-update_rows {κ} :
      {B : Type κ} (column : A → B)
      → ((x : A) → column (patch x) ≡ column x)
      → (xs : List A) → map column (update_rows test patch xs) ≡ map column xs
  map-update_rows column f [] = refl
  map-update_rows column f (x ∷ xs) = elim (Bool-cases (test x)) [
    | inl hit ↦ rw (hit, f x, map-update_rows column f xs)
    | inr miss ↦ rw (miss, map-update_rows column f xs)
  ]

-- No two of the ids are equal.
abbrev pub IsUnique : List ℕ → Type 0
IsUnique [] = Unit
IsUnique (x ∷ xs) = All (λ y. y ≢ x) xs × IsUnique xs

module _ {ℓ κ μ} {A : Type ℓ} {P : A → Type κ} {Q : A → Type μ} where
  pub All-map : (xs : List A) → ((x : A) → P x → Q x) → All P xs → All Q xs
  All-map [] f h = tt
  All-map (x ∷ xs) f h = (f x h.0, All-map xs f h.1)

module _ {ℓ κ} {A : Type ℓ} {P : A → Type κ} where
  pub All-All : (xs : List A) → ((x : A) → P x) → All P xs
  All-All [] f = tt
  All-All (x ∷ xs) f = (f x, All-All xs f)

module _ {ℓ κ μ} {A : Type ℓ} (P : A → Type κ) (Q : A → Type μ) where
  pub All-and : (xs : List A) → All P xs → All Q xs → All (λ x. P x × Q x) xs
  All-and [] h k = tt
  All-and (x ∷ xs) h k = ((h.0, k.0), All-and xs h.1 k.1)

module _ {ℓ κ} {A : Type ℓ} {B : Type κ} where
  pub All-of-map {μ} :
      (P : B → Type μ) (f : A → B) (xs : List A) → All P (map f xs) → All (λ x. P (f x)) xs
  All-of-map P f [] h = tt
  All-of-map P f (x ∷ xs) h = (h.0, All-of-map P f xs h.1)

module _ {ℓ} {A : Type ℓ} (key : A → ℕ) where
  -- The row that a search by id finds is the only one with that id.
  pub found_unique :
      (xs : List A)
      → (k : ℕ) → {c : A} → IsUnique (map key xs)
      → find (λ x. key x == k) xs ≡ some c
      → All (λ x. key x ≡ k → x ≡ c) xs
  found_unique [] k u h = cc
  found_unique (x ∷ xs) k u h = elim (Bool-cases (key x == k)) [
    | inl hit ↦ (
      λ e. ground (arith, hit),
      All-map xs (λ y away e. absurd (away (e ∙ sym (eq_true (key x) k hit))))
          (All-of-map (λ i. i ≢ key x) key xs u.0),
    )
    | inr miss ↦
        (λ e. cc ((nat_eq_iff (key x) k).1 e), found_unique xs k u.1 (ground (arith, miss)))
  ]

module _ {ℓ} {A : Type ℓ} (p : A → Bool) (patch : A → A) where
  -- A patch that keeps the test keeps the place of the first row that passes it.
  pub find-update_rows :
      (xs : List A)
      → {a : A} → ((x : A) → p (patch x) ≡ p x)
      → find p xs ≡ some a
      → find p (update_rows p patch xs) ≡ some (patch a)
  find-update_rows [] same h = cc
  find-update_rows (x ∷ xs) {a = a} same h =
      ground (arith, same x, find-update_rows xs {a = a} same)
