-- ===== src/Review/Judge/Fuel.antt =====
-- The fuel of the search for the last block of an output (src/providers/schemaRepair.ts).
use nightshift0s.Prelude.{
  ℕ, zero, suc, ◌≤◌, ◌<◌, ◌≡◌, refl, inl, inr, Option, some, List, [], ◌∷◌, length, nat_Eq, arith,
  Option-cases,
}
use nightshift0s.Prelude.Text.{codes, strip}
use nightshift0s.Review.Judge.{close_tag, after_open, until_close, block_from, last_block}

strip_le : (p cs : List ℕ) {r : List ℕ} → strip p cs ≡ some r → length r ≤ length cs
strip_le [] cs {r = r} h = grind arith
strip_le (q ∷ p) [] h = cc
strip_le (q ∷ p) (c ∷ cs) {r = r} h = ground (arith, strip_le p cs {r = r})

strip_lt : (q : ℕ) (p cs : List ℕ) {r : List ℕ} → strip (q ∷ p) cs ≡ some r → length r < length cs
strip_lt q p [] h = cc
strip_lt q p (c ∷ cs) {r = r} h = ground (arith, strip_le p cs {r = r})

after_open_lt : (cs : List ℕ) {r : List ℕ} → after_open cs ≡ some r → length r < length cs
after_open_lt [] h = cc
after_open_lt (c ∷ cs) {r = r} h =
    ground (arith, strip_lt 60 (codes "output>") (c ∷ cs) {r = r}, after_open_lt cs {r = r})

until_close_le :
    (cs : List ℕ) {block : List ℕ × List ℕ}
    → until_close cs ≡ some block
    → length block.1 ≤ length cs
until_close_le [] h = cc
until_close_le (c ∷ cs) {block = block} h = elim (Option-cases (strip close_tag (c ∷ cs))) [
  | inl e ↦ elim (Option-cases (until_close cs)) [
    | inl n ↦ let k = rw (e, n) at h in cc
    | inr ((body, t), m) ↦ let k = rw (e, m) at h in grind (arith, until_close_le cs m)
  ]
  | inr (t, e) ↦ let k = rw e at h in grind (arith, strip_le close_tag (c ∷ cs) e)
]

block_from_lt :
    (cs : List ℕ) {block : List ℕ × List ℕ}
    → block_from (after_open cs) ≡ some block
    → length block.1 < length cs
block_from_lt cs {block = block} h = elim (Option-cases (after_open cs)) [
  | inl e ↦ let k = rw e at h in cc
  | inr (t, e) ↦ let k = rw e at h in grind (arith, after_open_lt cs e, until_close_le t k)
]

-- Any fuel above the number of characters gives the same block.
last_block_fuel :
    (f g : ℕ) (last : Option (List ℕ)) (cs : List ℕ)
    → length cs < f
    → length cs < g
    → last_block f last cs ≡ last_block g last cs
last_block_fuel zero g last cs h k = ground arith
last_block_fuel (suc f) zero last cs h k = ground arith
last_block_fuel (suc f) (suc g) last cs h k = elim (Option-cases (block_from (after_open cs))) [
  | inl e ↦ rw (e, last_block) refl
  | inr (b, e) ↦
      rw (e, last_block)
        (last_block_fuel f g (some b.0) b.1 (grind (arith, block_from_lt cs e))
          (grind (arith, block_from_lt cs e)))
]
