-- ===== src/Prelude/Json.antt =====
-- The JSON values as data. An object is a list of fields, and a missing one is `undefined`.
use Prim.Native.Nat.{ℕ, ◌+◌, ◌*◌}
use Prim.Native.String.{String}
use mathlib.Core.Bool.{Bool, true, false, ◌&&◌}
use mathlib.Core.Path.{◌≡◌, ap}
use text.Mathlib.TextEquality.{eq_iff}
use nightshift0s.Prelude.Tests.{leb, if◌then◌else◌, ◌==◌, nat_Eq, string_Eq}

-- A number of JSON: a natural one, `-(n + 1)`, one with a fractional part, and a literal beyond the
-- range of the doubles, which is read as infinite.
pub data Number : Type 0 where
  natural : (n : ℕ) → Number
  negative : (n : ℕ) → Number
  fraction : (below_zero : Bool) → (whole numerator denominator : ℕ) → Number
  infinite : (below_zero : Bool) → Number

mutual
  pub data Json : Type 0 where
    null absent : Json
    boolean : Bool → Json
    number : Number → Json
    string : String → Json
    array : Items → Json
    object : Fields → Json

  pub data Items : Type 0 where
    end : Items
    item : Json → Items → Items

  pub data Fields : Type 0 where
    bare : Fields
    field : String → Json → Fields → Fields

abbrev pub field_of : Fields → String → Json
field_of bare key = absent
field_of (field name v fields) key =
    let rest = field_of fields key in if name == key then v else rest

-- `isRecord(v) ? v[key] : undefined`; no key that is read is one of an array.
abbrev pub get : Json → String → Json
get (object fields) key = field_of fields key
get _ key = absent

abbrev pub is_text : String → Json → Bool
is_text s (string t) = t == s
is_text s _ = false

abbrev pub is_true : Json → Bool
is_true (boolean b) = b
is_true _ = false

pub text_is : (s : String) (v : Json) → is_text s v ≡ true → v ≡ string s
text_is s (string t) h = ap string ((eq_iff t s).0 h)
text_is s null h = cc
text_is s absent h = cc
text_is s (boolean b) h = cc
text_is s (number n) h = cc
text_is s (array items) h = cc
text_is s (object fields) h = cc

-- `a <= b` of two finite numbers, each a sign with a numerator and a denominator.
abbrev le_parts : Bool × ℕ × ℕ → Bool × ℕ × ℕ → Bool
le_parts (false, n, d) (false, m, e) = leb (n * e) (m * d)
le_parts (false, n, d) (true, m, e) = n == 0 && m == 0
le_parts (true, n, d) (false, m, e) = true
le_parts (true, n, d) (true, m, e) = leb (m * d) (n * e)

abbrev parts : Number → Bool × ℕ × ℕ
parts (natural n) = (false, n, 1)
parts (negative n) = (true, n + 1, 1)
parts (fraction below_zero whole numerator denominator) =
    (below_zero, whole * denominator + numerator, denominator)
parts (infinite below_zero) = (below_zero, 1, 0)

abbrev pub le_number : Number → Number → Bool
le_number (infinite true) b = true
le_number a (infinite false) = true
le_number (infinite false) b = false
le_number a (infinite true) = false
le_number a b = le_parts (parts a) (parts b)
