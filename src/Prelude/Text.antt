-- ===== src/Prelude/Text.antt =====
-- Template texts: a number in decimal, and the joining of texts.
use Prim.Native.Nat.{ℕ, zero, suc, ◌+◌, ◌/◌, ◌%◌}
use Prim.Native.Char.{code}
use Prim.Native.String.{String}
use Prim.Native.String
use mathlib.Core.Path.{◌≡◌, refl, ap, ◌∙◌}
use mathlib.Core.Logic.{inl, inr}
use native.Mathlib.Omega.{arith}
use text.Mathlib.TextLemmas.{nil-append, cons-append}
use mathlib.Core.Option.{Option, none, some}
use mathlib.Core.List.{List, [], ◌∷◌, ◌++◌}
use mathlib.Core.Bool.{Bool, true, false, not, ◌&&◌, ◌||◌}
use nightshift0s.Prelude.Lists.{is_empty}
use nightshift0s.Prelude.Tests.{Bool-cases, is_some, ltb, leb, ◌==◌, nat_Eq, if◌then◌else◌}

infixr 65 ◌⧺◌
abbrev pub ◌⧺◌ : String → String → String
s ⧺ t = String.◌++◌ s t

digit_text : ℕ → List String → String
digit_text n [] = ""
digit_text zero (s ∷ texts) = s
digit_text (suc n) (s ∷ texts) = digit_text n texts

digit : ℕ → String
unfolding digit_text
digit n = digit_text n ("0" ∷ "1" ∷ "2" ∷ "3" ∷ "4" ∷ "5" ∷ "6" ∷ "7" ∷ "8" ∷ "9" ∷ [])

decimal_from : ℕ → ℕ → String
unfolding digit
decimal_from zero n = ""
decimal_from (suc fuel) n =
    let rest = decimal_from fuel (n / 10) ⧺ digit (n % 10) in if ltb n 10 then digit n else rest

-- `${n}`; a number has fewer digits than its value and one more.
unfoldable pub decimal : ℕ → String
unfolding decimal_from
decimal n = decimal_from (suc n) n

decimal_1205 : decimal 1205 ≡ "1205"
unfolding decimal
decimal_1205 = refl

-- `[head, ...rest].join(separator)`
abbrev pub joined : String → String → List String → String
joined separator head [] = head
joined separator head (s ∷ rest) = head ⧺ separator ⧺ joined separator s rest

-- The characters of a text, by their codes.
abbrev pub codes : String → List ℕ
codes String.[] = []
codes (String.◌∷◌ c s) = code c ∷ codes s

-- The white space of the language: what `trim` removes and `\s` matches.
abbrev pub is_space : ℕ → Bool
is_space c =
    c == 32
    || (leb 9 c && leb c 13)
    || c == 160
    || c == 5760
    || (leb 8192 c && leb c 8202)
    || c == 8232
    || c == 8233
    || c == 8239
    || c == 8287
    || c == 12288
    || c == 65279

abbrev pub all_space : List ℕ → Bool
all_space [] = true
all_space (c ∷ cs) = is_space c && all_space cs

-- `s.trim() === ""`
abbrev pub is_blank : String → Bool
is_blank s = all_space (codes s)

pub codes-append : (s t : String) → codes (s ⧺ t) ≡ codes s ++ codes t
codes-append String.[] t = ap codes (nil-append t)
codes-append (String.◌∷◌ c s) t =
    ap codes (cons-append c s t) ∙ ap (λ l. code c ∷ l) (codes-append s t)

all_space-append : (cs ds : List ℕ) → all_space cs ≡ false → all_space (cs ++ ds) ≡ false
all_space-append [] ds h = cc
all_space-append (c ∷ cs) ds h = elim (Bool-cases (is_space c)) [
  | inl space ↦ rw space (all_space-append cs ds (ground (arith, space)))
  | inr other ↦ rw other refl
]

pub is_blank-append : (s t : String) → is_blank s ≡ false → is_blank (s ⧺ t) ≡ false
is_blank-append s t h = rw codes-append (all_space-append (codes s) (codes t) h)

-- `s.trim()`, by codes
abbrev pub drop_space : List ℕ → List ℕ
drop_space [] = []
drop_space (c ∷ cs) = let rest = drop_space cs in if is_space c then rest else c ∷ cs

abbrev pub drop_last_space : List ℕ → List ℕ
drop_last_space [] = []
drop_last_space (c ∷ cs) =
    let rest = drop_last_space cs in if is_space c && is_empty rest then [] else c ∷ rest

abbrev pub trim : List ℕ → List ℕ
trim cs = drop_last_space (drop_space cs)

abbrev on_head : ℕ → List (List ℕ) → List (List ℕ)
on_head c [] = (c ∷ []) ∷ []
on_head c (part ∷ parts) = (c ∷ part) ∷ parts

-- `s.split(mark)`
abbrev pub split_on : ℕ → List ℕ → List (List ℕ)
split_on mark [] = [] ∷ []
split_on mark (c ∷ cs) =
    let rest = split_on mark cs in if c == mark then [] ∷ rest else on_head c rest

abbrev starts_word : List ℕ → Bool
starts_word [] = false
starts_word (c ∷ cs) = not (is_space c)

-- `split(/\s+/)` of a trimmed text: its runs of characters that are no white space.
abbrev pub words : List ℕ → List (List ℕ)
words [] = []
words (c ∷ cs) =
    let rest = words cs in
    if is_space c then rest else if starts_word cs then on_head c rest else (c ∷ []) ∷ rest

-- `s.startsWith(prefix)`, with what follows it.
abbrev pub strip : List ℕ → List ℕ → Option (List ℕ)
strip [] cs = some cs
strip (p ∷ prefix) [] = none
strip (p ∷ prefix) (c ∷ cs) = let rest = strip prefix cs in if c == p then rest else none

abbrev pub starts_with : List ℕ → List ℕ → Bool
starts_with prefix cs = is_some (strip prefix cs)

abbrev pub same_text : List ℕ → List ℕ → Bool
same_text [] [] = true
same_text [] (d ∷ ds) = false
same_text (c ∷ cs) [] = false
same_text (c ∷ cs) (d ∷ ds) = c == d && same_text cs ds

-- `s.endsWith(suffix)`
abbrev pub ends_with : List ℕ → List ℕ → Bool
ends_with suffix [] = is_empty suffix
ends_with suffix (c ∷ cs) = same_text (c ∷ cs) suffix || ends_with suffix cs

-- `s.includes(pattern)`
abbrev pub includes : List ℕ → List ℕ → Bool
includes pattern [] = is_empty pattern
includes pattern (c ∷ cs) = starts_with pattern (c ∷ cs) || includes pattern cs

-- As far as a pattern of ASCII letters can tell: the Kelvin sign is the only other character whose lower
-- case is one of them.
abbrev to_lower : ℕ → ℕ
to_lower c = if leb b'A' c && leb c b'Z' then c + 32 else if c == 8490 then b'k' else c

abbrev pub lower_text : List ℕ → List ℕ
lower_text [] = []
lower_text (c ∷ cs) = to_lower c ∷ lower_text cs

-- `s.trim()`, for a text that is stored
abbrev drop_first : String → String
drop_first String.[] = ""
drop_first (String.◌∷◌ c s) =
    let rest = drop_first s in if is_space (code c) then rest else String.◌∷◌ c s

abbrev drop_last : String → String
drop_last String.[] = ""
drop_last (String.◌∷◌ c s) =
    let rest = drop_last s in
    if is_space (code c) && is_empty (codes rest) then "" else String.◌∷◌ c rest

unfoldable pub trim_text : String → String
trim_text s = drop_last (drop_first s)

-- `s.length`: a character above 65535 is two units.
abbrev pub utf16_length : List ℕ → ℕ
utf16_length [] = 0
utf16_length (c ∷ cs) = (if ltb c 65536 then 1 else 2) + utf16_length cs

trim_title : trim_text "  a b\t" ≡ "a b"
unfolding trim_text
trim_title = refl
