-- ===== src/Prelude/Text.antt =====
-- Texts: the test for equality, concatenation, and the decimal form of an integer (`%d`).
use Prim.Native.Nat.{ℕ, zero, suc, ◌/◌, ◌%◌}
use Prim.Native.String
use Prim.Native.String.{String}
use mathlib.Core.Bool.{Bool, true}
use mathlib.Core.Logic.{◌↔◌}
use mathlib.Core.Path.{◌≡◌, refl}
use mathlib.Core.List.{List, [], ◌∷◌}
use text.Mathlib.Text.{◌==◌ as text_eq, is_lt}
use text.Mathlib.TextEquality.{eq_iff}
use silver_leaf.Prelude.Tests.{ltb, ◌==◌, if◌then◌else◌}
use silver_leaf.Prelude.Int.{ℤ, pos, negsuc}

abbrev pub str_eq : String → String → Bool
str_eq = text_eq

-- Texts joined end to end.
unfoldable pub concat : List String → String
concat [] = ""
concat (s ∷ ss) = String.◌++◌ s (concat ss)

-- The texts with `sep` between them: `strings.Join`.
unfoldable pub join : String → List String → String
join sep [] = ""
join sep (s ∷ []) = s
join sep (s ∷ t ∷ ss) = String.◌++◌ s (String.◌++◌ sep (join sep (t ∷ ss)))

abbrev digit : ℕ → String
digit n =
    if n == 0
    then "0"
    else if n == 1
    then "1"
    else if n == 2
    then "2"
    else if n == 3
    then "3"
    else if n == 4
    then "4"
    else if n == 5
    then "5"
    else if n == 6
    then "6"
    else if n == 7
    then "7"
    else if n == 8
    then "8"
    else "9"

-- One digit for each round; twenty are enough for a 64-bit integer.
digits : ℕ → ℕ → String
digits zero n = ""
digits (suc fuel) n =
    let front = digits fuel (n / 10) in
    if ltb n 10 then digit n else String.◌++◌ front (digit (n % 10))

unfoldable pub decimal : ℤ → String
unfolding digits
decimal (pos n) = digits 20 n
decimal (negsuc n) = String.◌++◌ "-" (digits 20 (suc n))

-- Go's `<` on strings: the order of bytes, which for UTF-8 is that of the characters.
abbrev pub str_lt : String → String → Bool
str_lt s t = is_lt (String.compare s t)

pub str_eq_iff : (s t : String) → (str_eq s t ≡ true) ↔ (s ≡ t)
str_eq_iff s t = eq_iff s t

pub str_eq_refl : (s : String) → str_eq s s ≡ true
str_eq_refl s = (eq_iff s s).1 refl
