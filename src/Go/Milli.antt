-- ===== src/Go/Milli.antt =====
-- A float64 that evaluates: thousandths, the two infinities and NaN. It serves the tests; `Laws`
-- has the laws of `IsIeee` for it.
pub mod Laws
use silver_leaf.Prelude.{
  ℕ, zero, suc, ◌+◌, ◌*◌, ◌/◌, ◌^◌, ℤ, pos, ◌+ℤ◌, ◌-ℤ◌, ◌*ℤ◌, ◌/ℤ◌, leb_ℤ, ltb_ℤ, eq_ℤ, Bool, true,
  false, not, ◌&&◌, String, if◌then◌else◌, ltb, concat, decimal, [], ◌∷◌,
}
use silver_leaf.Go.Float.{Float, Format}

-- `fin n` is n / 1000.
pub data Milli : Type 0 where
  fin : ℤ → Milli
  pinf ninf nan : Milli

abbrev pub is_nan : Milli → Bool
is_nan nan = true
is_nan _ = false

abbrev is_inf : Milli → Bool
is_inf pinf = true
is_inf ninf = true
is_inf _ = false

abbrev pub le : Milli → Milli → Bool
le nan _ = false
le _ nan = false
le ninf _ = true
le _ pinf = true
le pinf _ = false
le _ ninf = false
le (fin a) (fin b) = leb_ℤ a b

abbrev pub lt : Milli → Milli → Bool
lt x y = le x y && not (le y x)

abbrev pub negate : Milli → Milli
negate (fin a) = fin (pos 0 -ℤ a)
negate pinf = ninf
negate ninf = pinf
negate nan = nan

abbrev pub plus : Milli → Milli → Milli
plus nan _ = nan
plus _ nan = nan
plus pinf ninf = nan
plus ninf pinf = nan
plus pinf _ = pinf
plus _ pinf = pinf
plus ninf _ = ninf
plus _ ninf = ninf
plus (fin a) (fin b) = fin (a +ℤ b)

-- infinity with the sign of an integer; no number at 0
abbrev infinity : ℤ → Milli
infinity a = if eq_ℤ a (pos 0) then nan else if ltb_ℤ a (pos 0) then ninf else pinf

abbrev pub times : Milli → Milli → Milli
times nan _ = nan
times _ nan = nan
times (fin a) (fin b) = fin (a *ℤ b /ℤ pos 1000)
times (fin a) pinf = infinity a
times (fin a) ninf = negate (infinity a)
times pinf (fin b) = infinity b
times ninf (fin b) = negate (infinity b)
times pinf pinf = pinf
times ninf ninf = pinf
times _ _ = ninf

abbrev pub over : Milli → Milli → Milli
over nan _ = nan
over _ nan = nan
over (fin a) (fin b) = if eq_ℤ b (pos 0) then infinity a else fin (a *ℤ pos 1000 /ℤ b)
over (fin a) _ = fin (pos 0)
over pinf (fin b) = if ltb_ℤ b (pos 0) then ninf else pinf
over ninf (fin b) = if ltb_ℤ b (pos 0) then pinf else ninf
over _ _ = nan

-- the whole part of a square root, by Newton's steps
newton : ℕ → ℕ → ℕ → ℕ
newton zero n x = x
newton (suc fuel) n x =
    let next = (x + n / x) / 2 in let rest = newton fuel n next in if ltb next x then rest else x

unfoldable pub root : Milli → Milli
unfolding newton
root (fin (pos a)) = fin (pos (newton 64 (a * 1000) (a * 1000 + 1)))
root pinf = pinf
root _ = nan

abbrev pub whole : Milli → Milli
whole (fin a) = fin (a /ℤ pos 1000 *ℤ pos 1000)
whole x = x

abbrev pub round_up : Milli → Milli
round_up (fin a) =
    let w = a /ℤ pos 1000 *ℤ pos 1000 in if ltb_ℤ w a then fin (w +ℤ pos 1000) else fin w
round_up x = x

abbrev smaller : Milli → Milli → Milli
smaller nan _ = nan
smaller x y = if le x y then x else if is_nan y then nan else y

abbrev larger : Milli → Milli → Milli
larger nan _ = nan
larger x y = if le y x then x else if is_nan y then nan else y

abbrev pub integer : Milli → ℤ
integer (fin a) = a /ℤ pos 1000
integer _ = pos 0

instance abbrev pub milli_float : Float Milli
milli_float = record {
  of_int = λ n. fin (n *ℤ pos 1000);
  literal = λ m k. fin (pos (m * 1000 / 10 ^ k));
  lt = lt;
  le = le;
  eq = λ x y. le x y && le y x;
  is_nan = is_nan;
  is_inf = is_inf;
  add = plus;
  sub = λ x y. plus x (negate y);
  mul = times;
  div = over;
  sqrt = root;
  trunc = whole;
  ceil = round_up;
  fmin = smaller;
  fmax = larger;
  pos_inf = pinf;
  neg_inf = ninf;
  to_int = integer;
  of_duration = λ n. fin (n /ℤ pos 1000000);
}

-- Prints a float as its thousandths, whatever the precision asked for. No text of the tests begins or
-- ends in a space.
abbrev print : Milli → String
print (fin a) = concat (decimal a ∷ "e-3" ∷ [])
print pinf = "+Inf"
print ninf = "-Inf"
print nan = "NaN"

instance abbrev pub milli_format : Format Milli
milli_format = record {
  fixed = λ _. print;
  signed = λ _. print;
  general = print;
  quoted = λ s. concat ("\"" ∷ s ∷ "\"" ∷ []);
  duration = decimal;
  rounded = decimal;
  date = decimal;
  date_nano = decimal;
  trim_space = λ s. s;
  trim_prefix = λ _ s. s;
}
