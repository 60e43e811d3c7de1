-- ===== src/Go/Float.antt =====
-- Go's `float64`, as an interface: the operations that the program applies to a float, and the laws
-- of IEEE 754 arithmetic (round to nearest) that the proofs rely on. `Format` is what `fmt`,
-- `time` and `strings` make of a value as text; no law is asked of it.
use silver_leaf.Prelude.{
  ℕ, suc, ◌*◌, ◌^◌, ◌≤◌, ◌<◌, ℤ, pos, negsuc, ◌≤ℤ◌, Bool, true, false, not, ◌&&◌, ◌≡◌, String,
  leb_ℤ,
}
use silver_leaf.Go.Int32.{max_int32}

pub record Float (F : Type 0) : Type 0 where
  -- float64(n)
  pub of_int : ℤ → F
  -- the decimal literal m / 10 ^ k
  pub literal : ℕ → ℕ → F
  pub lt : F → F → Bool
  pub le : F → F → Bool
  pub eq : F → F → Bool
  pub is_nan : F → Bool
  pub is_inf : F → Bool
  pub add : F → F → F
  pub sub : F → F → F
  pub mul : F → F → F
  pub div : F → F → F
  pub sqrt : F → F
  pub trunc : F → F
  pub ceil : F → F
  pub fmin : F → F → F
  pub fmax : F → F → F
  pub pos_inf : F
  pub neg_inf : F
  -- the conversion to an integer type, for values in the type's range
  pub to_int : F → ℤ
  -- `Seconds` of a Duration
  pub of_duration : ℤ → F

pub record Format (F : Type 0) : Type 0 where
  -- %.nf
  pub fixed : ℕ → F → String
  -- %+0.nf
  pub signed : ℕ → F → String
  -- `strconv.FormatFloat` with 'g' and the fewest digits
  pub general : F → String
  -- %q
  pub quoted : String → String
  -- %s of a Duration, and of a Duration rounded to the second
  pub duration : ℤ → String
  pub rounded : ℤ → String
  -- a Time in UTC in the formats RFC3339 and RFC3339Nano
  pub date : ℤ → String
  pub date_nano : ℤ → String
  -- `strings.TrimSpace`, and `strings.TrimPrefix` with the prefix first
  pub trim_space : String → String
  pub trim_prefix : String → String → String

module _ {F : Type 0} ⦃fl : Float F⦄ where
  abbrev pub nought : F
  nought = fl.of_int (pos 0)

  abbrev pub finite : F → Bool
  finite x = not (fl.is_nan x) && not (fl.is_inf x)

  abbrev pub finite_nonnegative : F → Bool
  finite_nonnegative x = finite x && fl.le nought x

  infix 4 ◌≼◌
  abbrev pub ◌≼◌ : F → F → Type 0
  x ≼ y = fl.le x y ≡ true

-- the integers that each have a float64 of their own
abbrev pub max_exact : ℕ
max_exact = 9_007_199_254_740_992

abbrev pub IsExact : ℤ → Type 0
IsExact n = (negsuc 9_007_199_254_740_991 ≤ℤ n) × (n ≤ℤ pos 9_007_199_254_740_992)

-- Laws that float64 meets, each in a range where it does. Both zeros are equal here by `eq`, and may be
-- different values.
pub record IsIeee (F : Type 0) ⦃fl : Float F⦄ : Type 0 where
  pub le_numbers : (x y : F) → x ≼ y → (fl.is_nan x ≡ false) × (fl.is_nan y ≡ false)
  pub le_refl : (x : F) → fl.is_nan x ≡ false → x ≼ x
  pub le_trans : (x y z : F) → x ≼ y → y ≼ z → x ≼ z
  pub lt-eq-not-le :
      (x y : F) → fl.is_nan x ≡ false → fl.is_nan y ≡ false → fl.lt x y ≡ not (fl.le y x)
  pub lt_numbers : (x y : F) → fl.lt x y ≡ true → (fl.is_nan x ≡ false) × (fl.is_nan y ≡ false)
  pub le_of_lt : (x y : F) → fl.lt x y ≡ true → x ≼ y
  pub eq-eq-le-le : (x y : F) → fl.eq x y ≡ (fl.le x y && fl.le y x)
  pub finite-of_int : (n : ℤ) → IsExact n → finite (fl.of_int n) ≡ true
  pub finite-literal : (m k : ℕ) → m ≤ max_exact → finite (fl.literal m k) ≡ true
  pub le-of_int : (m n : ℤ) → IsExact m → IsExact n → fl.le (fl.of_int m) (fl.of_int n) ≡ leb_ℤ m n
  -- a difference of finite values in order is finite and no larger
  pub sub_range :
      (x y : F)
      → finite x ≡ true
      → finite y ≡ true
      → nought ≼ y
      → y ≼ x
      → (finite (fl.sub x y) ≡ true) × (nought ≼ fl.sub x y) × (fl.sub x y ≼ x)
  -- a quotient of values in order, by a value that is not zero, lies between 0 and 1
  pub div_range :
      (x y : F)
      → finite x ≡ true
      → finite y ≡ true
      → nought ≼ y
      → y ≼ x
      → fl.eq x nought ≡ false
      → (finite (fl.div y x) ≡ true) × (nought ≼ fl.div y x) × (fl.div y x ≼ fl.of_int (pos 1))
  -- a value that equals an integer has no fraction
  pub trunc_of_eq :
      (x : F) (n : ℤ) → IsExact n → fl.eq x (fl.of_int n) ≡ true → fl.eq (fl.trunc x) x ≡ true
  -- the conversion to an integer keeps the bounds of a value
  pub to_int_range :
      (x : F) (a b : ℤ)
      → IsExact a
      → IsExact b
      → fl.of_int a ≼ x
      → x ≼ fl.of_int b
      → (a ≤ℤ fl.to_int x) × (fl.to_int x ≤ℤ b)
  -- an integral value in the range of int32 converts exactly; -0 converts to 0, which equals it
  pub of_int-to_int :
      (x : F)
      → nought ≼ x
      → x ≼ fl.of_int max_int32
      → fl.eq (fl.trunc x) x ≡ true
      → fl.eq (fl.of_int (fl.to_int x)) x ≡ true
  -- rounding up stays below an integer bound, and passes an integer that the value passes
  pub ceil_le : (x : F) (j : ℤ) → IsExact j → x ≼ fl.of_int j → fl.ceil x ≼ fl.of_int j
  pub ceil_above :
      (x : F) (j : ℕ)
      → j < max_exact
      → fl.lt (fl.of_int (pos j)) x ≡ true
      → fl.of_int (pos (suc j)) ≼ fl.ceil x
  -- The product of a literal of at most two decimals and an integer lies on the same side of an
  -- integer as the exact product: that is off by at least a hundredth, and rounding by far less.
  pub literal_mul_below :
      (m k n j : ℕ)
      → m ≤ max_exact
      → k ≤ 2
      → n ≤ max_exact
      → j < 1_099_511_627_776
      → m * n < j * 10 ^ k
      → fl.lt (fl.mul (fl.literal m k) (fl.of_int (pos n))) (fl.of_int (pos j)) ≡ true
  pub literal_mul_above :
      (m k n j : ℕ)
      → m ≤ max_exact
      → k ≤ 2
      → n ≤ max_exact
      → j < 1_099_511_627_776
      → j * 10 ^ k < m * n
      → fl.lt (fl.of_int (pos j)) (fl.mul (fl.literal m k) (fl.of_int (pos n))) ≡ true
  -- a product of integers that is exact
  pub mul-of_int :
      (a b : ℕ)
      → a ≤ max_exact
      → b ≤ max_exact
      → a * b ≤ max_exact
      → fl.mul (fl.of_int (pos a)) (fl.of_int (pos b)) ≡ fl.of_int (pos (a * b))
  -- `Seconds` of a Duration of whole seconds, which has at most 2^63 - 1 nanoseconds
  pub of_duration-seconds :
      (n : ℕ) → n ≤ 9_000_000_000 → fl.of_duration (pos (n * 1_000_000_000)) ≡ fl.of_int (pos n)
