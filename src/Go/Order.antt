-- ===== src/Go/Order.antt =====
-- Consequences of the laws of floats, in the forms that the proofs use.
use silver_leaf.Prelude.{ℤ, pos, true, false, not, ◌≡◌, eq_of_parts, arith}
use silver_leaf.Go.Float.{Float, IsIeee, IsExact, nought, ◌≼◌}

module _ {F : Type 0} ⦃fl : Float F⦄ (laws : IsIeee F) where
  open laws use {
    le_numbers, le_refl, le_trans, lt-eq-not-le, lt_numbers, eq-eq-le-le, finite-of_int, le-of_int,
    to_int_range,
  }

  pub is_nan-of_int : (n : ℤ) → IsExact n → fl.is_nan (fl.of_int n) ≡ false
  is_nan-of_int n r = ground (arith, finite-of_int n r)

  pub is_nan-nought : fl.is_nan nought ≡ false
  is_nan-nought = is_nan-of_int (pos 0) (omega arith)

  -- A value below zero is the one that is not at or above it.
  pub lt-nought : (x : F) → fl.is_nan x ≡ false → fl.lt x nought ≡ not (fl.le nought x)
  lt-nought x h = lt-eq-not-le x nought h is_nan-nought

  pub le_of_not_lt :
      (x y : F) → fl.is_nan x ≡ false → fl.is_nan y ≡ false → fl.lt x y ≡ false → y ≼ x
  le_of_not_lt x y hx hy h = ground (arith, lt-eq-not-le x y hx hy)

  pub lt_of_not_le :
      (x y : F) → fl.is_nan x ≡ false → fl.is_nan y ≡ false → fl.le x y ≡ false → fl.lt y x ≡ true
  lt_of_not_le x y hx hy h = ground (arith, lt-eq-not-le y x hy hx)

  pub not_le_of_lt : (x y : F) → fl.lt x y ≡ true → fl.le y x ≡ false
  not_le_of_lt x y h = let n = lt_numbers x y h in ground (arith, lt-eq-not-le x y n.0 n.1)

  -- a value that equals an integer is within it
  pub eq_of_bounds :
      (x : F) (n : ℤ) → fl.eq x (fl.of_int n) ≡ true → (x ≼ fl.of_int n) × (fl.of_int n ≼ x)
  eq_of_bounds x n h = ground (arith, eq-eq-le-le x (fl.of_int n))

  pub eq-sym : (x y : F) → fl.eq x y ≡ true → fl.eq y x ≡ true
  eq-sym x y h = ground (arith, eq-eq-le-le x y, eq-eq-le-le y x)

  -- the conversion of a value that equals an integer
  pub to_int-eq : (x : F) (n : ℤ) → IsExact n → fl.eq x (fl.of_int n) ≡ true → fl.to_int x ≡ n
  to_int-eq x n r h =
      let b = eq_of_bounds x n h in
      let c = to_int_range x n n r r b.1 b.0 in eq_of_parts (fl.to_int x) n (ground arith)

  pub eq-of_int : (n : ℤ) → IsExact n → fl.eq (fl.of_int n) (fl.of_int n) ≡ true
  eq-of_int n r =
      ground
        (arith, eq-eq-le-le (fl.of_int n) (fl.of_int n), le_refl (fl.of_int n) (is_nan-of_int n r))
