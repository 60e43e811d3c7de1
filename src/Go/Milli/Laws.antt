-- ===== src/Go/Milli/Laws.antt =====
-- The laws of `IsIeee` for the floats of `Go.Milli`.
use silver_leaf.Prelude.{
  ℕ, zero, suc, ◌*◌, ◌/◌, ◌^◌, ◌≤◌, ◌<◌, ℤ, pos, negsuc, ◌≤ℤ◌, ◌+ℤ◌, ◌-ℤ◌, ◌*ℤ◌, ◌/ℤ◌, leb_ℤ, eq_ℤ,
  true, false, not, ◌&&◌, ◌≡◌, refl, ap, arith,
}
use silver_leaf.Go.Int32.{max_int32}
use silver_leaf.Go.Float.{IsIeee, nought, finite, ◌≼◌}
use silver_leaf.Go.Milli.{
  Milli, fin, pinf, ninf, nan, milli_float, is_nan, le, lt, negate, plus, times, over, whole,
  round_up, integer,
}

lt-eq-not-le : (x y : Milli) → is_nan x ≡ false → is_nan y ≡ false → lt x y ≡ not (le y x)
lt-eq-not-le x y h k = ground arith

le_trans : (x y z : Milli) → x ≼ y → y ≼ z → x ≼ z
le_trans x y z h k = ground arith

le-of_int : (m n : ℤ) → leb_ℤ (m *ℤ pos 1000) (n *ℤ pos 1000) ≡ leb_ℤ m n
unfolding ◌*ℤ◌
le-of_int m n = ground arith

sub_range :
    (x y : Milli)
    → finite x ≡ true
    → finite y ≡ true
    → nought ≼ y
    → y ≼ x
    → (finite (plus x (negate y)) ≡ true) × (nought ≼ plus x (negate y)) × (plus x (negate y) ≼ x)
unfolding ◌*ℤ◌ ◌+ℤ◌ ◌-ℤ◌
sub_range (fin a) (fin b) hx hy h k = ground arith
sub_range (fin a) pinf hx hy h k = cc
sub_range (fin a) ninf hx hy h k = cc
sub_range (fin a) nan hx hy h k = cc
sub_range pinf y hx hy h k = cc
sub_range ninf y hx hy h k = cc
sub_range nan y hx hy h k = cc

quotient_le : (a b : ℕ) → b ≤ a → 0 < a → b * 1000 / a ≤ 1000
quotient_le a b h k = grind arith

quotient_range :
    (a b : ℤ)
    → pos 0 ≤ℤ b
    → b ≤ℤ a
    → eq_ℤ a (pos 0) ≡ false
    → let q = b *ℤ pos 1000 /ℤ a in (pos 0 ≤ℤ q) × (q ≤ℤ pos 1000)
unfolding ◌*ℤ◌ ◌/ℤ◌
quotient_range (pos a) (pos b) h k e = ground (arith, quotient_le a b)
quotient_range (pos a) (negsuc b) h k e = ground arith
quotient_range (negsuc a) (pos b) h k e = ground arith
quotient_range (negsuc a) (negsuc b) h k e = ground arith

nonzero : (a : ℤ) → (le (fin a) nought && le nought (fin a)) ≡ false → eq_ℤ a (pos 0) ≡ false
unfolding ◌*ℤ◌
nonzero a h = ground arith

div_fin_range :
    (a b : ℤ)
    → eq_ℤ a (pos 0) ≡ false
    → pos 0 ≤ℤ b
    → b ≤ℤ a
    → let q = over (fin b) (fin a) in (finite q ≡ true) × (nought ≼ q) × (q ≼ fin (pos 1000))
unfolding ◌*ℤ◌
div_fin_range a b e h k = rw e (ground (arith, quotient_range a b h k e))

div_range :
    (x y : Milli)
    → finite x ≡ true
    → finite y ≡ true
    → nought ≼ y
    → y ≼ x
    → (le x nought && le nought x) ≡ false
    → (finite (over y x) ≡ true) × (nought ≼ over y x) × (over y x ≼ fin (pos 1000))
unfolding ◌*ℤ◌
div_range (fin a) (fin b) hx hy h k e =
    div_fin_range a b (nonzero a e) (ground arith) (ground arith)
div_range (fin a) pinf hx hy h k e = cc
div_range (fin a) ninf hx hy h k e = cc
div_range (fin a) nan hx hy h k e = cc
div_range pinf y hx hy h k e = cc
div_range ninf y hx hy h k e = cc
div_range nan y hx hy h k e = cc

of_int-to_int :
    (x : Milli)
    → nought ≼ x
    → x ≼ milli_float.of_int max_int32
    → (le (whole x) x && le x (whole x)) ≡ true
    → let y = fin (integer x *ℤ pos 1000) in (le y x && le x y) ≡ true
unfolding ◌*ℤ◌
of_int-to_int (fin a) l h e = ground arith
of_int-to_int pinf l h e = cc
of_int-to_int ninf l h e = cc
of_int-to_int nan l h e = cc

trunc_of_eq :
    (x : Milli) (n : ℤ)
    → let y = fin (n *ℤ pos 1000) in
      (le x y && le y x) ≡ true → (le (whole x) x && le x (whole x)) ≡ true
unfolding ◌*ℤ◌ ◌/ℤ◌
trunc_of_eq (fin (pos a)) (pos n) h = ground arith
trunc_of_eq (fin (pos a)) (negsuc n) h = ground arith
trunc_of_eq (fin (negsuc a)) (pos n) h = ground arith
trunc_of_eq (fin (negsuc a)) (negsuc n) h = ground arith
trunc_of_eq pinf n h = cc
trunc_of_eq ninf n h = cc
trunc_of_eq nan n h = cc

to_int_range :
    (x : Milli) (a b : ℤ)
    → fin (a *ℤ pos 1000) ≼ x
    → x ≼ fin (b *ℤ pos 1000)
    → (a ≤ℤ integer x) × (integer x ≤ℤ b)
unfolding ◌*ℤ◌ ◌/ℤ◌
to_int_range (fin (pos c)) a b h k = ground arith
to_int_range (fin (negsuc c)) a b h k = ground arith
to_int_range pinf a b h k = cc
to_int_range ninf a b h k = cc
to_int_range nan a b h k = cc

ceil_le : (x : Milli) (j : ℤ) → x ≼ fin (j *ℤ pos 1000) → round_up x ≼ fin (j *ℤ pos 1000)
unfolding ◌*ℤ◌ ◌/ℤ◌ ◌+ℤ◌
ceil_le (fin (pos a)) j h = ground arith
ceil_le (fin (negsuc a)) j h = ground arith
ceil_le pinf j h = cc
ceil_le ninf j h = refl
ceil_le nan j h = cc

ceil_above :
    (x : Milli) (j : ℕ)
    → lt (fin (pos j *ℤ pos 1000)) x ≡ true
    → fin (pos (suc j) *ℤ pos 1000) ≼ round_up x
unfolding ◌*ℤ◌ ◌/ℤ◌ ◌+ℤ◌
ceil_above (fin (pos a)) j h = ground arith
ceil_above (fin (negsuc a)) j h = ground arith
ceil_above pinf j h = refl
ceil_above ninf j h = cc
ceil_above nan j h = cc

literal_mul_below :
    (m k n j : ℕ)
    → k ≤ 2
    → m * n < j * 10 ^ k
    → lt (times (milli_float.literal m k) (fin (pos n *ℤ pos 1000))) (fin (pos j *ℤ pos 1000))
      ≡ true
unfolding ◌*ℤ◌ ◌/ℤ◌
literal_mul_below m zero n j h l =
    let one : m * 1000 / 10 ^ 0 ≡ m * 1000 = omega arith in
    let e : m * 1000 / 10 ^ 0 * (n * 1000) ≡ m * n * 1_000_000 = rw one (grind arith) in
    ground (arith, e)
literal_mul_below m (suc zero) n j h l =
    let one : m * 1000 / 10 ^ 1 ≡ m * 100 = omega arith in
    let e : m * 1000 / 10 ^ 1 * (n * 1000) ≡ m * n * 100_000 = rw one (grind arith) in
    ground (arith, e)
literal_mul_below m (suc (suc zero)) n j h l =
    let one : m * 1000 / 10 ^ 2 ≡ m * 10 = omega arith in
    let e : m * 1000 / 10 ^ 2 * (n * 1000) ≡ m * n * 10_000 = rw one (grind arith) in
    ground (arith, e)
literal_mul_below m (suc (suc (suc k))) n j h l = ground arith

literal_mul_above :
    (m k n j : ℕ)
    → k ≤ 2
    → j * 10 ^ k < m * n
    → lt (fin (pos j *ℤ pos 1000)) (times (milli_float.literal m k) (fin (pos n *ℤ pos 1000)))
      ≡ true
unfolding ◌*ℤ◌ ◌/ℤ◌
literal_mul_above m zero n j h l =
    let one : m * 1000 / 10 ^ 0 ≡ m * 1000 = omega arith in
    let e : m * 1000 / 10 ^ 0 * (n * 1000) ≡ m * n * 1_000_000 = rw one (grind arith) in
    ground (arith, e)
literal_mul_above m (suc zero) n j h l =
    let one : m * 1000 / 10 ^ 1 ≡ m * 100 = omega arith in
    let e : m * 1000 / 10 ^ 1 * (n * 1000) ≡ m * n * 100_000 = rw one (grind arith) in
    ground (arith, e)
literal_mul_above m (suc (suc zero)) n j h l =
    let one : m * 1000 / 10 ^ 2 ≡ m * 10 = omega arith in
    let e : m * 1000 / 10 ^ 2 * (n * 1000) ≡ m * n * 10_000 = rw one (grind arith) in
    ground (arith, e)
literal_mul_above m (suc (suc (suc k))) n j h l = ground arith

mul-of_int :
    (a b : ℕ)
    → times (fin (pos a *ℤ pos 1000)) (fin (pos b *ℤ pos 1000)) ≡ fin (pos (a * b) *ℤ pos 1000)
unfolding ◌*ℤ◌ ◌/ℤ◌
mul-of_int a b =
    let e : a * 1000 * (b * 1000) / 1000 ≡ a * b * 1000 = grind arith in ap (λ n. fin (pos n)) e

of_duration-seconds :
    (n : ℕ) → fin (pos (n * 1_000_000_000) /ℤ pos 1_000_000) ≡ fin (pos n *ℤ pos 1000)
unfolding ◌*ℤ◌ ◌/ℤ◌
of_duration-seconds n =
    let e : n * 1_000_000_000 / 1_000_000 ≡ n * 1000 = omega arith in ap (λ k. fin (pos k)) e

pub Milli-IsIeee : IsIeee Milli
unfolding ◌*ℤ◌
Milli-IsIeee = record {
  le_numbers = λ x y h. ground arith;
  le_refl = λ x h. ground arith;
  le_trans = le_trans;
  lt-eq-not-le = lt-eq-not-le;
  lt_numbers = λ x y h. ground arith;
  le_of_lt = λ x y h. ground arith;
  eq-eq-le-le = λ x y. refl;
  finite-of_int = λ n _. refl;
  finite-literal = λ m k _. refl;
  le-of_int = λ m n _ _. le-of_int m n;
  sub_range = sub_range;
  div_range = div_range;
  trunc_of_eq = λ x n _. trunc_of_eq x n;
  to_int_range = λ x a b _ _. to_int_range x a b;
  of_int-to_int = of_int-to_int;
  ceil_le = λ x j _. ceil_le x j;
  ceil_above = λ x j _. ceil_above x j;
  literal_mul_below = λ m k n j _ small _ _. literal_mul_below m k n j small;
  literal_mul_above = λ m k n j _ small _ _. literal_mul_above m k n j small;
  mul-of_int = λ a b _ _ _. mul-of_int a b;
  of_duration-seconds = λ n _. of_duration-seconds n;
}
