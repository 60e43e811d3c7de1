-- ===== src/Go/Int32.antt =====
-- Go's `int32`: an integer with its range, and addition and subtraction that wrap around.
use silver_leaf.Prelude.{
  ℤ, pos, negsuc, ◌+ℤ◌, ◌-ℤ◌, ◌≤ℤ◌, ◌<ℤ◌, ltb_ℤ, ◌≡◌, if◌then◌else◌, arith, +ℤ_parts, -ℤ_parts,
}

abbrev pub max_int32 : ℤ
max_int32 = pos 2_147_483_647

abbrev pub min_int32 : ℤ
min_int32 = negsuc 2_147_483_647

abbrev pub modulus : ℤ
modulus = pos 4_294_967_296

abbrev pub IsInt32 : ℤ → Type 0
IsInt32 z = (min_int32 ≤ℤ z) × (z ≤ℤ max_int32)

-- The sum or difference of two values in range is at most one modulus out of range.
unfoldable pub wrap32 : ℤ → ℤ
wrap32 z = if ltb_ℤ max_int32 z then z -ℤ modulus else if ltb_ℤ z min_int32 then z +ℤ modulus else z

unfoldable pub add32 : ℤ → ℤ → ℤ
add32 a b = wrap32 (a +ℤ b)

unfoldable pub sub32 : ℤ → ℤ → ℤ
sub32 a b = wrap32 (a -ℤ b)

pub add32-eq_of_fits : (a b : ℤ) → IsInt32 (a +ℤ b) → add32 a b ≡ a +ℤ b
unfolding add32 wrap32
add32-eq_of_fits a b h = ground arith

pub sub32-eq_of_fits : (a b : ℤ) → IsInt32 (a -ℤ b) → sub32 a b ≡ a -ℤ b
unfolding sub32 wrap32
sub32-eq_of_fits a b h = ground arith

pub add32-IsInt32 : (a b : ℤ) → IsInt32 a → IsInt32 b → IsInt32 (add32 a b)
unfolding add32 wrap32
add32-IsInt32 a b h k =
    ground (arith, +ℤ_parts a b, +ℤ_parts (a +ℤ b) modulus, -ℤ_parts (a +ℤ b) modulus)

-- Past the upper end, the sum of two positive values comes out negative.
pub add32-lt_of_overflow :
    (a b : ℤ) → IsInt32 a → IsInt32 b → max_int32 <ℤ a +ℤ b → add32 a b <ℤ pos 0
unfolding add32 wrap32
add32-lt_of_overflow a b h k o = ground (arith, +ℤ_parts a b, -ℤ_parts (a +ℤ b) modulus)
