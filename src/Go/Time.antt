-- ===== src/Go/Time.antt =====
-- Package `time`: a `Time` is its distance in nanoseconds from Go's zero time (year 1, UTC), which
-- `IsZero` tests for, and a `Duration` is an int64 number of nanoseconds. `Sub` stops at the ends of
-- the int64 range, as its documentation says.
use silver_leaf.Prelude.{ℤ, pos, negsuc, ◌+ℤ◌, ◌-ℤ◌, ltb_ℤ, eq_ℤ, ℕ, ◌*◌, Bool, if◌then◌else◌}

abbrev pub Time : Type 0
Time = ℤ

abbrev pub Duration : Type 0
Duration = ℤ

abbrev pub seconds : ℕ → Duration
seconds n = pos (n * 1_000_000_000)

abbrev pub max_duration : Duration
max_duration = pos 9_223_372_036_854_775_807

abbrev pub min_duration : Duration
min_duration = negsuc 9_223_372_036_854_775_807

abbrev pub is_zero : Time → Bool
is_zero t = eq_ℤ t (pos 0)

abbrev pub before : Time → Time → Bool
before t u = ltb_ℤ t u

abbrev pub after : Time → Time → Bool
after t u = ltb_ℤ u t

abbrev pub equal : Time → Time → Bool
equal t u = eq_ℤ t u

abbrev pub add : Time → Duration → Time
add t d = t +ℤ d

abbrev pub clamp : ℤ → Duration
clamp d =
    if ltb_ℤ max_duration d then max_duration else if ltb_ℤ d min_duration then min_duration else d

abbrev pub sub : Time → Time → Duration
sub t u = clamp (t -ℤ u)

-- the sum of two durations, which wraps around at 64 bits
abbrev pub wrap64 : ℤ → Duration
wrap64 d =
    if ltb_ℤ max_duration d
    then d -ℤ pos 18_446_744_073_709_551_616
    else if ltb_ℤ d min_duration
    then d +ℤ pos 18_446_744_073_709_551_616
    else d

abbrev pub sum : Duration → Duration → Duration
sum d e = wrap64 (d +ℤ e)
