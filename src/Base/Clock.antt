-- ===== src/Base/Clock.antt =====
-- Go's `time.Time` and `time.Duration`.
--
-- A Time is the number of nanoseconds since Go's zero time (1 January of year 1), so the zero time
-- is 0. A Duration is an int64 number of nanoseconds, here an integer with its saturation (`Sub`)
-- and its wrap-around (multiplication) written out. `Add` of a negative duration stops at the zero
-- time: no clock that the program reads is within 292 years of it.
use Prim.Native.Nat.{ℕ, suc, ◌+◌, ◌-◌, ◌*◌, ◌%◌, ◌≤◌, min}
use mathlib.Core.Path.{◌≡◌}
use mathlib.Core.Bool.{Bool}
use native.Mathlib.Omega.{arith}
use native.Mathlib.Nat.{mod-eq_of_lt}
use clickhouse_ruler.Base.Tests.{ltb, leb, if◌then◌else◌}

-- `negsuc n` is -(n + 1).
pub data ℤ : Type 0 where
  pos : ℕ → ℤ
  negsuc : ℕ → ℤ

abbrev pub Time : Type 0
Time = ℕ

abbrev pub Duration : Type 0
Duration = ℤ

abbrev pub pos_part : ℤ → ℕ
pos_part (pos n) = n
pos_part (negsuc n) = 0

abbrev pub neg_part : ℤ → ℕ
neg_part (pos n) = 0
neg_part (negsuc n) = suc n

-- `<` and `<=` on durations.
abbrev pub ltb_ℤ : ℤ → ℤ → Bool
ltb_ℤ a b = ltb (pos_part a + neg_part b) (pos_part b + neg_part a)

abbrev pub leb_ℤ : ℤ → ℤ → Bool
leb_ℤ a b = leb (pos_part a + neg_part b) (pos_part b + neg_part a)

-- math.MaxInt64 and 2^64.
abbrev pub max_int64 : ℕ
max_int64 = 9223372036854775807

abbrev pub two_64 : ℕ
two_64 = 18446744073709551616

-- now.Sub(t), which saturates at the ends of int64.
abbrev pub time_sub : Time → Time → Duration
time_sub now t =
    if leb t now then pos (min (now - t) max_int64) else negsuc (min (t - now - 1) max_int64)

-- t.Before(u)
abbrev pub before : Time → Time → Bool
before t u = ltb t u

-- t.Add(d)
abbrev pub time_add : Time → Duration → Time
time_add t (pos d) = t + d
time_add t (negsuc d) = t - suc d

-- The int64 that a bit pattern stands for, and the bit pattern of an integer.
abbrev of_bits : ℕ → ℤ
of_bits b = if leb b max_int64 then pos b else negsuc (two_64 - 1 - b)

abbrev to_bits : ℤ → ℕ
to_bits (pos n) = n % two_64
to_bits (negsuc n) = two_64 - 1 - n % two_64

-- a * b on int64.
unfoldable pub mul_int64 : ℤ → ℤ → ℤ
mul_int64 a b = of_bits (to_bits a * to_bits b % two_64)

-- a + b on int64.
unfoldable pub add_int64 : ℤ → ℤ → ℤ
add_int64 a b = of_bits ((to_bits a + to_bits b) % two_64)

-- Where neither factor is negative and the product fits, it does not wrap.
pub mul_int64_pos :
    (a b : ℕ)
    → a * b ≤ max_int64
    → a ≤ max_int64
    → b ≤ max_int64
    → mul_int64 (pos a) (pos b) ≡ pos (a * b)
unfolding mul_int64
mul_int64_pos a b h ha hb = ground (
  arith,
  mod-eq_of_lt {n = a} {m = two_64} (omega arith),
  mod-eq_of_lt {n = b} {m = two_64} (omega arith),
  mod-eq_of_lt {n = a * b} {m = two_64} (omega arith),
)

pub add_int64_pos : (a b : ℕ) → a + b ≤ max_int64 → add_int64 (pos a) (pos b) ≡ pos (a + b)
unfolding add_int64
add_int64_pos a b h = ground arith
