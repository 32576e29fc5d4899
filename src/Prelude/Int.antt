-- ===== src/Prelude/Int.antt =====
-- Signed integers over the native numbers, for Go's int64 durations and differences.
use Prim.Native.Nat.{ℕ, suc, ◌+◌, ◌-◌, ◌*◌, ◌%◌, ◌≤◌, ◌<◌}
use mathlib.Core.Path.{◌≡◌}
use native.Mathlib.Omega.{arith}
use mathlib.Core.Bool.{Bool}
use grosz.Prelude.Tests.{ltb, leb, if◌then◌else◌}

-- `negsuc n` is -(n + 1).
pub data ℤ : Type 0 where
  pos : ℕ → ℤ
  negsuc : ℕ → ℤ

abbrev pub pos_part : ℤ → ℕ
pos_part (pos n) = n
pos_part (negsuc n) = 0

abbrev pub neg_part : ℤ → ℕ
neg_part (pos n) = 0
neg_part (negsuc n) = suc n

-- a - b, as an integer.
abbrev pub sub_ℕ : ℕ → ℕ → ℤ
sub_ℕ a b = if leb b a then pos (a - b) else negsuc (b - a - 1)

infix 50 ◌≤ℤ◌
abbrev pub ◌≤ℤ◌ : ℤ → ℤ → Type 0
a ≤ℤ b = pos_part a + neg_part b ≤ pos_part b + neg_part a

abbrev pub ltb_ℤ : ℤ → ℤ → Bool
ltb_ℤ a b = ltb (pos_part a + neg_part b) (pos_part b + neg_part a)

-- A product with a positive number.
abbrev pub scale : ℤ → ℕ → ℤ
scale (pos n) k = pos (n * k)
scale (negsuc n) k = negsuc (suc n * k - 1)

-- The later instant, by a duration that may be below 0.
abbrev pub later : ℕ → ℤ → ℕ
later t (pos n) = t + n
later t (negsuc n) = t - suc n

-- What int64 makes of an integer: the remainder by 2^64, with 2^63 and more as numbers below 0.
abbrev signed : ℕ → ℤ
signed r =
    if ltb r 9_223_372_036_854_775_808 then pos r else negsuc (18_446_744_073_709_551_615 - r)

pub wrap_int64 : ℤ → ℤ
wrap_int64 (pos n) = signed (n % 18_446_744_073_709_551_616)
wrap_int64 (negsuc n) = signed (18_446_744_073_709_551_615 - n % 18_446_744_073_709_551_616)

pub wrap_int64-small : (n : ℕ) → n < 9_223_372_036_854_775_808 → wrap_int64 (pos n) ≡ pos n
unfolding wrap_int64
wrap_int64-small n h =
    let same : n % 18_446_744_073_709_551_616 ≡ n = omega arith in rw same (ground (arith, h))
