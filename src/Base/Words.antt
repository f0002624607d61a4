-- ===== src/Base/Words.antt =====
-- 32-bit machine words: an `int`, an `unsigned` and a pointer are the bit pattern, a number
-- below 2 ^ 32. Addition and subtraction wrap; a negative `int` has its top bit set.
use Prim.Native.Nat.{ℕ, ◌+◌, ◌-◌, ◌*◌, ◌/◌, ◌%◌, ◌^◌}
use mathlib.Core.Bool.{Bool}
use xeros_kernel.Base.Tests.{leb, ◌==◌, if◌then◌else◌}

abbrev pub add32 : ℕ → ℕ → ℕ
add32 a b = (a + b) % 2 ^ 32

abbrev pub sub32 : ℕ → ℕ → ℕ
sub32 a b = (a + 2 ^ 32 - b) % 2 ^ 32

-- The pattern of `-n`, for 0 < n ≤ 2 ^ 31.
abbrev pub minus : ℕ → ℕ
minus n = 2 ^ 32 - n

-- `w < 0` for an `int`.
abbrev pub is_neg : ℕ → Bool
is_neg w = leb (2 ^ 31) w

-- `w & (1 << i)`, as a test.
abbrev pub bit_set : ℕ → ℕ → Bool
bit_set w i = (w / 2 ^ i) % 2 == 1

-- `w << s`, and `w >> s` of an `int`, which copies the sign, for s < 32.
abbrev pub shl : ℕ → ℕ → ℕ
shl w s = (w * 2 ^ s) % 2 ^ 32

abbrev pub sar : ℕ → ℕ → ℕ
sar w s = if is_neg w then w / 2 ^ s + (2 ^ 32 - 2 ^ (32 - s)) else w / 2 ^ s

-- `w | (1 << i)`, and `w & ~(1 << i)`.
abbrev pub bit_on : ℕ → ℕ → ℕ
bit_on w i = if bit_set w i then w else w + 2 ^ i

abbrev pub bit_off : ℕ → ℕ → ℕ
bit_off w i = if bit_set w i then w - 2 ^ i else w

-- `w ^ (1 << i)`.
abbrev pub bit_flip : ℕ → ℕ → ℕ
bit_flip w i = if bit_set w i then w - 2 ^ i else w + 2 ^ i

-- `w / n` and `w % n` of an `int` w by n > 0, which are rounded towards 0.
abbrev pub sdiv : ℕ → ℕ → ℕ
sdiv w n = if is_neg w then sub32 0 ((2 ^ 32 - w) / n) else w / n

abbrev pub srem : ℕ → ℕ → ℕ
srem w n = if is_neg w then sub32 0 ((2 ^ 32 - w) % n) else w % n
