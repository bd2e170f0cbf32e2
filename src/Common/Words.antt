-- ===== src/Common/Words.antt =====
-- Casts to the fixed widths and the shifts of C, on bit patterns: a w-bit word is a number below
-- 2 ^ w, and a signed word is its two's complement pattern.
use Prim.Native.Nat.{ℕ, ◌+◌, ◌-◌, ◌*◌, ◌/◌, ◌%◌, ◌^◌}
use mathlib.Core.Bool.{Bool}
use riscv_64i_simulator.Common.Tests.{ltb, if◌then◌else◌}
use riscv_64i_simulator.Common.Int.{ℤ, pos, negsuc, ltb_ℤ}

abbrev pub u8 : ℕ → ℕ
u8 n = n % 2 ^ 8

abbrev pub u32 : ℕ → ℕ
u32 n = n % 2 ^ 32

abbrev pub u64 : ℕ → ℕ
u64 n = n % 2 ^ 64

infixl 75 ◌>>>◌
abbrev pub ◌>>>◌ : ℕ → ℕ → ℕ
x >>> k = x / 2 ^ k

-- `x << k` on 32 bits
abbrev pub shl32 : ℕ → ℕ → ℕ
shl32 x k = u32 (x * 2 ^ k)

-- `x << k` on 64 bits
abbrev pub shl64 : ℕ → ℕ → ℕ
shl64 x k = u64 (x * 2 ^ k)

-- `x >> k` on a signed 32-bit word: ones come in from the left when the sign bit is set
abbrev pub asr32 : ℕ → ℕ → ℕ
asr32 x k = if ltb x (2 ^ 31) then x / 2 ^ k else (x + 2 ^ 32 * (2 ^ k - 1)) / 2 ^ k

-- `x >> k` on a signed 64-bit word
abbrev pub asr64 : ℕ → ℕ → ℕ
asr64 x k = if ltb x (2 ^ 63) then x / 2 ^ k else (x + 2 ^ 64 * (2 ^ k - 1)) / 2 ^ k

-- `(int64_t)x` of an `int32_t`
abbrev pub sext32 : ℕ → ℕ
sext32 x = if ltb x (2 ^ 31) then x else x + (2 ^ 64 - 2 ^ 32)

-- `a + b` and `a - b` on 64 bits; the modulus is added first since `-` on ℕ stops at 0
abbrev pub add64 : ℕ → ℕ → ℕ
add64 a b = u64 (a + b)

abbrev pub sub64 : ℕ → ℕ → ℕ
sub64 a b = u64 (a + 2 ^ 64 - b)

-- The integer that a 64-bit pattern stands for as an `int64_t`
abbrev pub signed64 : ℕ → ℤ
signed64 w = if ltb w (2 ^ 63) then pos w else negsuc (2 ^ 64 - w - 1)

-- The pattern of an integer
abbrev pub wrap64 : ℤ → ℕ
wrap64 (pos n) = n % 2 ^ 64
wrap64 (negsuc n) = 2 ^ 64 - 1 - n % 2 ^ 64

-- `a < b` on `int64_t`
abbrev pub slt64 : ℕ → ℕ → Bool
slt64 a b = ltb_ℤ (signed64 a) (signed64 b)
