-- ===== src/Isa/Arithmetic.antt =====
-- The arithmetic of the `switch (inst)` of `SIM::EX` (simulation.cpp) on integers: what the two's
-- complement patterns that it computes stand for.
use native.Mathlib.Nat.{one-le-pow, div-le_self, div-eq_of_lt-le, div-add-mod', add-mul, mod-lt}
use riscv_64i_simulator.Common.{
  ℕ, ◌+◌, ◌-◌, ◌*◌, ◌/◌, ◌%◌, ◌^◌, ◌<◌, ◌≡◌, arith, asr64, wrap64, signed64, add64, sub64, sext32,
  u32, ltb, if◌then◌else◌, Bool, true, false, ap,
}
use riscv_64i_simulator.Common.Int.{ℤ, pos, negsuc, pos_part, neg_part, sub_ℕ, ltb_ℤ}
use riscv_64i_simulator.Isa.Inst.{InstType, add, addi, sub, addw, addiw, subw, slt, slti, sra, srai}
use riscv_64i_simulator.Isa.Execute.{execute, to_reg}

infixl 65 ◌+ℤ◌
abbrev pub ◌+ℤ◌ : ℤ → ℤ → ℤ
x +ℤ y = sub_ℕ (pos_part x + pos_part y) (neg_part x + neg_part y)

infixl 65 ◌-ℤ◌
abbrev pub ◌-ℤ◌ : ℤ → ℤ → ℤ
x -ℤ y = sub_ℕ (pos_part x + neg_part y) (neg_part x + pos_part y)

-- The integer that the low 32 bits of another stand for as an `int32_t`.
abbrev pub word : ℤ → ℤ
word z =
    let low = wrap64 z % 2 ^ 32 in if ltb low (2 ^ 31) then pos low else negsuc (2 ^ 32 - low - 1)

-- x / 2 ^ k, rounded down.
abbrev pub floor_shift : ℤ → ℕ → ℤ
floor_shift (pos n) k = pos (n / 2 ^ k)
floor_shift (negsuc n) k = negsuc (n / 2 ^ k)

add_lem : (a b : ℕ) → a < 2 ^ 64 → b < 2 ^ 64 → add64 a b ≡ wrap64 (signed64 a +ℤ signed64 b)
add_lem a b p q = ground arith

sub_lem : (a b : ℕ) → a < 2 ^ 64 → b < 2 ^ 64 → sub64 a b ≡ wrap64 (signed64 a -ℤ signed64 b)
sub_lem a b p q = ground arith

addw_lem :
    (a b : ℕ)
    → a < 2 ^ 64
    → b < 2 ^ 64
    → sext32 (u32 (u32 a + u32 b)) ≡ wrap64 (word (signed64 a +ℤ signed64 b))
addw_lem a b p q = ground arith

subw_lem :
    (a b : ℕ)
    → a < 2 ^ 64
    → b < 2 ^ 64
    → sext32 (u32 (u32 a + 2 ^ 32 - u32 b)) ≡ wrap64 (word (signed64 a -ℤ signed64 b))
subw_lem a b p q = ground arith

-- The bits that come in from the left of a negative pattern round its quotient down.
complement-div :
    (t q r w : ℕ)
    → r < t
    → q * t + r < 2 ^ 64
    → w + q + 1 ≡ 2 ^ 64
    → (2 ^ 64 - 1 - (q * t + r) + 2 ^ 64 * (t - 1)) / t ≡ w
complement-div t q r w h k e =
    div-eq_of_lt-le t (omega (arith, spread)) (omega (arith, spread, add-mul w 1 t))
  where
    spread : w * t + q * t + t ≡ 2 ^ 64 * t
    spread = omega (arith, ap (λ z. z * t) e, add-mul (w + q) 1 t, add-mul w q t)

-- A pattern with its sign bit set stands for -(n + 1).
asr64-negative :
    (n k : ℕ)
    → n < 2 ^ 64
    → (2 ^ 64 - 1 - n + 2 ^ 64 * (2 ^ k - 1)) / 2 ^ k ≡ 2 ^ 64 - 1 - n / 2 ^ k
asr64-negative n k p =
    let t = one-le-pow k 2 (omega arith) in
    let parts : n / 2 ^ k * 2 ^ k + n % 2 ^ k ≡ n = div-add-mod' n (2 ^ k) in
    let small = div-le_self n (2 ^ k) in
    rw parts at (
      complement-div (2 ^ k) (n / 2 ^ k) (n % 2 ^ k) (2 ^ 64 - 1 - n / 2 ^ k) (mod-lt n t)
        (omega (arith, parts)) (omega (arith, small)))

asr64_lem : (a k : ℕ) → a < 2 ^ 64 → asr64 a k ≡ wrap64 (floor_shift (signed64 a) k)
asr64_lem a k p =
    let n = asr64-negative (2 ^ 64 - a - 1) k (omega arith) in
    let back : 2 ^ 64 - 1 - (2 ^ 64 - a - 1) ≡ a = omega arith in
    ground (arith, rw back at n, div-le_self a (2 ^ k), div-le_self (2 ^ 64 - a - 1) (2 ^ k))

-- The instructions whose result is a sum, a difference, a comparison or a shift of integers.
pub data Arith : Type 0 where
  sum sum_imm difference less less_imm sum_word sum_imm_word difference_word shift shift_imm : Arith

unfoldable pub inst_of : Arith → InstType
inst_of sum = add
inst_of sum_imm = addi
inst_of difference = sub
inst_of less = slt
inst_of less_imm = slti
inst_of sum_word = addw
inst_of sum_imm_word = addiw
inst_of difference_word = subw
inst_of shift = sra
inst_of shift_imm = srai

-- What each computes of the integers that its operands stand for; a shift count is no integer but
-- the number itself.
pub meaning : Arith → ℤ → ℤ → ℕ → ℤ
meaning sum x y k = x +ℤ y
meaning sum_imm x y k = x +ℤ y
meaning difference x y k = x -ℤ y
meaning less x y k = if ltb_ℤ x y then pos 1 else pos 0
meaning less_imm x y k = if ltb_ℤ x y then pos 1 else pos 0
meaning sum_word x y k = word (x +ℤ y)
meaning sum_imm_word x y k = word (x +ℤ y)
meaning difference_word x y k = word (x -ℤ y)
meaning shift x y k = floor_shift x k
meaning shift_imm x y k = floor_shift x k

pub is_shift : Arith → Bool
is_shift shift = true
is_shift shift_imm = true
is_shift _ = false

-- For ADD, ADDI, SUB, SLT, SLTI, ADDW, ADDIW, SUBW, SRA and SRAI, for operands of 64 bits and, in
-- the two shifts, a count below 64: the switch of `SIM::EX` writes the two's complement pattern of
-- the sum, the difference, the comparison, the low word with its sign or the quotient by a power of
-- two rounded down, taken of the integers that the operands stand for.
pub execute-meaning :
    (o : Arith) (pc a b offset : ℕ)
    → a < 2 ^ 64
    → b < 2 ^ 64
    → (is_shift o ≡ true → b < 64)
    → execute (inst_of o) pc a b offset ≡ to_reg b (wrap64 (meaning o (signed64 a) (signed64 b) b))
unfolding execute inst_of meaning is_shift
execute-meaning o pc a b offset p q s = ground (
  arith,
  add_lem a b p q,
  sub_lem a b p q,
  addw_lem a b p q,
  subw_lem a b p q,
  asr64_lem a b p,
  s,
)
