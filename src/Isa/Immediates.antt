-- ===== src/Isa/Immediates.antt =====
-- The immediates that `SIM::ID` puts together, against the fields of the RISC-V formats.
use riscv_64i_simulator.Common.{
  ℕ, ◌+◌, ◌-◌, ◌*◌, ◌/◌, ◌%◌, ◌^◌, ◌<◌, ◌≡◌, arith, bit_and, bit_or, shl32, asr32, ltb,
  if◌then◌else◌,
}
use riscv_64i_simulator.Common.Bits.{bit_and-field, bit_or-field}
use riscv_64i_simulator.Isa.Fields.{imm_s, imm_sb, imm_uj}

-- The 32-bit pattern of the number that `w` bits stand for in two's complement.
abbrev pub sign_extended : ℕ → ℕ → ℕ
sign_extended w f = if ltb f (2 ^ (w - 1)) then f else f + (2 ^ 32 - 2 ^ w)

-- The bits of the S format.
abbrev pub fields_s : ℕ → ℕ
fields_s inst = inst / 2 ^ 7 % 2 ^ 5 + inst / 2 ^ 25 * 2 ^ 5

asr32-field :
    (w k j inst : ℕ)
    → bit_and (asr32 inst j) ((2 ^ w - 1) * 2 ^ k) ≡ asr32 inst j / 2 ^ k % 2 ^ w * 2 ^ k
asr32-field w k j inst = bit_and-field w k (asr32 inst j)

imm_s_bits :
    (inst : ℕ)
    → inst < 2 ^ 32
    → bit_or (bit_and (asr32 inst 7) 0x1F) (bit_and (asr32 inst 20) 0xFE0) ≡ fields_s inst
imm_s_bits inst h = ground (
  arith,
  asr32-field 5 0 7 inst,
  asr32-field 7 5 20 inst,
  bit_or-field 5 (asr32 inst 20 / 2 ^ 5 % 2 ^ 7) (asr32 inst 7 % 2 ^ 5),
)

-- For every 32-bit word, the store offset that `SIM::ID` puts together is the sign extension of the
-- 12-bit number made of the fields of the S format.
pub imm_s_lem : (inst : ℕ) → inst < 2 ^ 32 → imm_s inst ≡ sign_extended 12 (fields_s inst)
unfolding imm_s
imm_s_lem inst h = rw (imm_s_bits inst h) (ground arith)

-- `|` of three fields that follow one another.
or_two :
    (k l q q' r : ℕ)
    → r < 2 ^ k
    → r + q * 2 ^ k < 2 ^ l
    → bit_or (bit_or r (q * 2 ^ k)) (q' * 2 ^ l) ≡ r + q * 2 ^ k + q' * 2 ^ l
or_two k l q q' r h g = rw (bit_or-field k q r h) (bit_or-field l q' (r + q * 2 ^ k) g)

or_three :
    (k l m q q' q'' r : ℕ)
    → r < 2 ^ k
    → r + q * 2 ^ k < 2 ^ l
    → r + q * 2 ^ k + q' * 2 ^ l < 2 ^ m
    → bit_or (bit_or (bit_or r (q * 2 ^ k)) (q' * 2 ^ l)) (q'' * 2 ^ m)
      ≡ r + q * 2 ^ k + q' * 2 ^ l + q'' * 2 ^ m
or_three k l m q q' q'' r h g f =
    rw (or_two k l q q' r h g) (bit_or-field m q'' (r + q * 2 ^ k + q' * 2 ^ l) f)

-- The bits of the B format: bits 4 to 1, 10 to 5, 11 and 12 of the offset.
abbrev pub fields_sb : ℕ → ℕ
fields_sb inst =
    inst / 2 ^ 8 % 2 ^ 4 * 2
    + inst / 2 ^ 25 % 2 ^ 6 * 2 ^ 5
    + inst / 2 ^ 7 % 2 * 2 ^ 11
    + inst / 2 ^ 31 * 2 ^ 12

sb_low : (inst : ℕ) → inst < 2 ^ 32 → bit_and (asr32 inst 7) 0x1E ≡ inst / 2 ^ 8 % 2 ^ 4 * 2
sb_low inst h = ground (arith, bit_and-field 4 1 (asr32 inst 7))

sb_mid : (inst : ℕ) → inst < 2 ^ 32 → bit_and (asr32 inst 20) 0x7E0 ≡ inst / 2 ^ 25 % 2 ^ 6 * 2 ^ 5
sb_mid inst h = ground (arith, bit_and-field 6 5 (asr32 inst 20))

sb_eleven : (inst : ℕ) → inst < 2 ^ 32 → bit_and (shl32 inst 4) 0x800 ≡ inst / 2 ^ 7 % 2 * 2 ^ 11
sb_eleven inst h = ground (arith, bit_and-field 1 11 (shl32 inst 4))

sb_sign : (inst : ℕ) → inst < 2 ^ 32 → bit_and (asr32 inst 19) 0x1000 ≡ inst / 2 ^ 31 * 2 ^ 12
sb_sign inst h = ground (arith, bit_and-field 1 12 (asr32 inst 19))

-- For every 32-bit word, the branch offset that `SIM::ID` and `SIM::IF` put together is the sign
-- extension of the 13-bit number made of the fields of the B format.
pub imm_sb_lem : (inst : ℕ) → inst < 2 ^ 32 → imm_sb inst ≡ sign_extended 13 (fields_sb inst)
unfolding imm_sb
imm_sb_lem inst h =
    rw
      (
        sb_low inst h,
        sb_mid inst h,
        sb_eleven inst h,
        sb_sign inst h,
        or_three 5 11 12 (inst / 2 ^ 25 % 2 ^ 6) (inst / 2 ^ 7 % 2) (inst / 2 ^ 31)
            (inst / 2 ^ 8 % 2 ^ 4 * 2) (omega arith) (omega arith) (omega arith),
      )
      (ground arith)

-- The bits of the J format, halved: bits 10 to 1, 11, 19 to 12 and 20 of the offset.
abbrev pub fields_uj : ℕ → ℕ
fields_uj inst =
    inst / 2 ^ 21 % 2 ^ 10 * 2
    + inst / 2 ^ 20 % 2 * 2 ^ 11
    + inst / 2 ^ 12 % 2 ^ 8 * 2 ^ 12
    + inst / 2 ^ 31 * 2 ^ 20

uj_low : (inst : ℕ) → inst < 2 ^ 32 → bit_and (asr32 inst 21) 0x3FF ≡ inst / 2 ^ 21 % 2 ^ 10
uj_low inst h = ground (arith, bit_and-field 10 0 (asr32 inst 21))

uj_eleven : (inst : ℕ) → inst < 2 ^ 32 → bit_and (asr32 inst 10) 0x400 ≡ inst / 2 ^ 20 % 2 * 2 ^ 10
uj_eleven inst h = ground (arith, bit_and-field 1 10 (asr32 inst 10))

uj_high :
    (inst : ℕ) → inst < 2 ^ 32 → bit_and (asr32 inst 1) 0x7F800 ≡ inst / 2 ^ 12 % 2 ^ 8 * 2 ^ 11
uj_high inst h = ground (arith, bit_and-field 8 11 (asr32 inst 1))

uj_sign : (inst : ℕ) → inst < 2 ^ 32 → bit_and (asr32 inst 12) 0x80000 ≡ inst / 2 ^ 31 * 2 ^ 19
uj_sign inst h = ground (arith, bit_and-field 1 19 (asr32 inst 12))

-- For every 32-bit word, the jump offset that `SIM::ID` puts together is the sign extension of the
-- 21-bit number made of the fields of the J format.
pub imm_uj_lem : (inst : ℕ) → inst < 2 ^ 32 → imm_uj inst ≡ sign_extended 21 (fields_uj inst)
unfolding imm_uj
imm_uj_lem inst h =
    rw
      (
        uj_low inst h,
        uj_eleven inst h,
        uj_high inst h,
        uj_sign inst h,
        or_three 10 11 19 (inst / 2 ^ 20 % 2) (inst / 2 ^ 12 % 2 ^ 8) (inst / 2 ^ 31)
            (inst / 2 ^ 21 % 2 ^ 10) (omega arith) (omega arith) (omega arith),
      )
      (ground arith)
