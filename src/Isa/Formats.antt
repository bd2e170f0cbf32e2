-- ===== src/Isa/Formats.antt =====
-- The decoder of `SIM::ID` (simulation.cpp) against an encoder of every instruction that it knows:
-- the formats I, U and J, and all of them together.
use riscv_64i_simulator.Common.{ℕ, ◌≤◌, ◌+◌, ◌*◌, ◌/◌, ◌%◌, ◌^◌, ◌<◌, ◌≡◌, refl, arith, ok, Bool}
use riscv_64i_simulator.Common.Bits.{bit_and-mask}
use riscv_64i_simulator.Isa.Inst.{InstType}
use riscv_64i_simulator.Isa.Fields.{
  opcode, funct3, funct6, funct7, rd, rs1, rs2, imm_i, imm_s, imm_sb, imm_u, imm_uj,
}
use riscv_64i_simulator.Isa.Immediates.{
  sign_extended, fields_s, fields_sb, fields_uj, imm_s_lem, imm_sb_lem, imm_uj_lem,
}
use riscv_64i_simulator.Isa.Decode.{type_imm, type_load, type_imm32, type_32}
use riscv_64i_simulator.Isa.Encode.{field_lems}

-- The word `op d, imm(a)` of the I format, for the 12-bit pattern of a number.
abbrev pub i_word : ℕ → ℕ → ℕ → ℕ → ℕ → ℕ
i_word op f3 d a imm = op + d * 2 ^ 7 + f3 * 2 ^ 12 + a * 2 ^ 15 + imm * 2 ^ 20

pub imm_i_lem : (inst : ℕ) → inst < 2 ^ 32 → imm_i inst ≡ sign_extended 12 (inst / 2 ^ 20)
unfolding imm_i
imm_i_lem inst h = ground arith

pub imm_u_lem : (inst : ℕ) → inst < 2 ^ 32 → imm_u inst ≡ sign_extended 20 (inst / 2 ^ 12)
unfolding imm_u
imm_u_lem inst h = ground arith

-- For every 32-bit word, the five immediates that `SIM::ID` puts together are the sign extensions
-- of the numbers that the formats make of its fields: 12 bits for I and S, 13 for B, 20 for U and
-- 21 for J.
pub immediates_lem :
    (inst : ℕ)
    → inst < 2 ^ 32
    → (imm_i inst ≡ sign_extended 12 (inst / 2 ^ 20))
      × (imm_s inst ≡ sign_extended 12 (fields_s inst))
      × (imm_sb inst ≡ sign_extended 13 (fields_sb inst))
      × (imm_u inst ≡ sign_extended 20 (inst / 2 ^ 12))
      × (imm_uj inst ≡ sign_extended 21 (fields_uj inst))
immediates_lem inst h =
    (imm_i_lem inst h, imm_s_lem inst h, imm_sb_lem inst h, imm_u_lem inst h, imm_uj_lem inst h)

funct6_lem : (inst : ℕ) → funct6 inst ≡ inst / 2 ^ 26 % 64
unfolding funct6
funct6_lem inst = bit_and-mask 6 (inst / 2 ^ 26)

pub record IFields (op f3 d a imm w : ℕ) : Type 0 where
  pub code : opcode w ≡ op
  pub kind : funct3 w ≡ f3
  pub dest : rd w ≡ d
  pub base : rs1 w ≡ a
  pub number : imm_i w ≡ sign_extended 12 imm
  pub high_six : funct6 w ≡ imm / 64
  pub high_seven : funct7 w ≡ imm / 32
  pub second : rs2 w ≡ imm % 32

pub i_fields :
    (op f3 d a imm : ℕ)
    → op < 128
    → f3 < 8
    → d < 32
    → a < 32
    → imm < 2 ^ 12
    → IFields op f3 d a imm (i_word op f3 d a imm)
i_fields op f3 d a imm o f p q r =
    let w = i_word op f3 d a imm in
    let small : w < 2 ^ 32 = omega arith in
    let top : w / 2 ^ 20 ≡ imm = omega arith in
    let l = field_lems w in
    record {
      code = omega (arith, l);
      kind = omega (arith, l);
      dest = omega (arith, l);
      base = omega (arith, l);
      number = rw (imm_i_lem w small, top) refl;
      high_six = omega (arith, funct6_lem w);
      high_seven = omega (arith, l);
      second = omega (arith, l);
    }

-- The operations with a number, and the shifts by one.
pub data IOp : Type 0 where
  i_add i_slt i_sltu i_xor i_or i_and : IOp

pub i_inst : IOp → InstType
i_inst i_add = InstType.addi
i_inst i_slt = InstType.slti
i_inst i_sltu = InstType.sltiu
i_inst i_xor = InstType.xori
i_inst i_or = InstType.ori
i_inst i_and = InstType.andi

pub i_funct3 : IOp → ℕ
i_funct3 i_add = 0
i_funct3 i_slt = 2
i_funct3 i_sltu = 3
i_funct3 i_xor = 4
i_funct3 i_or = 6
i_funct3 i_and = 7

pub i_codes :
    (o : IOp) (f6 : ℕ) → (i_funct3 o < 8) × (type_imm (i_funct3 o) f6 ≡ ok (i_inst o, Bool.false))
unfolding i_funct3 i_inst type_imm
i_codes i_add f6 = (omega arith, refl)
i_codes i_slt f6 = (omega arith, refl)
i_codes i_sltu f6 = (omega arith, refl)
i_codes i_xor f6 = (omega arith, refl)
i_codes i_or f6 = (omega arith, refl)
i_codes i_and f6 = (omega arith, refl)

pub data ShiftOp : Type 0 where
  left right right_signed : ShiftOp

pub shift_inst : ShiftOp → InstType
shift_inst left = InstType.slli
shift_inst right = InstType.srli
shift_inst right_signed = InstType.srai

pub shift_word_inst : ShiftOp → InstType
shift_word_inst left = InstType.slliw
shift_word_inst right = InstType.srliw
shift_word_inst right_signed = InstType.sraiw

pub shift_funct3 : ShiftOp → ℕ
shift_funct3 left = 1
shift_funct3 right = 5
shift_funct3 right_signed = 5

-- The bits of the number above a shift count of 64 and of 32 bits.
unfoldable pub shift_top : ShiftOp → ℕ
shift_top right_signed = 0x400
shift_top _ = 0

pub shift_codes :
    (o : ShiftOp)
    → (shift_funct3 o < 8)
      × (shift_top o ≤ 0x400)
      × (shift_top o % 64 ≡ 0)
      × (type_imm (shift_funct3 o) (shift_top o / 64) ≡ ok (shift_inst o, Bool.true))
      × (type_imm32 (shift_funct3 o) (shift_top o / 32) ≡ ok (shift_word_inst o))
unfolding shift_funct3 shift_top shift_inst shift_word_inst type_imm type_imm32
shift_codes left = (omega arith, omega arith, omega arith, refl, refl)
shift_codes right = (omega arith, omega arith, omega arith, refl, refl)
shift_codes right_signed = (omega arith, omega arith, omega arith, refl, refl)

pub data LOp : Type 0 where
  l_byte l_half l_word l_double l_byte_unsigned l_half_unsigned : LOp

pub l_inst : LOp → InstType
l_inst l_byte = InstType.lb
l_inst l_half = InstType.lh
l_inst l_word = InstType.lw
l_inst l_double = InstType.ld
l_inst l_byte_unsigned = InstType.lbu
l_inst l_half_unsigned = InstType.lhu

pub l_funct3 : LOp → ℕ
l_funct3 l_byte = 0
l_funct3 l_half = 1
l_funct3 l_word = 2
l_funct3 l_double = 3
l_funct3 l_byte_unsigned = 4
l_funct3 l_half_unsigned = 5

pub l_codes : (o : LOp) → (l_funct3 o < 8) × (type_load (l_funct3 o) ≡ ok (l_inst o))
unfolding l_funct3 l_inst type_load
l_codes l_byte = (omega arith, refl)
l_codes l_half = (omega arith, refl)
l_codes l_word = (omega arith, refl)
l_codes l_double = (omega arith, refl)
l_codes l_byte_unsigned = (omega arith, refl)
l_codes l_half_unsigned = (omega arith, refl)

-- The register operations on 32 bits that the decoder finds.
pub data WOp : Type 0 where
  w_add w_sub w_srl w_sra : WOp

pub w_inst : WOp → InstType
w_inst w_add = InstType.addw
w_inst w_sub = InstType.subw
w_inst w_srl = InstType.srlw
w_inst w_sra = InstType.sraw

pub w_funct3 : WOp → ℕ
w_funct3 w_add = 0
w_funct3 w_sub = 0
w_funct3 w_srl = 5
w_funct3 w_sra = 5

pub w_funct7 : WOp → ℕ
w_funct7 w_add = 0
w_funct7 w_sub = 0x20
w_funct7 w_srl = 0
w_funct7 w_sra = 0x20

pub w_codes :
    (o : WOp)
    → (w_funct3 o < 8) × (w_funct7 o < 128) × (type_32 (w_funct3 o) (w_funct7 o) ≡ ok (w_inst o))
unfolding w_funct3 w_funct7 w_inst type_32
w_codes w_add = (omega arith, omega arith, refl)
w_codes w_sub = (omega arith, omega arith, refl)
w_codes w_srl = (omega arith, omega arith, refl)
w_codes w_sra = (omega arith, omega arith, refl)
