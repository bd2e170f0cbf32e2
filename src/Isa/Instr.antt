-- ===== src/Isa/Instr.antt =====
-- The instructions that the decoder of `SIM::ID` (simulation.cpp) finds, as the instruction set
-- describes them: their words, and what ID is to find.
use riscv_64i_simulator.Common.{ℕ, ◌+◌, ◌*◌, ◌/◌, ◌%◌, ◌^◌, ◌<◌, ◌≡◌, sext32}
use riscv_64i_simulator.Isa.Inst.{InstType, no_reg, reg_a0, reg_a7}
use riscv_64i_simulator.Isa.Immediates.{sign_extended}
use riscv_64i_simulator.Isa.Decode.{Decoded}
use riscv_64i_simulator.Isa.Encode.{ROp, r_inst, r_word}
use riscv_64i_simulator.Isa.Encode.Branch.{BOp, b_inst, b_word}
use riscv_64i_simulator.Isa.Encode.Store.{SOp, s_inst, store_word}
use riscv_64i_simulator.Isa.Formats.{
  i_word, IOp, i_inst, i_funct3, ShiftOp, shift_inst, shift_word_inst, shift_funct3, shift_top,
  right_signed, LOp, l_inst, l_funct3, WOp, w_inst, w_funct3, w_funct7,
}

-- The instructions, with their registers and the patterns of their numbers. A destination comes
-- first; `jump` is JAL and `jump_to` JALR.
pub data Instr : Type 0 where
  register : ROp → ℕ → ℕ → ℕ → Instr
  register_word : WOp → ℕ → ℕ → ℕ → Instr
  number : IOp → ℕ → ℕ → ℕ → Instr
  number_word : ℕ → ℕ → ℕ → Instr
  shift : ShiftOp → ℕ → ℕ → ℕ → Instr
  shift_word : ShiftOp → ℕ → ℕ → ℕ → Instr
  load : LOp → ℕ → ℕ → ℕ → Instr
  store : SOp → ℕ → ℕ → ℕ → Instr
  branch : BOp → ℕ → ℕ → ℕ → Instr
  jump : ℕ → ℕ → Instr
  jump_to : ℕ → ℕ → ℕ → Instr
  upper upper_pc : ℕ → ℕ → Instr
  call : Instr

-- The registers and numbers that the formats have room for.
unfoldable pub IsEncodable : Instr → Type 0
IsEncodable (register o d a b) = (d < 32) × (a < 32) × (b < 32)
IsEncodable (register_word o d a b) = (d < 32) × (a < 32) × (b < 32)
IsEncodable (number o d a imm) = (d < 32) × (a < 32) × (imm < 2 ^ 12)
IsEncodable (number_word d a imm) = (d < 32) × (a < 32) × (imm < 2 ^ 12)
IsEncodable (shift o d a count) = (d < 32) × (a < 32) × (count < 64)
IsEncodable (shift_word o d a count) = (d < 32) × (a < 32) × (count < 32)
IsEncodable (load o d a imm) = (d < 32) × (a < 32) × (imm < 2 ^ 12)
IsEncodable (store o a b imm) = (a < 32) × (b < 32) × (imm < 2 ^ 12)
IsEncodable (branch o a b imm) = (a < 32) × (b < 32) × (imm < 2 ^ 13) × (imm % 2 ≡ 0)
IsEncodable (jump d imm) = (d < 32) × (imm < 2 ^ 21) × (imm % 2 ≡ 0)
IsEncodable (jump_to d a imm) = (d < 32) × (a < 32) × (imm < 2 ^ 12)
IsEncodable (upper d imm) = (d < 32) × (imm < 2 ^ 20)
IsEncodable (upper_pc d imm) = (d < 32) × (imm < 2 ^ 20)
IsEncodable call = Unit {0}

-- The word of the J format: bits 19 to 12, 11, 10 to 1 and 20 of the offset.
abbrev pub j_word : ℕ → ℕ → ℕ
j_word d imm =
    0x6F
    + d * 2 ^ 7
    + imm / 2 ^ 12 % 256 * 2 ^ 12
    + imm / 2 ^ 11 % 2 * 2 ^ 20
    + imm / 2 % 1024 * 2 ^ 21
    + imm / 2 ^ 20 * 2 ^ 31

unfoldable pub encode : Instr → ℕ
encode (register o d a b) = r_word o d a b
encode (register_word o d a b) = i_word 0x3B (w_funct3 o) d a (w_funct7 o * 32 + b)
encode (number o d a imm) = i_word 0x13 (i_funct3 o) d a imm
encode (number_word d a imm) = i_word 0x1B 0 d a imm
encode (shift o d a count) = i_word 0x13 (shift_funct3 o) d a (shift_top o + count)
encode (shift_word o d a count) = i_word 0x1B (shift_funct3 o) d a (shift_top o + count)
encode (load o d a imm) = i_word 0x03 (l_funct3 o) d a imm
encode (store o a b imm) = store_word o a b imm
encode (branch o a b imm) = b_word o a b imm
encode (jump d imm) = j_word d imm
encode (jump_to d a imm) = i_word 0x67 0 d a imm
encode (upper d imm) = 0x37 + d * 2 ^ 7 + imm * 2 ^ 12
encode (upper_pc d imm) = 0x17 + d * 2 ^ 7 + imm * 2 ^ 12
encode call = 0x73

-- What ID is to find, over a register file.
abbrev pub with_number : InstType → ℕ → ℕ → ℕ → ℕ → ℕ → Decoded
with_number t d a v w offset = record {
  insttype = t;
  val_a = v;
  val_b = w;
  offset = offset;
  dest = d;
  reg1 = a;
  reg2 = no_reg;
}

abbrev pub two_registers : (ℕ → ℕ) → InstType → ℕ → ℕ → ℕ → ℕ → Decoded
two_registers reg t d a b offset = record {
  insttype = t;
  val_a = reg a;
  val_b = reg b;
  offset = offset;
  dest = d;
  reg1 = a;
  reg2 = b;
}

abbrev pub extended : ℕ → ℕ → ℕ
extended w imm = sext32 (sign_extended w imm)

unfoldable pub decoded : (ℕ → ℕ) → Instr → Decoded
decoded reg (register o d a b) = two_registers reg (r_inst o) d a b 0
decoded reg (register_word o d a b) = two_registers reg (w_inst o) d a b 0
decoded reg (number o d a imm) = with_number (i_inst o) d a (reg a) (extended 12 imm) 0
decoded reg (number_word d a imm) = with_number InstType.addiw d a (reg a) (extended 12 imm) 0
decoded reg (shift o d a count) = with_number (shift_inst o) d a (reg a) count 0
decoded reg (shift_word o d a count) = with_number (shift_word_inst o) d a (reg a) count 0
decoded reg (load o d a imm) =
    with_number (l_inst o) d a (reg a) (extended 12 imm) (extended 12 imm)
decoded reg (store o a b imm) = two_registers reg (s_inst o) no_reg a b (extended 12 imm)
decoded reg (branch o a b imm) = two_registers reg (b_inst o) no_reg a b (extended 13 imm)
decoded reg (jump d imm) = with_number InstType.jal d no_reg (extended 21 imm) 0 (extended 21 imm)
decoded reg (jump_to d a imm) = with_number InstType.jalr d a (reg a) (extended 12 imm) 0
decoded reg (upper d imm) = with_number InstType.lui d no_reg (extended 20 imm) 0 (extended 20 imm)
decoded reg (upper_pc d imm) =
    with_number InstType.auipc d no_reg (extended 20 imm) 0 (extended 20 imm)
decoded reg call = two_registers reg InstType.ecall no_reg reg_a0 reg_a7 0

-- What the code finds instead: for SRAIW it takes the whole immediate as the count, and bit 10 of
-- it, which tells SRAIW from SRLIW, is set.
unfoldable pub seen : (ℕ → ℕ) → Instr → Decoded
seen reg (shift_word right_signed d a count) =
    record (decoded reg (shift_word right_signed d a count)) { val_b = 0x400 + count }
seen reg i = decoded reg i
