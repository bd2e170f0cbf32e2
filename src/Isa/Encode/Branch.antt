-- ===== src/Isa/Encode/Branch.antt =====
-- The decoder of `SIM::ID` (simulation.cpp) against an encoder written from the format B.
use riscv_64i_simulator.Common.{ℕ, ◌+◌, ◌*◌, ◌/◌, ◌%◌, ◌^◌, ◌<◌, ◌≡◌, refl, arith, ok, sext32}
use riscv_64i_simulator.Isa.Inst.{InstType, no_reg}
use riscv_64i_simulator.Isa.Fields.{opcode, funct3, rs1, rs2}
use riscv_64i_simulator.Isa.Immediates.{sign_extended, fields_sb, imm_sb_lem}
use riscv_64i_simulator.Isa.Decode.{type_branch, decode_branch, decode}
use riscv_64i_simulator.Isa.Encode.{field_lems}

-- The branches.
pub data BOp : Type 0 where
  b_eq b_ne b_lt b_ge b_ltu b_geu : BOp

pub b_inst : BOp → InstType
b_inst b_eq = InstType.beq
b_inst b_ne = InstType.bne
b_inst b_lt = InstType.blt
b_inst b_ge = InstType.bge
b_inst b_ltu = InstType.bltu
b_inst b_geu = InstType.bgeu

pub b_funct3 : BOp → ℕ
b_funct3 b_eq = 0
b_funct3 b_ne = 1
b_funct3 b_lt = 4
b_funct3 b_ge = 5
b_funct3 b_ltu = 6
b_funct3 b_geu = 7

-- The word `op a, b, imm`, for the 13-bit pattern of an offset.
pub b_word : BOp → ℕ → ℕ → ℕ → ℕ
b_word o a b imm =
    0x63
    + imm / 2 ^ 11 % 2 * 2 ^ 7
    + imm / 2 % 16 * 2 ^ 8
    + b_funct3 o * 2 ^ 12
    + a * 2 ^ 15
    + b * 2 ^ 20
    + imm / 2 ^ 5 % 64 * 2 ^ 25
    + imm / 2 ^ 12 * 2 ^ 31

b_codes : (o : BOp) → (b_funct3 o < 8) × (type_branch (b_funct3 o) ≡ ok (b_inst o))
unfolding b_funct3 type_branch b_inst
b_codes b_eq = (omega arith, refl)
b_codes b_ne = (omega arith, refl)
b_codes b_lt = (omega arith, refl)
b_codes b_ge = (omega arith, refl)
b_codes b_ltu = (omega arith, refl)
b_codes b_geu = (omega arith, refl)

b_fields :
    (o : BOp) (a b imm : ℕ)
    → a < 32
    → b < 32
    → imm < 2 ^ 13
    → imm % 2 ≡ 0
    → (opcode (b_word o a b imm) ≡ 0x63)
      × (funct3 (b_word o a b imm) ≡ b_funct3 o)
      × (rs1 (b_word o a b imm) ≡ a)
      × (rs2 (b_word o a b imm) ≡ b)
      × (b_word o a b imm < 2 ^ 32)
      × (fields_sb (b_word o a b imm) ≡ imm)
unfolding b_word
b_fields o a b imm p q r e =
    let (f, g) = b_codes o in
    let (op, f3, f7, d, s, t) = field_lems (b_word o a b imm) in
    (
      omega (arith, op),
      omega (arith, f3),
      omega (arith, s),
      omega (arith, t),
      omega arith,
      omega arith,
    )

-- For each of the six branches, any two registers and any even 13-bit offset pattern, decoding the
-- word that the B format makes of them gives back the branch, the registers with their values, no
-- destination, and the offset extended to 64 bits with its sign.
pub decode-b_word :
    (reg : ℕ → ℕ) (o : BOp) (a b imm : ℕ)
    → a < 32
    → b < 32
    → imm < 2 ^ 13
    → imm % 2 ≡ 0
    → decode reg (b_word o a b imm)
      ≡ ok (record {
        insttype = b_inst o;
        val_a = reg a;
        val_b = reg b;
        offset = sext32 (sign_extended 13 imm);
        dest = no_reg;
        reg1 = a;
        reg2 = b;
      })
unfolding decode decode_branch
decode-b_word reg o a b imm p q r h =
    let (e, f3, y, z, small, whole) = b_fields o a b imm p q r h in
    rw (e, f3, y, z, (b_codes o).1, imm_sb_lem (b_word o a b imm) small, whole) refl
