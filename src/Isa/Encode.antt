-- ===== src/Isa/Encode.antt =====
-- The decoder of `SIM::ID` (simulation.cpp) against encoders written from the instruction formats;
-- here the format R.
pub mod Branch
pub mod Store
use riscv_64i_simulator.Common.{ℕ, ◌+◌, ◌*◌, ◌/◌, ◌%◌, ◌^◌, ◌<◌, ◌≡◌, refl, arith, ok, sext32}
use riscv_64i_simulator.Common.Bits.{bit_and-mask}
use riscv_64i_simulator.Isa.Inst.{InstType, no_reg}
use riscv_64i_simulator.Isa.Fields.{opcode, funct3, funct7, rd, rs1, rs2}
use riscv_64i_simulator.Isa.Immediates.{sign_extended, fields_s, fields_sb, imm_s_lem, imm_sb_lem}
use riscv_64i_simulator.Isa.Decode.{
  type_r, decode_r, type_branch, decode_branch, type_store, decode_store, decode,
}

-- The fields as quotients and remainders.
pub field_lems :
    (w : ℕ)
    → (opcode w ≡ w % 128)
      × (funct3 w ≡ w / 2 ^ 12 % 8)
      × (funct7 w ≡ w / 2 ^ 25 % 128)
      × (rd w ≡ w / 2 ^ 7 % 32)
      × (rs1 w ≡ w / 2 ^ 15 % 32)
      × (rs2 w ≡ w / 2 ^ 20 % 32)
unfolding opcode funct3 funct7 rd rs1 rs2
field_lems w = (
  bit_and-mask 7 w,
  bit_and-mask 3 (w / 2 ^ 12),
  bit_and-mask 7 (w / 2 ^ 25),
  bit_and-mask 5 (w / 2 ^ 7),
  bit_and-mask 5 (w / 2 ^ 15),
  bit_and-mask 5 (w / 2 ^ 20),
)

-- The instructions of the R format that the simulator knows, with their codes.
pub data ROp : Type 0 where
  r_add r_sub r_mul r_sll r_mulh r_slt r_xor r_div r_srl r_sra r_or r_rem r_and : ROp

pub r_inst : ROp → InstType
r_inst r_add = InstType.add
r_inst r_sub = InstType.sub
r_inst r_mul = InstType.mul
r_inst r_sll = InstType.sll
r_inst r_mulh = InstType.mulh
r_inst r_slt = InstType.slt
r_inst r_xor = InstType.xor
r_inst r_div = InstType.div
r_inst r_srl = InstType.srl
r_inst r_sra = InstType.sra
r_inst r_or = InstType.or
r_inst r_rem = InstType.rem
r_inst r_and = InstType.and

pub r_funct3 : ROp → ℕ
r_funct3 r_add = 0
r_funct3 r_sub = 0
r_funct3 r_mul = 0
r_funct3 r_sll = 1
r_funct3 r_mulh = 1
r_funct3 r_slt = 2
r_funct3 r_xor = 4
r_funct3 r_div = 4
r_funct3 r_srl = 5
r_funct3 r_sra = 5
r_funct3 r_or = 6
r_funct3 r_rem = 6
r_funct3 r_and = 7

pub r_funct7 : ROp → ℕ
r_funct7 r_sub = 0x20
r_funct7 r_sra = 0x20
r_funct7 r_mul = 1
r_funct7 r_mulh = 1
r_funct7 r_div = 1
r_funct7 r_rem = 1
r_funct7 _ = 0

-- The word `op d, a, b`.
pub r_word : ROp → ℕ → ℕ → ℕ → ℕ
r_word o d a b =
    0x33 + d * 2 ^ 7 + r_funct3 o * 2 ^ 12 + a * 2 ^ 15 + b * 2 ^ 20 + r_funct7 o * 2 ^ 25

r_codes :
    (o : ROp)
    → (r_funct3 o < 8) × (r_funct7 o < 128) × (type_r (r_funct3 o) (r_funct7 o) ≡ ok (r_inst o))
unfolding r_funct3 r_funct7 type_r r_inst
r_codes r_add = (omega arith, omega arith, refl)
r_codes r_sub = (omega arith, omega arith, refl)
r_codes r_mul = (omega arith, omega arith, refl)
r_codes r_sll = (omega arith, omega arith, refl)
r_codes r_mulh = (omega arith, omega arith, refl)
r_codes r_slt = (omega arith, omega arith, refl)
r_codes r_xor = (omega arith, omega arith, refl)
r_codes r_div = (omega arith, omega arith, refl)
r_codes r_srl = (omega arith, omega arith, refl)
r_codes r_sra = (omega arith, omega arith, refl)
r_codes r_or = (omega arith, omega arith, refl)
r_codes r_rem = (omega arith, omega arith, refl)
r_codes r_and = (omega arith, omega arith, refl)

r_fields :
    (o : ROp) (d a b : ℕ)
    → d < 32
    → a < 32
    → b < 32
    → (opcode (r_word o d a b) ≡ 0x33)
      × (funct3 (r_word o d a b) ≡ r_funct3 o)
      × (funct7 (r_word o d a b) ≡ r_funct7 o)
      × (rd (r_word o d a b) ≡ d)
      × (rs1 (r_word o d a b) ≡ a)
      × (rs2 (r_word o d a b) ≡ b)
unfolding r_word
r_fields o d a b p q r = let (f, g, h) = r_codes o in omega (arith, field_lems (r_word o d a b))

-- For each of the thirteen register-register operations that `SIM::ID` knows and any three
-- registers, decoding the word that the R format makes of them gives back the operation, the
-- registers and the values that the two sources hold.
pub decode-r_word :
    (reg : ℕ → ℕ) (o : ROp) (d a b : ℕ)
    → d < 32
    → a < 32
    → b < 32
    → decode reg (r_word o d a b)
      ≡ ok (record {
        insttype = r_inst o;
        val_a = reg a;
        val_b = reg b;
        offset = 0;
        dest = d;
        reg1 = a;
        reg2 = b;
      })
unfolding decode decode_r
decode-r_word reg o d a b p q r =
    let (e, f3, f7, x, y, z) = r_fields o d a b p q r in rw (e, f3, f7, x, y, z, (r_codes o).2) refl
