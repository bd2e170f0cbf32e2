-- ===== src/Isa/Encode/Store.antt =====
-- The decoder of `SIM::ID` (simulation.cpp) against an encoder written from the format S.
use riscv_64i_simulator.Common.{ℕ, ◌+◌, ◌*◌, ◌/◌, ◌%◌, ◌^◌, ◌<◌, ◌≡◌, refl, arith, ok, sext32}
use riscv_64i_simulator.Isa.Inst.{InstType, no_reg}
use riscv_64i_simulator.Isa.Fields.{opcode, funct3, rs1, rs2}
use riscv_64i_simulator.Isa.Immediates.{sign_extended, fields_s, imm_s_lem}
use riscv_64i_simulator.Isa.Decode.{type_store, decode_store, decode}
use riscv_64i_simulator.Isa.Encode.{field_lems}

-- The stores.
pub data SOp : Type 0 where
  s_byte s_half s_word s_double : SOp

pub s_inst : SOp → InstType
s_inst s_byte = InstType.sb
s_inst s_half = InstType.sh
s_inst s_word = InstType.sw
s_inst s_double = InstType.sd

s_funct3 : SOp → ℕ
s_funct3 s_byte = 0
s_funct3 s_half = 1
s_funct3 s_word = 2
s_funct3 s_double = 3

-- The word `op b, imm(a)`, for the 12-bit pattern of an offset.
pub store_word : SOp → ℕ → ℕ → ℕ → ℕ
store_word o a b imm =
    0x23 + imm % 32 * 2 ^ 7 + s_funct3 o * 2 ^ 12 + a * 2 ^ 15 + b * 2 ^ 20 + imm / 32 * 2 ^ 25

s_codes : (o : SOp) → (s_funct3 o < 8) × (type_store (s_funct3 o) ≡ ok (s_inst o))
unfolding s_funct3 type_store s_inst
s_codes s_byte = (omega arith, refl)
s_codes s_half = (omega arith, refl)
s_codes s_word = (omega arith, refl)
s_codes s_double = (omega arith, refl)

s_fields :
    (o : SOp) (a b imm : ℕ)
    → a < 32
    → b < 32
    → imm < 2 ^ 12
    → (opcode (store_word o a b imm) ≡ 0x23)
      × (funct3 (store_word o a b imm) ≡ s_funct3 o)
      × (rs1 (store_word o a b imm) ≡ a)
      × (rs2 (store_word o a b imm) ≡ b)
      × (store_word o a b imm < 2 ^ 32)
      × (fields_s (store_word o a b imm) ≡ imm)
unfolding store_word
s_fields o a b imm p q r =
    let (f, g) = s_codes o in
    let (op, f3, f7, d, s, t) = field_lems (store_word o a b imm) in
    (
      omega (arith, op),
      omega (arith, f3),
      omega (arith, s),
      omega (arith, t),
      omega arith,
      omega arith,
    )

-- For each of the four stores, any two registers and any 12-bit offset pattern, decoding the word
-- that the S format makes of them gives back the store, the registers with their values, no
-- destination, and the offset extended to 64 bits with its sign.
pub decode-store_word :
    (reg : ℕ → ℕ) (o : SOp) (a b imm : ℕ)
    → a < 32
    → b < 32
    → imm < 2 ^ 12
    → decode reg (store_word o a b imm)
      ≡ ok (record {
        insttype = s_inst o;
        val_a = reg a;
        val_b = reg b;
        offset = sext32 (sign_extended 12 imm);
        dest = no_reg;
        reg1 = a;
        reg2 = b;
      })
unfolding decode decode_store
decode-store_word reg o a b imm p q r =
    let (e, f3, y, z, small, whole) = s_fields o a b imm p q r in
    rw (e, f3, y, z, (s_codes o).1, imm_s_lem (store_word o a b imm) small, whole) refl
