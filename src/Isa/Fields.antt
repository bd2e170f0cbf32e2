-- ===== src/Isa/Fields.antt =====
-- The fields of an instruction word, as `SIM::ID` cuts them out: `inst` is the `uint32_t`, and the
-- immediates are `int32_t` patterns of 32 bits.
use riscv_64i_simulator.Common.{ℕ, bit_and, bit_or, ◌>>>◌, shl32, asr32}

unfoldable pub opcode : ℕ → ℕ
opcode inst = bit_and inst 0x7F

unfoldable pub funct3 : ℕ → ℕ
funct3 inst = bit_and (inst >>> 12) 0x7

unfoldable pub funct7 : ℕ → ℕ
funct7 inst = bit_and (inst >>> 25) 0x7F

-- `(inst >> 26) & 0x3F`, which tells the 64-bit immediate shifts apart
unfoldable pub funct6 : ℕ → ℕ
funct6 inst = bit_and (inst >>> 26) 0x3F

unfoldable pub rd : ℕ → ℕ
rd inst = bit_and (inst >>> 7) 0x1F

unfoldable pub rs1 : ℕ → ℕ
rs1 inst = bit_and (inst >>> 15) 0x1F

unfoldable pub rs2 : ℕ → ℕ
rs2 inst = bit_and (inst >>> 20) 0x1F

unfoldable pub imm_i : ℕ → ℕ
imm_i inst = asr32 inst 20

unfoldable pub imm_s : ℕ → ℕ
imm_s inst =
    asr32 (shl32 (bit_or (bit_and (asr32 inst 7) 0x1F) (bit_and (asr32 inst 20) 0xFE0)) 20) 20

unfoldable pub imm_sb : ℕ → ℕ
imm_sb inst =
    let low = bit_or (bit_and (asr32 inst 7) 0x1E) (bit_and (asr32 inst 20) 0x7E0) in
    let bits =
      bit_or (bit_or low (bit_and (shl32 inst 4) 0x800)) (bit_and (asr32 inst 19) 0x1000) in
    asr32 (shl32 bits 19) 19

unfoldable pub imm_u : ℕ → ℕ
imm_u inst = asr32 inst 12

unfoldable pub imm_uj : ℕ → ℕ
imm_uj inst =
    let low = bit_or (bit_and (asr32 inst 21) 0x3FF) (bit_and (asr32 inst 10) 0x400) in
    let bits =
      bit_or (bit_or low (bit_and (asr32 inst 1) 0x7F800)) (bit_and (asr32 inst 12) 0x80000) in
    asr32 (shl32 bits 12) 11
