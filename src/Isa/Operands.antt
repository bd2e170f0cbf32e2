-- ===== src/Isa/Operands.antt =====
-- What the `switch (opcode)` of `SIM::ID` (simulation.cpp) reads of the register file, and what kind
-- of instruction it finds for which opcode.
use riscv_64i_simulator.Common.{ℕ, ◌≡◌, ok, >>=-eq-ok, arith}
use riscv_64i_simulator.Isa.Fields.{funct3, funct6, funct7}
use riscv_64i_simulator.Isa.Decode.{
  Decoded, decode, decode_r, decode_imm, decode_jal, decode_jalr, decode_branch, decode_load,
  decode_store, decode_upper, decode_system, decode_imm32, decode_32, type_r, type_imm, type_branch,
  type_load, type_store, type_imm32, type_32,
}

-- Decoding against another register file that has the same operands gives the same.
abbrev SameOperands : (ℕ → ℕ) → (ℕ → ℕ) → Decoded → Type 0
SameOperands f g d = (f d.reg1 ≡ g d.reg1) × (f d.reg2 ≡ g d.reg2)

module _ (f g : ℕ → ℕ) (inst : ℕ) (d : Decoded) (e : SameOperands f g d) where
  decode_r-same : decode_r f inst ≡ ok d → decode_r g inst ≡ ok d
  unfolding decode_r
  decode_r-same h =
      let (t, a, b) = >>=-eq-ok (type_r (funct3 inst) (funct7 inst)) _ h in ground (arith, a, b, e)

  decode_imm-same : decode_imm f inst ≡ ok d → decode_imm g inst ≡ ok d
  unfolding decode_imm
  decode_imm-same h =
      let (t, a, b) = >>=-eq-ok (type_imm (funct3 inst) (funct6 inst)) _ h in
      ground (arith, a, b, e)

  decode_branch-same : decode_branch f inst ≡ ok d → decode_branch g inst ≡ ok d
  unfolding decode_branch
  decode_branch-same h =
      let (t, a, b) = >>=-eq-ok (type_branch (funct3 inst)) _ h in ground (arith, a, b, e)

  decode_load-same : decode_load f inst ≡ ok d → decode_load g inst ≡ ok d
  unfolding decode_load
  decode_load-same h =
      let (t, a, b) = >>=-eq-ok (type_load (funct3 inst)) _ h in ground (arith, a, b, e)

  decode_store-same : decode_store f inst ≡ ok d → decode_store g inst ≡ ok d
  unfolding decode_store
  decode_store-same h =
      let (t, a, b) = >>=-eq-ok (type_store (funct3 inst)) _ h in ground (arith, a, b, e)

  decode_imm32-same : decode_imm32 f inst ≡ ok d → decode_imm32 g inst ≡ ok d
  unfolding decode_imm32
  decode_imm32-same h =
      let (t, a, b) = >>=-eq-ok (type_imm32 (funct3 inst) (funct7 inst)) _ h in
      ground (arith, a, b, e)

  decode_32-same : decode_32 f inst ≡ ok d → decode_32 g inst ≡ ok d
  unfolding decode_32
  decode_32-same h =
      let (t, a, b) = >>=-eq-ok (type_32 (funct3 inst) (funct7 inst)) _ h in ground (arith, a, b, e)

  decode_system-same : decode_system f inst ≡ ok d → decode_system g inst ≡ ok d
  unfolding decode_system
  decode_system-same h = ground (arith, e)

  -- For a word that decodes against one register file, decoding against another gives the same if
  -- the two agree on the one or two registers that the word names as operands.
  pub decode-same : decode f inst ≡ ok d → decode g inst ≡ ok d
  unfolding decode decode_jal decode_jalr decode_upper
  decode-same h = ground (
    arith, e, decode_r-same, decode_imm-same, decode_branch-same, decode_load-same,
    decode_store-same, decode_system-same, decode_imm32-same, decode_32-same,
  )
