-- ===== src/Isa/Loads.antt =====
-- What the `switch (opcode)` of `SIM::ID` (simulation.cpp) says of loads and jumps.
use riscv_64i_simulator.Common.{ℕ, ◌≡◌, Bool, true, false, ok, >>=-eq-ok, arith}
use riscv_64i_simulator.Isa.Inst.{InstType, is_load, op_load, op_jal, op_jalr, no_reg}
use riscv_64i_simulator.Isa.Fields.{opcode, funct3, funct6, funct7, rd, rs1}
use riscv_64i_simulator.Isa.Decode.{
  Decoded, decode, decode_r, decode_imm, decode_jal, decode_jalr, decode_branch, decode_load,
  decode_store, decode_upper, decode_system, decode_imm32, decode_32, type_r, type_imm, type_branch,
  type_load, type_store, type_imm32, type_32,
}

type_r-not_load : (f3 f7 : ℕ) (t : InstType) → type_r f3 f7 ≡ ok t → is_load t ≡ false
unfolding type_r is_load
type_r-not_load f3 f7 t h = ground arith

type_imm-not_load : (f3 f6 : ℕ) (t : InstType × Bool) → type_imm f3 f6 ≡ ok t → is_load t.0 ≡ false
unfolding type_imm is_load
type_imm-not_load f3 f6 t h = ground arith

type_branch-not_load : (f3 : ℕ) (t : InstType) → type_branch f3 ≡ ok t → is_load t ≡ false
unfolding type_branch is_load
type_branch-not_load f3 t h = ground arith

type_store-not_load : (f3 : ℕ) (t : InstType) → type_store f3 ≡ ok t → is_load t ≡ false
unfolding type_store is_load
type_store-not_load f3 t h = ground arith

type_imm32-not_load : (f3 f7 : ℕ) (t : InstType) → type_imm32 f3 f7 ≡ ok t → is_load t ≡ false
unfolding type_imm32 is_load
type_imm32-not_load f3 f7 t h = ground arith

type_32-not_load : (f3 f7 : ℕ) (t : InstType) → type_32 f3 f7 ≡ ok t → is_load t ≡ false
unfolding type_32 is_load
type_32-not_load f3 f7 t h = ground arith

-- A load stands behind the opcode of the loads, and names the register that it loads.
pub record IsLoadOf (inst : ℕ) (d : Decoded) : Type 0 where
  pub code : opcode inst ≡ op_load
  pub dest : d.dest ≡ rd inst

-- A jump waits for the register of its base at most.
pub record JumpReads (inst : ℕ) (d : Decoded) : Type 0 where
  pub jal : opcode inst ≡ op_jal → (d.reg1 ≡ no_reg) × (d.reg2 ≡ no_reg)
  pub jalr : opcode inst ≡ op_jalr → (d.reg1 ≡ rs1 inst) × (d.reg2 ≡ no_reg)

module _ (reg : ℕ → ℕ) (inst : ℕ) (d : Decoded) where
  decode_r-not_load : decode_r reg inst ≡ ok d → is_load d.insttype ≡ false
  unfolding decode_r
  decode_r-not_load h =
      let (t, a, b) = >>=-eq-ok (type_r (funct3 inst) (funct7 inst)) _ h in
      ground (arith, b, type_r-not_load (funct3 inst) (funct7 inst) t a)

  decode_imm-not_load : decode_imm reg inst ≡ ok d → is_load d.insttype ≡ false
  unfolding decode_imm
  decode_imm-not_load h =
      let (t, a, b) = >>=-eq-ok (type_imm (funct3 inst) (funct6 inst)) _ h in
      ground (arith, b, type_imm-not_load (funct3 inst) (funct6 inst) t a)

  decode_branch-not_load : decode_branch reg inst ≡ ok d → is_load d.insttype ≡ false
  unfolding decode_branch
  decode_branch-not_load h =
      let (t, a, b) = >>=-eq-ok (type_branch (funct3 inst)) _ h in
      ground (arith, b, type_branch-not_load (funct3 inst) t a)

  decode_store-not_load : decode_store reg inst ≡ ok d → is_load d.insttype ≡ false
  unfolding decode_store
  decode_store-not_load h =
      let (t, a, b) = >>=-eq-ok (type_store (funct3 inst)) _ h in
      ground (arith, b, type_store-not_load (funct3 inst) t a)

  decode_imm32-not_load : decode_imm32 reg inst ≡ ok d → is_load d.insttype ≡ false
  unfolding decode_imm32
  decode_imm32-not_load h =
      let (t, a, b) = >>=-eq-ok (type_imm32 (funct3 inst) (funct7 inst)) _ h in
      ground (arith, b, type_imm32-not_load (funct3 inst) (funct7 inst) t a)

  decode_32-not_load : decode_32 reg inst ≡ ok d → is_load d.insttype ≡ false
  unfolding decode_32
  decode_32-not_load h =
      let (t, a, b) = >>=-eq-ok (type_32 (funct3 inst) (funct7 inst)) _ h in
      ground (arith, b, type_32-not_load (funct3 inst) (funct7 inst) t a)

  decode_load-dest : decode_load reg inst ≡ ok d → d.dest ≡ rd inst
  unfolding decode_load
  decode_load-dest h = let (t, a, b) = >>=-eq-ok (type_load (funct3 inst)) _ h in ground (arith, b)

  pub decode-IsLoadOf : decode reg inst ≡ ok d → is_load d.insttype ≡ true → IsLoadOf inst d
  unfolding decode decode_jal decode_jalr decode_upper decode_system is_load
  decode-IsLoadOf h l = ground (
    arith, decode_r-not_load, decode_imm-not_load, decode_branch-not_load, decode_load-dest,
    decode_store-not_load, decode_imm32-not_load, decode_32-not_load,
  )

  pub decode-JumpReads : decode reg inst ≡ ok d → JumpReads inst d
  unfolding decode decode_jal decode_jalr
  decode-JumpReads h = ground arith
