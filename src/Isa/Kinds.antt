-- ===== src/Isa/Kinds.antt =====
-- What the `switch (opcode)` of `SIM::ID` (simulation.cpp) finds for which opcode.
use riscv_64i_simulator.Common.{ℕ, ◌≡◌, Bool, true, false, ◌||◌, ok, >>=-eq-ok, arith, ◌==◌}
use riscv_64i_simulator.Isa.Inst.{
  InstType, is_bubble, is_branch, is_jump, op_branch, op_jal, op_jalr,
}
use riscv_64i_simulator.Isa.Fields.{opcode, funct3, funct6, funct7}
use riscv_64i_simulator.Isa.Decode.{
  Decoded, decode, decode_r, decode_imm, decode_jal, decode_jalr, decode_branch, decode_load,
  decode_store, decode_upper, decode_system, decode_imm32, decode_32, type_r, type_imm, type_branch,
  type_load, type_store, type_imm32, type_32,
}

-- What kind of instruction an opcode stands for.
pub record KindOf (inst : ℕ) (d : Decoded) : Type 0 where
  pub not_bubble : is_bubble d.insttype ≡ false
  pub branches : is_branch d.insttype ≡ (opcode inst == op_branch)
  pub jumps : is_jump d.insttype ≡ ((opcode inst == op_jal) || (opcode inst == op_jalr))

-- What an instruction is that is none of the three.
abbrev IsPlain : InstType → Type 0
IsPlain t = (is_bubble t ≡ false) × (is_branch t ≡ false) × (is_jump t ≡ false)

type_r-IsPlain : (f3 f7 : ℕ) (t : InstType) → type_r f3 f7 ≡ ok t → IsPlain t
unfolding type_r is_bubble is_branch is_jump
type_r-IsPlain f3 f7 t h = ground arith

type_imm-IsPlain : (f3 f6 : ℕ) (t : InstType × Bool) → type_imm f3 f6 ≡ ok t → IsPlain t.0
unfolding type_imm is_bubble is_branch is_jump
type_imm-IsPlain f3 f6 t h = ground arith

type_load-IsPlain : (f3 : ℕ) (t : InstType) → type_load f3 ≡ ok t → IsPlain t
unfolding type_load is_bubble is_branch is_jump
type_load-IsPlain f3 t h = ground arith

type_store-IsPlain : (f3 : ℕ) (t : InstType) → type_store f3 ≡ ok t → IsPlain t
unfolding type_store is_bubble is_branch is_jump
type_store-IsPlain f3 t h = ground arith

type_imm32-IsPlain : (f3 f7 : ℕ) (t : InstType) → type_imm32 f3 f7 ≡ ok t → IsPlain t
unfolding type_imm32 is_bubble is_branch is_jump
type_imm32-IsPlain f3 f7 t h = ground arith

type_32-IsPlain : (f3 f7 : ℕ) (t : InstType) → type_32 f3 f7 ≡ ok t → IsPlain t
unfolding type_32 is_bubble is_branch is_jump
type_32-IsPlain f3 f7 t h = ground arith

type_branch-is_branch :
    (f3 : ℕ) (t : InstType)
    → type_branch f3 ≡ ok t
    → (is_bubble t ≡ false) × (is_branch t ≡ true) × (is_jump t ≡ false)
unfolding type_branch is_bubble is_branch is_jump
type_branch-is_branch f3 t h = ground arith

module _ (reg : ℕ → ℕ) (inst : ℕ) (d : Decoded) where
  decode_r-IsPlain : decode_r reg inst ≡ ok d → IsPlain d.insttype
  unfolding decode_r
  decode_r-IsPlain h =
      let (t, a, b) = >>=-eq-ok (type_r (funct3 inst) (funct7 inst)) _ h in
      ground (arith, b, type_r-IsPlain (funct3 inst) (funct7 inst) t a)

  decode_imm-IsPlain : decode_imm reg inst ≡ ok d → IsPlain d.insttype
  unfolding decode_imm
  decode_imm-IsPlain h =
      let (t, a, b) = >>=-eq-ok (type_imm (funct3 inst) (funct6 inst)) _ h in
      ground (arith, b, type_imm-IsPlain (funct3 inst) (funct6 inst) t a)

  decode_load-IsPlain : decode_load reg inst ≡ ok d → IsPlain d.insttype
  unfolding decode_load
  decode_load-IsPlain h =
      let (t, a, b) = >>=-eq-ok (type_load (funct3 inst)) _ h in
      ground (arith, b, type_load-IsPlain (funct3 inst) t a)

  decode_store-IsPlain : decode_store reg inst ≡ ok d → IsPlain d.insttype
  unfolding decode_store
  decode_store-IsPlain h =
      let (t, a, b) = >>=-eq-ok (type_store (funct3 inst)) _ h in
      ground (arith, b, type_store-IsPlain (funct3 inst) t a)

  decode_imm32-IsPlain : decode_imm32 reg inst ≡ ok d → IsPlain d.insttype
  unfolding decode_imm32
  decode_imm32-IsPlain h =
      let (t, a, b) = >>=-eq-ok (type_imm32 (funct3 inst) (funct7 inst)) _ h in
      ground (arith, b, type_imm32-IsPlain (funct3 inst) (funct7 inst) t a)

  decode_32-IsPlain : decode_32 reg inst ≡ ok d → IsPlain d.insttype
  unfolding decode_32
  decode_32-IsPlain h =
      let (t, a, b) = >>=-eq-ok (type_32 (funct3 inst) (funct7 inst)) _ h in
      ground (arith, b, type_32-IsPlain (funct3 inst) (funct7 inst) t a)

  decode_branch-is_branch :
      decode_branch reg inst ≡ ok d
      → (is_bubble d.insttype ≡ false)
        × (is_branch d.insttype ≡ true)
        × (is_jump d.insttype ≡ false)
  unfolding decode_branch
  decode_branch-is_branch h =
      let (t, a, b) = >>=-eq-ok (type_branch (funct3 inst)) _ h in
      ground (arith, b, type_branch-is_branch (funct3 inst) t a)

  -- A word that decodes never gives an empty instruction; it gives a branch just where its opcode
  -- is that of the branches, and a jump just where it is that of JAL or JALR.
  pub decode-KindOf : decode reg inst ≡ ok d → KindOf inst d
  unfolding decode decode_jal decode_jalr decode_upper decode_system is_bubble is_branch is_jump
  decode-KindOf h = ground (
    arith, decode_r-IsPlain, decode_imm-IsPlain, decode_branch-is_branch, decode_load-IsPlain,
    decode_store-IsPlain, decode_imm32-IsPlain, decode_32-IsPlain,
  )
