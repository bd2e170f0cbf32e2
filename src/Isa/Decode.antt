-- ===== src/Isa/Decode.antt =====
-- The `switch (opcode)` of `SIM::ID`: instruction type, operands and register numbers of a word.
-- The register file is read as it stands; forwarding is a later step of `SIM::ID`.
use riscv_64i_simulator.Common.{
  ℕ, Result, ok, halt, undefined, unknown_opcode, unknown_funct3, unknown_funct7, unknown_system,
  ◌>>=◌, Bool, ◌&&◌, bit_and, sext32, ◌==◌, if◌then◌else◌,
}
use riscv_64i_simulator.Isa.Inst.{
  InstType, auipc, jal, jalr, beq, bne, blt, bge, bltu, bgeu, lb, lh, lw, lbu, lhu, sb, sh, sw,
  addi, slti, sltiu, xori, ori, andi, slli, srli, srai, add, sub, sll, slt, xor, srl, sra, or, and,
  ecall, ld, sd, addiw, slliw, srliw, sraiw, addw, subw, srlw, sraw, mul, mulh, div, rem, lui, op_r,
  op_imm, op_lui, op_branch, op_store, op_load, op_system, op_auipc, op_jal, op_jalr, op_imm32,
  op_32, reg_a0, reg_a7, no_reg,
}
use riscv_64i_simulator.Isa.Fields.{
  opcode, funct3, funct7, funct6, rd, rs1, rs2, imm_i, imm_s, imm_sb, imm_u, imm_uj,
}

-- The locals that the switch sets, from their initial values on.
pub record Decoded : Type 0 where
  pub insttype : InstType
  pub val_a : ℕ
  pub val_b : ℕ
  pub offset : ℕ
  pub dest : ℕ
  pub reg1 : ℕ
  pub reg2 : ℕ

-- `case OP_R`
unfoldable pub type_r : ℕ → ℕ → Result InstType
type_r f3 f7 =
    if f3 == 0
    then if f7 == 0x00
      then ok add
      else if f7 == 0x01
      then ok mul
      else if f7 == 0x20
      then ok sub
      else halt (unknown_funct7 f7 f3)
    else if f3 == 1
    then if f7 == 0x00 then ok sll else if f7 == 0x01 then ok mulh else halt (unknown_funct7 f7 f3)
    else if f3 == 2
    then if f7 == 0x00 then ok slt else halt (unknown_funct7 f7 f3)
    else if f3 == 4
    then if f7 == 0x00 then ok xor else if f7 == 0x01 then ok div else halt (unknown_funct7 f7 f3)
    else if f3 == 5
    then if f7 == 0x00 then ok srl else if f7 == 0x20 then ok sra else halt (unknown_funct7 f7 f3)
    else if f3 == 6
    then if f7 == 0x00 then ok or else if f7 == 0x01 then ok rem else halt (unknown_funct7 f7 f3)
    else if f3 == 7
    then if f7 == 0x00 then ok and else halt (unknown_funct7 f7 f3)
    else halt (unknown_funct3 f3)

unfoldable pub decode_r : (ℕ → ℕ) → ℕ → Result Decoded
decode_r reg inst = do
  t ← type_r (funct3 inst) (funct7 inst)
  ok (record {
    insttype = t;
    val_a = reg (rs1 inst);
    val_b = reg (rs2 inst);
    offset = 0;
    dest = rd inst;
    reg1 = rs1 inst;
    reg2 = rs2 inst;
  })

-- `case OP_IMM`: the type, and whether `valB` is cut to the six bits of a shift.
unfoldable pub type_imm : ℕ → ℕ → Result (InstType × Bool)
type_imm f3 f6 =
    if f3 == 0
    then ok (addi, Bool.false)
    else if f3 == 1
    then ok (slli, Bool.true)
    else if f3 == 2
    then ok (slti, Bool.false)
    else if f3 == 3
    then ok (sltiu, Bool.false)
    else if f3 == 4
    then ok (xori, Bool.false)
    else if f3 == 5
    then if f6 == 0x0
      then ok (srli, Bool.true)
      else if f6 == 0x10
      then ok (srai, Bool.true)
      else halt (unknown_funct7 f6 f3)
    else if f3 == 6
    then ok (ori, Bool.false)
    else if f3 == 7
    then ok (andi, Bool.false)
    else halt (unknown_funct3 f3)

unfoldable pub decode_imm : (ℕ → ℕ) → ℕ → Result Decoded
decode_imm reg inst = do
  t ← type_imm (funct3 inst) (funct6 inst)
  let imm = sext32 (imm_i inst)
  ok (record {
    insttype = t.0;
    val_a = reg (rs1 inst);
    val_b = if t.1 then bit_and imm 0x3F else imm;
    offset = 0;
    dest = rd inst;
    reg1 = rs1 inst;
    reg2 = no_reg;
  })

-- `case OP_JAL`
unfoldable pub decode_jal : ℕ → Decoded
decode_jal inst = record {
  insttype = jal;
  val_a = sext32 (imm_uj inst);
  val_b = 0;
  offset = sext32 (imm_uj inst);
  dest = rd inst;
  reg1 = no_reg;
  reg2 = no_reg;
}

-- `case OP_JALR`
unfoldable pub decode_jalr : (ℕ → ℕ) → ℕ → Decoded
decode_jalr reg inst = record {
  insttype = jalr;
  val_a = reg (rs1 inst);
  val_b = sext32 (imm_i inst);
  offset = 0;
  dest = rd inst;
  reg1 = rs1 inst;
  reg2 = no_reg;
}

-- `case OP_BRANCH`
unfoldable pub type_branch : ℕ → Result InstType
type_branch f3 =
    if f3 == 0
    then ok beq
    else if f3 == 1
    then ok bne
    else if f3 == 4
    then ok blt
    else if f3 == 5
    then ok bge
    else if f3 == 6
    then ok bltu
    else if f3 == 7
    then ok bgeu
    else halt (unknown_funct3 f3)

unfoldable pub decode_branch : (ℕ → ℕ) → ℕ → Result Decoded
decode_branch reg inst = do
  t ← type_branch (funct3 inst)
  ok (record {
    insttype = t;
    val_a = reg (rs1 inst);
    val_b = reg (rs2 inst);
    offset = sext32 (imm_sb inst);
    dest = no_reg;
    reg1 = rs1 inst;
    reg2 = rs2 inst;
  })

-- `case OP_LOAD`. The case 6 has no `break`: it sets LWU and goes on into the default, which exits.
unfoldable pub type_load : ℕ → Result InstType
type_load f3 =
    if f3 == 0
    then ok lb
    else if f3 == 1
    then ok lh
    else if f3 == 2
    then ok lw
    else if f3 == 3
    then ok ld
    else if f3 == 4
    then ok lbu
    else if f3 == 5
    then ok lhu
    else halt (unknown_funct3 f3)

unfoldable pub decode_load : (ℕ → ℕ) → ℕ → Result Decoded
decode_load reg inst = do
  t ← type_load (funct3 inst)
  ok (record {
    insttype = t;
    val_a = reg (rs1 inst);
    val_b = sext32 (imm_i inst);
    offset = sext32 (imm_i inst);
    dest = rd inst;
    reg1 = rs1 inst;
    reg2 = no_reg;
  })

-- `case OP_STORE`
unfoldable pub type_store : ℕ → Result InstType
type_store f3 =
    if f3 == 0
    then ok sb
    else if f3 == 1
    then ok sh
    else if f3 == 2
    then ok sw
    else if f3 == 3
    then ok sd
    else halt (unknown_funct3 f3)

unfoldable pub decode_store : (ℕ → ℕ) → ℕ → Result Decoded
decode_store reg inst = do
  t ← type_store (funct3 inst)
  ok (record {
    insttype = t;
    val_a = reg (rs1 inst);
    val_b = reg (rs2 inst);
    offset = sext32 (imm_s inst);
    dest = no_reg;
    reg1 = rs1 inst;
    reg2 = rs2 inst;
  })

-- `case OP_LUI` and `case OP_AUIPC`
unfoldable pub decode_upper : InstType → ℕ → Decoded
decode_upper t inst = record {
  insttype = t;
  val_a = sext32 (imm_u inst);
  val_b = 0;
  offset = sext32 (imm_u inst);
  dest = rd inst;
  reg1 = no_reg;
  reg2 = no_reg;
}

-- `case OP_SYSTEM`
unfoldable pub decode_system : (ℕ → ℕ) → ℕ → Result Decoded
decode_system reg inst =
    if (funct3 inst == 0) && (funct7 inst == 0)
    then ok (record {
      insttype = ecall;
      val_a = reg reg_a0;
      val_b = reg reg_a7;
      offset = 0;
      dest = no_reg;
      reg1 = reg_a0;
      reg2 = reg_a7;
    })
    else halt (unknown_system (funct3 inst) (funct7 inst))

-- `case OP_IMM32`. Where no branch sets it, `insttype` stays UNKNOWN (-1), and
-- `inst_name[insttype]` reads in front of the array.
unfoldable pub type_imm32 : ℕ → ℕ → Result InstType
type_imm32 f3 f7 =
    if f3 == 0
    then ok addiw
    else if f3 == 1
    then ok slliw
    else if f3 == 5
    then if f7 == 0x0 then ok srliw else if f7 == 0x20 then ok sraiw else halt undefined
    else halt (unknown_funct3 f3)

unfoldable pub decode_imm32 : (ℕ → ℕ) → ℕ → Result Decoded
decode_imm32 reg inst = do
  t ← type_imm32 (funct3 inst) (funct7 inst)
  ok (record {
    insttype = t;
    val_a = reg (rs1 inst);
    val_b = sext32 (imm_i inst);
    offset = 0;
    dest = rd inst;
    reg1 = rs1 inst;
    reg2 = no_reg;
  })

-- The cases 1 and 5 of `case OP_32`: the case 1 has no `break`, so that its SLLW is overwritten by
-- what the case 5 sets.
unfoldable pub type_32 : ℕ → ℕ → Result InstType
type_32 f3 f7 =
    if f3 == 0
    then if f7 == 0x0 then ok addw else if f7 == 0x20 then ok subw else halt undefined
    else if f3 == 1
    then shifts
    else if f3 == 5
    then shifts
    else halt (unknown_funct3 f3)
  where
    shifts : Result InstType
    shifts = if f7 == 0x0 then ok srlw else if f7 == 0x20 then ok sraw else halt undefined

unfoldable pub decode_32 : (ℕ → ℕ) → ℕ → Result Decoded
decode_32 reg inst = do
  t ← type_32 (funct3 inst) (funct7 inst)
  ok (record {
    insttype = t;
    val_a = reg (rs1 inst);
    val_b = reg (rs2 inst);
    offset = 0;
    dest = rd inst;
    reg1 = rs1 inst;
    reg2 = rs2 inst;
  })

-- `switch (opcode)`
unfoldable pub decode : (ℕ → ℕ) → ℕ → Result Decoded
decode reg inst =
    let op = opcode inst in
    if op == op_r
    then decode_r reg inst
    else if op == op_imm
    then decode_imm reg inst
    else if op == op_jal
    then ok (decode_jal inst)
    else if op == op_jalr
    then ok (decode_jalr reg inst)
    else if op == op_branch
    then decode_branch reg inst
    else if op == op_load
    then decode_load reg inst
    else if op == op_store
    then decode_store reg inst
    else if op == op_lui
    then ok (decode_upper lui inst)
    else if op == op_auipc
    then ok (decode_upper auipc inst)
    else if op == op_system
    then decode_system reg inst
    else if op == op_imm32
    then decode_imm32 reg inst
    else if op == op_32
    then decode_32 reg inst
    else halt (unknown_opcode op)
