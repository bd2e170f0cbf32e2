-- ===== src/Isa/Execute.antt =====
-- The `switch (inst)` of `SIM::EX` (simulation.cpp): what each instruction computes from its
-- operands. Values are 64-bit patterns. Sums, differences, products and left shifts wrap round, as
-- they do in two's complement; what C++ leaves undefined beyond that is `halt undefined`: a shift
-- by the width of its operand or more, a division by zero, and the quotient that does not fit.
use riscv_64i_simulator.Common.{
  ℕ, ◌+◌, ◌-◌, ◌*◌, ◌^◌, Bool, true, false, not, ◌&&◌, Result, ok, halt, undefined, bit_and, bit_or,
  bit_xor, u32, u64, shl64, asr32, asr64, sext32, add64, sub64, signed64, wrap64, slt64, ltb, ◌==◌,
  if◌then◌else◌, ◌>>>◌,
}
use riscv_64i_simulator.Common.Int.{quot_ℤ}
use riscv_64i_simulator.Isa.Inst.{
  InstType, bubble, auipc, jal, jalr, beq, bne, blt, bge, bltu, bgeu, lb, lh, lw, lbu, lhu, sb, sh,
  sw, addi, slti, sltiu, xori, ori, andi, slli, srli, srai, add, sub, sll, slt, sltu, xor, srl, sra,
  or, and, ecall, lwu, ld, sd, addiw, slliw, srliw, sraiw, addw, subw, sllw, srlw, sraw, mul, mulh,
  div, rem, lui,
}

-- The locals that the switch sets; `val_b` is what goes on as `Mreg.upd.valB`.
pub record ExResult : Type 0 where
  pub val_e : ℕ
  pub val_b : ℕ
  pub calculated_pc : ℕ
  pub reg_write : Bool
  pub mem_write : Bool
  pub mem_read : Bool
  pub mem_signed : Bool
  pub mem_len : ℕ
  pub res_branch : Bool

-- The initial values of the locals.
abbrev pub no_result : ℕ → ExResult
no_result val_b = record {
  val_e = 0;
  val_b = val_b;
  calculated_pc = 0;
  reg_write = false;
  mem_write = false;
  mem_read = false;
  mem_signed = false;
  mem_len = 0;
  res_branch = false;
}

-- `reg_write = true; valE = v;`
abbrev pub to_reg : ℕ → ℕ → Result ExResult
to_reg val_b v = ok (record (no_result val_b) { reg_write = true; val_e = v })

-- A value that is defined only where a shift count or a divisor allows it.
abbrev pub to_reg_if : Bool → ℕ → ℕ → Result ExResult
to_reg_if defined val_b v = if defined then to_reg val_b v else halt undefined

-- The branch cases, with the outcome of the comparison.
abbrev pub branch : Bool → ℕ → ℕ → ℕ → Result ExResult
branch holds pc offset val_b =
    if holds
    then ok (record (no_result val_b) { res_branch = true; val_e = add64 pc offset })
    else ok (no_result val_b)

abbrev pub load : ℕ → Bool → ℕ → ℕ → ℕ → Result ExResult
load len signed val_a val_b offset = ok (record (no_result val_b) {
  mem_read = true;
  reg_write = true;
  mem_len = len;
  val_e = add64 val_a offset;
  mem_signed = signed;
})

abbrev pub store : ℕ → ℕ → ℕ → ℕ → Result ExResult
store len val_a val_b offset =
    ok (record (no_result val_b) { mem_write = true; mem_len = len; val_e = add64 val_a offset })

-- `a / b` on `int64_t` is defined where `b` is not 0 and the quotient is below 2 ^ 63.
pub div_defined : ℕ → ℕ → Bool
div_defined a b = not (b == 0) && not ((a == 2 ^ 63) && (b == 2 ^ 64 - 1))

-- `execute inst pc valA valB offset`
unfoldable pub execute : InstType → ℕ → ℕ → ℕ → ℕ → Result ExResult
execute lui pc a b offset = to_reg b (shl64 offset 12)
execute auipc pc a b offset = to_reg b (add64 pc (shl64 offset 12))
execute jal pc a b offset =
    ok (record (no_result b) { reg_write = true; val_e = add64 pc 4; calculated_pc = add64 pc a })
execute jalr pc a b offset = ok (record (no_result b) {
  reg_write = true;
  val_e = add64 pc 4;
  calculated_pc = bit_and (add64 a b) (2 ^ 64 - 2);
})
execute beq pc a b offset = branch (a == b) pc offset b
execute bne pc a b offset = branch (not (a == b)) pc offset b
execute blt pc a b offset = branch (slt64 a b) pc offset b
execute bge pc a b offset = branch (not (slt64 a b)) pc offset b
execute bltu pc a b offset = branch (ltb a b) pc offset b
execute bgeu pc a b offset = branch (not (ltb a b)) pc offset b
execute lb pc a b offset = load 1 true a b offset
execute lh pc a b offset = load 2 true a b offset
execute lw pc a b offset = load 4 true a b offset
execute ld pc a b offset = load 8 true a b offset
execute lbu pc a b offset = load 1 false a b offset
execute lhu pc a b offset = load 2 false a b offset
execute lwu pc a b offset = load 4 false a b offset
execute sb pc a b offset = store 1 a (bit_and b 0xFF) offset
execute sh pc a b offset = store 2 a (bit_and b 0xFFFF) offset
execute sw pc a b offset = store 4 a (bit_and b 0xFFFFFFFF) offset
execute sd pc a b offset = store 8 a b offset
execute addi pc a b offset = to_reg b (add64 a b)
execute add pc a b offset = to_reg b (add64 a b)
execute addiw pc a b offset = to_reg b (sext32 (u32 (u32 a + u32 b)))
execute addw pc a b offset = to_reg b (sext32 (u32 (u32 a + u32 b)))
execute sub pc a b offset = to_reg b (sub64 a b)
execute subw pc a b offset = to_reg b (sext32 (u32 (u32 a + 2 ^ 32 - u32 b)))
execute mul pc a b offset = to_reg b (u64 (a * b))
execute div pc a b offset =
    to_reg_if (div_defined a b) b (wrap64 (quot_ℤ (signed64 a) (signed64 b)))
execute slti pc a b offset = to_reg b (if slt64 a b then 1 else 0)
execute slt pc a b offset = to_reg b (if slt64 a b then 1 else 0)
execute sltiu pc a b offset = to_reg b (if ltb a b then 1 else 0)
execute sltu pc a b offset = to_reg b (if ltb a b then 1 else 0)
execute xori pc a b offset = to_reg b (bit_xor a b)
execute xor pc a b offset = to_reg b (bit_xor a b)
execute ori pc a b offset = to_reg b (bit_or a b)
execute or pc a b offset = to_reg b (bit_or a b)
execute andi pc a b offset = to_reg b (bit_and a b)
execute and pc a b offset = to_reg b (bit_and a b)
execute slli pc a b offset = to_reg_if (ltb b 64) b (shl64 a b)
execute sll pc a b offset = to_reg_if (ltb b 64) b (shl64 a b)
execute slliw pc a b offset = to_reg_if (ltb b 64) b (sext32 (u32 (shl64 a b)))
execute sllw pc a b offset = to_reg_if (ltb b 64) b (sext32 (u32 (shl64 a b)))
execute srli pc a b offset = to_reg_if (ltb b 64) b (a >>> b)
execute srl pc a b offset = to_reg_if (ltb b 64) b (a >>> b)
execute srliw pc a b offset = to_reg_if (ltb (u32 b) 32) b (u32 a >>> u32 b)
execute srlw pc a b offset = to_reg_if (ltb (u32 b) 32) b (u32 a >>> u32 b)
execute srai pc a b offset = to_reg_if (ltb b 64) b (asr64 a b)
execute sra pc a b offset = to_reg_if (ltb b 64) b (asr64 a b)
execute sraw pc a b offset = to_reg_if (ltb (u32 b) 32) b (sext32 (asr32 (u32 a) (u32 b)))
execute sraiw pc a b offset = to_reg_if (ltb (u32 b) 32) b (sext32 (asr32 (u32 a) (u32 b)))
-- ECALL leaves the locals as they are. MULH and REM have no case, and neither has the number 0.
execute ecall pc a b offset = ok (no_result b)
execute mulh pc a b offset = ok (no_result b)
execute rem pc a b offset = ok (no_result b)
execute bubble pc a b offset = ok (no_result b)
