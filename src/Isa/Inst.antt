-- ===== src/Isa/Inst.antt =====
-- The instruction numbers, opcodes and register numbers that Simulation.h defines.
use riscv_64i_simulator.Common.{ℕ, ◌-◌, ◌^◌, Bool, true, false}

-- The instruction types. `bubble` is the number 0 that an empty pipeline register holds.
pub data InstType : Type 0 where
  bubble : InstType
  auipc jal jalr : InstType
  beq bne blt bge bltu bgeu : InstType
  lb lh lw lbu lhu sb sh sw : InstType
  addi slti sltiu xori ori andi slli srli srai : InstType
  add sub sll slt sltu xor srl sra or and : InstType
  ecall lwu ld sd : InstType
  addiw slliw srliw sraiw addw subw sllw srlw sraw : InstType
  mul mulh div rem lui : InstType

-- `inst == 0`
unfoldable pub is_bubble : InstType → Bool
is_bubble bubble = true
is_bubble _ = false

-- `inst == BEQ || inst == BNE || ...`
unfoldable pub is_branch : InstType → Bool
is_branch beq = true
is_branch bne = true
is_branch blt = true
is_branch bge = true
is_branch bltu = true
is_branch bgeu = true
is_branch _ = false

-- `inst == LB || inst == LH || ...`
unfoldable pub is_load : InstType → Bool
is_load lb = true
is_load lh = true
is_load lw = true
is_load lbu = true
is_load lhu = true
is_load lwu = true
is_load ld = true
is_load _ = false

-- `inst == JAL || inst == JALR`
unfoldable pub is_jump : InstType → Bool
is_jump jal = true
is_jump jalr = true
is_jump _ = false

abbrev pub op_r : ℕ
op_r = 0x33

abbrev pub op_imm : ℕ
op_imm = 0x13

abbrev pub op_lui : ℕ
op_lui = 0x37

abbrev pub op_branch : ℕ
op_branch = 0x63

abbrev pub op_store : ℕ
op_store = 0x23

abbrev pub op_load : ℕ
op_load = 0x03

abbrev pub op_system : ℕ
op_system = 0x73

abbrev pub op_auipc : ℕ
op_auipc = 0x17

abbrev pub op_jal : ℕ
op_jal = 0x6F

abbrev pub op_jalr : ℕ
op_jalr = 0x67

abbrev pub op_imm32 : ℕ
op_imm32 = 0x1B

abbrev pub op_32 : ℕ
op_32 = 0x3B

abbrev pub reg_zero : ℕ
reg_zero = 0

abbrev pub reg_sp : ℕ
reg_sp = 2

abbrev pub reg_a0 : ℕ
reg_a0 = 10

abbrev pub reg_a7 : ℕ
reg_a7 = 17

-- The `int` -1 that stands for no register, as a 32-bit pattern.
abbrev pub no_reg : ℕ
no_reg = 2 ^ 32 - 1

abbrev pub stack_start : ℕ
stack_start = 0x7fffc000

abbrev pub stack_size : ℕ
stack_size = 0x400000

-- The branch strategies AT, NT and BTFNT.
pub data Strategy : Type 0 where
  always_taken not_taken btfnt : Strategy
