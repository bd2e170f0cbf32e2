-- ===== src/Pipeline/Regs.antt =====
-- The classes `PIPE_REG`, `F_REG`, `D_REG`, `E_REG`, `M_REG` and `W_REG` of Simulation.h.
use riscv_64i_simulator.Common.{ℕ, Bool, false, if◌then◌else◌}
use riscv_64i_simulator.Isa.Inst.{InstType}

-- What the five `struct region`s share: the value that `memset` leaves, and `cur.inst = 0`.
pub record Region (R : Type 0) : Type 0 where
  pub zeroed : R
  pub without_inst : R → R

-- A pipeline register: what the stage reads (`cur`), what the stage before it prepares (`upd`),
-- and the two requests of `PIPE_REG`.
pub record PipeReg (R : Type 0) : Type 0 where
  pub bubble : Bool
  pub stall : Bool
  pub cur : R
  pub upd : R

-- `tick` and `clear`, which are the same text in each of the five classes.
module _ {R : Type 0} ⦃r : Region R⦄ where
  unfoldable pub tick : PipeReg R → PipeReg R
  tick p = record {
    bubble = false;
    stall = false;
    cur = if p.bubble then r.without_inst p.cur else if p.stall then p.cur else p.upd;
    upd = r.zeroed;
  }

  unfoldable pub clear : PipeReg R → PipeReg R
  clear p = record { bubble = false; stall = false; cur = r.zeroed; upd = r.zeroed }

pub record FRegion : Type 0 where
  pub pred_pc : ℕ
  pub inst : ℕ

pub record DRegion : Type 0 where
  pub pc : ℕ
  pub inst : ℕ
  pub pc_not_taken : ℕ
  pub take_branch : Bool

pub record ERegion : Type 0 where
  pub pc : ℕ
  pub rs1 : ℕ
  pub rs2 : ℕ
  pub destreg : ℕ
  pub inst : InstType
  pub pc_not_taken : ℕ
  pub val_a : ℕ
  pub val_b : ℕ
  pub offset : ℕ
  pub take_branch : Bool

pub record MRegion : Type 0 where
  pub val_a : ℕ
  pub val_b : ℕ
  pub val_e : ℕ
  pub m_calc_pc : ℕ
  pub pc : ℕ
  pub inst : InstType
  pub mem_len : ℕ
  pub dest_reg : ℕ
  pub reg_write : Bool
  pub mem_write : Bool
  pub mem_read : Bool
  pub mem_signed : Bool
  pub m_b_wrong : Bool
  pub branch : Bool

pub record WRegion : Type 0 where
  pub pc : ℕ
  pub inst : InstType
  pub val_a : ℕ
  pub val_b : ℕ
  pub val_m : ℕ
  pub val_e : ℕ
  pub reg_write : Bool
  pub dest_reg : ℕ

instance abbrev pub f_region : Region FRegion
f_region = record {
  zeroed = record { pred_pc = 0; inst = 0 };
  without_inst = λ c. record c { inst = 0 };
}

instance abbrev pub d_region : Region DRegion
d_region = record {
  zeroed = record { pc = 0; inst = 0; pc_not_taken = 0; take_branch = false };
  without_inst = λ c. record c { inst = 0 };
}

instance abbrev pub e_region : Region ERegion
e_region = record {
  zeroed = record {
    pc = 0;
    rs1 = 0;
    rs2 = 0;
    destreg = 0;
    inst = InstType.bubble;
    pc_not_taken = 0;
    val_a = 0;
    val_b = 0;
    offset = 0;
    take_branch = false;
  };
  without_inst = λ c. record c { inst = InstType.bubble };
}

instance abbrev pub m_region : Region MRegion
m_region = record {
  zeroed = record {
    val_a = 0;
    val_b = 0;
    val_e = 0;
    m_calc_pc = 0;
    pc = 0;
    inst = InstType.bubble;
    mem_len = 0;
    dest_reg = 0;
    reg_write = false;
    mem_write = false;
    mem_read = false;
    mem_signed = false;
    m_b_wrong = false;
    branch = false;
  };
  without_inst = λ c. record c { inst = InstType.bubble };
}

instance abbrev pub w_region : Region WRegion
w_region = record {
  zeroed = record {
    pc = 0;
    inst = InstType.bubble;
    val_a = 0;
    val_b = 0;
    val_m = 0;
    val_e = 0;
    reg_write = false;
    dest_reg = 0;
  };
  without_inst = λ c. record c { inst = InstType.bubble };
}
