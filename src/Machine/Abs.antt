-- ===== src/Machine/Abs.antt =====
-- The state of the machine that a state of the pipeline stands for: the instructions in WB, MEM
-- and EX run to their end, and the next instruction is the one behind them.
use riscv_64i_simulator.Common.{
  ℕ, ◌^◌, ◌||◌, Option, none, Result, ok, ◌>>=◌, ltb, ◌==◌, if◌then◌else◌,
}
use riscv_64i_simulator.Isa.Inst.{is_bubble, is_jump}
use riscv_64i_simulator.Pipeline.Regs.{MRegion, WRegion}
use riscv_64i_simulator.Pipeline.State.{Sim}
use riscv_64i_simulator.Pipeline.Forwarding.{commit}
use riscv_64i_simulator.Machine.{Core, Arch, complete, enter}

-- The bytes at the 32-bit addresses.
unfoldable pub flat : (ℕ → Option ℕ) → ℕ → Option ℕ
flat v b = if ltb b (2 ^ 32) then v b else none

-- The write of WB.
unfoldable pub retire : WRegion → (ℕ → ℕ) → ℕ → ℕ
retire w reg = if is_bubble w.inst then reg else commit w.reg_write w.dest_reg w.val_m reg

module _ {S : Type 0} where
  -- Where the instruction behind EX is.
  unfoldable pub fall_through : Sim S → ℕ
  fall_through s =
      if s.mreg.cur.m_b_wrong
      then s.mreg.cur.m_calc_pc
      else if s.dreg.cur.inst == 0
      then s.freg.cur.pred_pc
      else s.dreg.cur.pc

  unfoldable pub pc_after : Sim S → MRegion → ℕ
  pc_after s m = if is_jump m.inst || m.m_b_wrong then m.m_calc_pc else fall_through s

module _ {S : Type 0} (view : S → ℕ → Option ℕ) where
  abbrev pub retired : Sim S → Core
  retired s = record {
    reg = retire s.wreg.cur s.reg;
    mem = flat (view s.storage);
    printed = s.printed;
  }

module _ {S : Type 0} (view : S → ℕ → Option ℕ) (fuel : ℕ) where
  unfoldable pub drained : Sim S → Result (MRegion × Core)
  drained s = complete s.mreg.cur (retired view s) >>= enter fuel s.ereg.cur

  unfoldable pub abs : Sim S → Result Arch
  abs s = drained s >>= λ e. complete e.0 e.1 >>= λ c. ok (record { core = c; pc = pc_after s e.0 })
