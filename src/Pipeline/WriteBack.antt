-- ===== src/Pipeline/WriteBack.antt =====
-- `SIM::WB`: the result goes into the register file, but never into register 0.
use riscv_64i_simulator.Common.{not, ◌&&◌, ◌==◌, if◌then◌else◌, update}
use riscv_64i_simulator.Isa.Inst.{is_bubble, reg_zero}
use riscv_64i_simulator.Pipeline.State.{Sim}

module _ {S : Type 0} where
  unfoldable pub wb : Sim S → Sim S
  wb s =
      let w = s.wreg.cur in
      if is_bubble w.inst
      then s
      else if w.reg_write && not (w.dest_reg == reg_zero)
      then record s { reg = update s.reg w.dest_reg w.val_m }
      else s
