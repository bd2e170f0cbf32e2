-- ===== src/Pipeline/Cycle.antt =====
-- `SIM::simulate`: the stages in the order WB, MEM, EX, ID, IF, the hazards, and the clock tick.
use riscv_64i_simulator.Common.{
  ℕ, zero, suc, ◌+◌, Bool, true, not, ◌&&◌, ◌||◌, Result, ok, ◌>>=◌, ◌==◌, if◌then◌else◌, update,
}
use riscv_64i_simulator.Isa.Inst.{is_branch, is_load, op_jal, op_jalr, reg_zero}
use riscv_64i_simulator.Isa.Fields.{opcode}
use riscv_64i_simulator.Pipeline.Regs.{tick, f_region, d_region, e_region, m_region, w_region}
use riscv_64i_simulator.Pipeline.State.{Sim, Ops}
use riscv_64i_simulator.Pipeline.Fetch.{fetch}
use riscv_64i_simulator.Pipeline.Decode.{id}
use riscv_64i_simulator.Pipeline.Execute.{ex}
use riscv_64i_simulator.Pipeline.Memory.{mem}
use riscv_64i_simulator.Pipeline.WriteBack.{wb}

module _ {S : Type 0} where
  -- The three tests of the loop, on the state after IF.
  unfoldable pub jump_in_id : Sim S → Bool
  jump_in_id s = (opcode s.dreg.cur.inst == op_jal) || (opcode s.dreg.cur.inst == op_jalr)

  unfoldable pub mispredicted : Sim S → Bool
  mispredicted s = is_branch s.ereg.cur.inst && s.e_b_wrong

  unfoldable pub load_use : Sim S → Bool
  load_use s =
      let dest = s.ereg.cur.destreg in
      not (dest == reg_zero)
      && (is_load s.ereg.cur.inst && ((s.d_reg1 == dest) || (s.d_reg2 == dest)))

  -- What each of them asks of the pipeline registers, and counts.
  unfoldable pub jump_hazard : Sim S → Sim S
  jump_hazard s =
      if jump_in_id s
      then record s {
        freg = record (s.freg) { stall = true };
        dreg = record (s.dreg) { bubble = true };
        counters = record (s.counters) {
          cnt_j = s.counters.cnt_j + 1;
          control_cnt = s.counters.control_cnt + 1;
        };
      }
      else s

  unfoldable pub branch_hazard : Sim S → Sim S
  branch_hazard s =
      if mispredicted s
      then record s {
        freg = record (s.freg) { stall = true };
        dreg = record (s.dreg) { bubble = true };
        ereg = record (s.ereg) { bubble = true };
        counters = record (s.counters) {
          mispredict = s.counters.mispredict + 1;
          control_cnt = s.counters.control_cnt + 1;
        };
      }
      else s

  unfoldable pub load_hazard : Sim S → Sim S
  load_hazard s =
      if load_use s
      then record s {
        freg = record (s.freg) { stall = true };
        dreg = record (s.dreg) { stall = true };
        ereg = record (s.ereg) { bubble = true };
        counters = record (s.counters) { loaduse_cnt = s.counters.loaduse_cnt + 1 };
      }
      else s

  -- The five ticks, and `reg[0] = 0`.
  unfoldable pub tick_all : Sim S → Sim S
  tick_all s = record s {
    freg = tick s.freg;
    dreg = tick s.dreg;
    ereg = tick s.ereg;
    mreg = tick s.mreg;
    wreg = tick s.wreg;
    reg = update s.reg 0 0;
  }

  unfoldable pub end_cycle : Sim S → Sim S
  end_cycle s = tick_all (load_hazard (branch_hazard (jump_hazard s)))

  unfoldable pub start_cycle : Sim S → Sim S
  start_cycle s = record s {
    counters = record (s.counters) { pipeline_cycle_cnt = s.counters.pipeline_cycle_cnt + 1 };
  }

module _ {S : Type 0} (l1 : Ops S) where
  -- One round of the loop. The fuel is that of the string-printing system call.
  unfoldable pub cycle : ℕ → Sim S → Result (Sim S)
  cycle fuel s = do
    s' ← mem l1 (wb (start_cycle s))
    s' ← ex l1 fuel s'
    s' ← id s'
    s' ← fetch l1 s'
    ok (end_cycle s')

  -- So many rounds of `while (true)`, which only the end of the process leaves.
  unfoldable pub simulate : ℕ → ℕ → Sim S → Result (Sim S)
  simulate fuel zero s = ok s
  simulate fuel (suc n) s = do s' ← cycle fuel s; simulate fuel n s'
