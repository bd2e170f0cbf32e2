-- ===== src/Machine/Printed.antt =====
-- The figures that the exit system call prints (`SIM::syscall` in simulation.cpp), for the simulator as
-- `main` starts it.
use riscv_64i_simulator.Common.{ℕ, ◌+◌, ◌≤◌, ◌≡◌, ok, arith}
use riscv_64i_simulator.Isa.Inst.{is_bubble}
use riscv_64i_simulator.Pipeline.State.{Sim}
use riscv_64i_simulator.Isa.Inst.{Strategy}
use riscv_64i_simulator.Memory.{Memory}
use riscv_64i_simulator.Main.{Levels, hierarchy_ops, new_hierarchy, first_state}
use riscv_64i_simulator.Main.Hierarchy.{
  shown, AllCoherent, hierarchy-IsStorage, new_hierarchy-AllCoherent,
}
use riscv_64i_simulator.Main.Guards.{hierarchy-IsGuarded, hierarchy-IsBounded}
use riscv_64i_simulator.Main.Start.{start-IsTally}
use riscv_64i_simulator.Pipeline.Regs.{clear}
use riscv_64i_simulator.Pipeline.Syscall.{report}
use riscv_64i_simulator.Pipeline.Memory.{mem}
use riscv_64i_simulator.Pipeline.WriteBack.{wb}
use riscv_64i_simulator.Pipeline.Cycle.{start_cycle}
use riscv_64i_simulator.Pipeline.Invariant.{wb-frame}
use riscv_64i_simulator.Pipeline.Tally.{mem-counters}
use riscv_64i_simulator.Machine.Exit.{IsExit}
use riscv_64i_simulator.Machine.Start.{
  RunsFromStart, started, loaded, start-run, first_state-IsPrepared,
}
use riscv_64i_simulator.Machine.Figures.{Figures, Runs-Figures, uncounted, id_waits}

module _ (fuel : ℕ) (garbage : ℕ → ℕ → ℕ → ℕ) (m : Memory) (strat : Strategy) (entry : ℕ) (c n : ℕ)
    (t : Sim Levels) (r : RunsFromStart fuel garbage m strat entry c n t) where
  from_start : Figures c n (started fuel garbage m strat entry) t
  from_start =
      Runs-Figures hierarchy_ops shown AllCoherent hierarchy-IsStorage hierarchy-IsGuarded
        hierarchy-IsBounded fuel (loaded fuel garbage m strat entry) c n
        (started fuel garbage m strat entry) t
        (first_state-IsPrepared shown strat (new_hierarchy garbage m) entry AllCoherent
          (loaded fuel garbage m strat entry) (new_hierarchy-AllCoherent garbage m))
        r

  -- After a run as in `start-run`, the figures that the exit would print are these: the pipeline
  -- cycles are the rounds of the loop; the instructions are those that ID has handed on, but for
  -- the ones in EX and MEM; and the cycles, with one more if ID is empty, are at least the
  -- instructions handed on, the load-use hazards, the control hazards and 1 together, and at most
  -- so many and the mispredictions once more.
  pub start-figures :
      ((report t.counters).pipeline_cycles ≡ c)
      × ((report t.counters).instructions + uncounted t ≡ n)
      × (n + (report t.counters).loaduse_hazards + (report t.counters).control_hazards + 1
          ≤ c + id_waits t)
      × (c + id_waits t
          ≤ n
            + (report t.counters).loaduse_hazards
            + (report t.counters).control_hazards
            + (report t.counters).mispredicts
            + 1)
  unfolding first_state report clear uncounted id_waits is_bubble
  start-figures =
      let f = from_start in
      let (h, _) = start-run fuel garbage m strat entry c n t r in
      let v = start-IsTally hierarchy_ops fuel c strat (new_hierarchy garbage m) entry t h in
      ground (arith, f, v.control)

  -- When then the exit system call is in EX and MEM succeeds, the exit gives the number of the
  -- cycles with its own, and that of the instructions without itself.
  pub exit-figures :
      (u : Sim Levels)
      → IsExit t.ereg.cur
      → mem hierarchy_ops (wb (start_cycle t)) ≡ ok u
      → ((report u.counters).pipeline_cycles ≡ c + 1) × ((report u.counters).instructions + 1 ≡ n)
  unfolding report uncounted start_cycle is_bubble
  exit-figures u x h =
      let (a, b, _, _) = start-figures in
      let (d, e, f) = mem-counters hierarchy_ops (wb (start_cycle t)) u h in
      ground (arith, a, b, e.same, f, x.call, wb-frame (start_cycle t))
