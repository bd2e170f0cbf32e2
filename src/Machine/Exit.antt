-- ===== src/Machine/Exit.antt =====
-- The exit system call (`SIM::syscall` in simulation.cpp), which ends the pipeline and the machine.
use riscv_64i_simulator.Common.{ℕ, ◌≡◌, Option, ok, halt, refl, exit_normally}
use riscv_64i_simulator.Storage.Laws.{IsStorage}
use riscv_64i_simulator.Storage.Guards.{IsGuarded, IsBounded}
use riscv_64i_simulator.Isa.Inst.{is_bubble, ecall}
use riscv_64i_simulator.Isa.Execute.{execute}
use riscv_64i_simulator.Pipeline.Regs.{ERegion}
use riscv_64i_simulator.Pipeline.State.{Sim, Ops}
use riscv_64i_simulator.Pipeline.Memory.{mem}
use riscv_64i_simulator.Pipeline.WriteBack.{wb}
use riscv_64i_simulator.Pipeline.Syscall.{syscall, report}
use riscv_64i_simulator.Pipeline.Execute.{ex, call_system, is_ecall}
use riscv_64i_simulator.Pipeline.Cycle.{cycle, start_cycle}
use riscv_64i_simulator.Pipeline.Frames.{mem-frame}
use riscv_64i_simulator.Pipeline.Invariant.{wb-frame}
use riscv_64i_simulator.Machine.{Core, enter, flat_call, no_report}
use riscv_64i_simulator.Machine.Abs.{abs, drained}
use riscv_64i_simulator.Machine.Stages.{HasLength}
use riscv_64i_simulator.Machine.Cycle.{mem_step-complete}

-- The instruction in the E register is the exit system call.
pub record IsExit (e : ERegion) : Type 0 where
  pub call : e.inst ≡ ecall
  pub number : e.val_b ≡ 93

module _ {S : Type 0} (l1 : Ops S) where
  ex-exit :
      (fuel : ℕ) (s : Sim S)
      → IsExit s.ereg.cur
      → ex l1 fuel s ≡ halt (exit_normally (report s.counters) s.printed)
  unfolding ex call_system syscall is_ecall is_bubble execute
  ex-exit fuel s e = rw (e.call, e.number) refl

enter-exit :
    (fuel : ℕ) (e : ERegion) (c : Core)
    → IsExit e
    → enter fuel e c ≡ halt (exit_normally no_report c.printed)
unfolding enter flat_call is_ecall is_bubble execute
enter-exit fuel e c x = rw (x.call, x.number) refl

module _ {S : Type 0} (l1 : Ops S) (view : S → ℕ → Option ℕ) (IsGood : S → Type 0)
    (st : IsStorage l1.handle view IsGood) (gd : IsGuarded l1.handle view IsGood)
    (bd : IsBounded l1.handle view IsGood) where
  -- When the exit system call is in EX and MEM succeeds, the cycle ends the process with what has
  -- been printed so far, and so does the machine that the state stands for.
  pub exit_same :
      (fuel : ℕ) (s m : Sim S)
      → IsGood s.storage
      → HasLength s.mreg.cur
      → IsExit s.ereg.cur
      → mem l1 (wb (start_cycle s)) ≡ ok m
      → (cycle l1 fuel s ≡ halt (exit_normally (report m.counters) s.printed))
        × (abs view fuel s ≡ halt (exit_normally no_report s.printed))
  unfolding cycle abs drained start_cycle
  exit_same fuel s m g n e h =
      let f = wb-frame (start_cycle s) in
      let q = mem-frame l1 (wb (start_cycle s)) m h in
      let same : m.ereg.cur ≡ s.ereg.cur = cc in
      let out : m.printed ≡ s.printed = cc in
      let (c, y) = mem_step-complete l1 view IsGood st gd bd s m g n h in
      (
        rw (h, ex-exit l1 fuel m (rw same e), out) refl,
        rw (c, enter-exit fuel s.ereg.cur _ e, out) refl,
      )
