-- ===== src/Machine/Start.antt =====
-- The simulator as `main` (simulation.cpp) starts it, against the machine on the loaded memory.
use riscv_64i_simulator.Common.{
  ℕ, ◌≡◌, Option, ok, halt, ◌>>=◌, refl, sym, ap, ◌∙◌, arith, exit_normally, [], update,
}
use riscv_64i_simulator.Isa.Inst.{Strategy, reg_sp, stack_start, is_bubble, is_jump}
use riscv_64i_simulator.Memory.{Memory}
use riscv_64i_simulator.Memory.Paging.{byte_at}
use riscv_64i_simulator.Pipeline.Regs.{clear}
use riscv_64i_simulator.Pipeline.State.{Sim}
use riscv_64i_simulator.Pipeline.Memory.{mem}
use riscv_64i_simulator.Pipeline.WriteBack.{wb}
use riscv_64i_simulator.Pipeline.Syscall.{report}
use riscv_64i_simulator.Pipeline.Cycle.{cycle, simulate, start_cycle}
use riscv_64i_simulator.Main.{Levels, hierarchy_ops, new_hierarchy, first_state}
use riscv_64i_simulator.Main.Hierarchy.{
  shown, AllCoherent, hierarchy-IsStorage, new_hierarchy-AllCoherent, new_hierarchy-shown,
}
use riscv_64i_simulator.Main.Guards.{hierarchy-IsGuarded, hierarchy-IsBounded}
use riscv_64i_simulator.Main.Start.{first_state-IsInvariant}
use riscv_64i_simulator.Machine.{Arch, run, no_report, complete, enter}
use riscv_64i_simulator.Machine.Abs.{abs, flat, drained, retire, pc_after, fall_through}
use riscv_64i_simulator.Machine.Accesses.{flat_ext}
use riscv_64i_simulator.Machine.Prepared.{IsPrepared}
use riscv_64i_simulator.Machine.Run.{Runs, Runs-run, Runs-simulate}
use riscv_64i_simulator.Machine.Exit.{IsExit, exit_same}

-- The machine before its first instruction.
pub power_on : (ℕ → Option ℕ) → ℕ → Arch
power_on bytes entry = record {
  core = record { reg = update (λ i. 0) reg_sp stack_start; mem = bytes; printed = [] };
  pc = entry;
}

module _ {S : Type 0} (view : S → ℕ → Option ℕ) (strat : Strategy) (storage : S) (entry : ℕ) where
  first_state-power_on :
      (fuel : ℕ)
      → abs view fuel (first_state strat storage entry) ≡ ok (power_on (flat (view storage)) entry)
  unfolding first_state clear abs drained complete enter retire pc_after fall_through is_bubble
      is_jump power_on
  first_state-power_on fuel = refl

  pub first_state-IsPrepared :
      (IsGood : S → Type 0) (text : ℕ → Option ℕ)
      → IsGood storage
      → IsPrepared IsGood text (first_state strat storage entry)
  unfolding first_state clear is_jump
  first_state-IsPrepared IsGood text g = record {
    invariant = first_state-IsInvariant strat storage entry;
    good = g;
    lengths = ground arith;
    guided = ground arith;
    of_text = λ n. absurd (n refl);
  }

module _ (fuel : ℕ) (garbage : ℕ → ℕ → ℕ → ℕ) (m : Memory) (strat : Strategy) (entry : ℕ) where
  -- The memory that the program was loaded into.
  abbrev pub loaded : ℕ → Option ℕ
  loaded = flat (byte_at m)

  abbrev pub started : Sim Levels
  started = first_state strat (new_hierarchy garbage m) entry

  abbrev pub RunsFromStart : ℕ → ℕ → Sim Levels → Type 0
  RunsFromStart c n t = Runs hierarchy_ops shown fuel loaded c n started t

  begun : abs shown fuel started ≡ ok (power_on loaded entry)
  begun =
      first_state-power_on shown strat (new_hierarchy garbage m) entry fuel
      ∙ ap (λ v. ok (power_on v entry))
          (flat_ext (shown (new_hierarchy garbage m)) (byte_at m)
            (λ b h. new_hierarchy-shown garbage m b))

  from_start :
      (c n : ℕ) (t : Sim Levels)
      → RunsFromStart c n t
      → (abs shown fuel t ≡ (abs shown fuel started >>= run fuel loaded n))
        × IsPrepared AllCoherent loaded t
  from_start c n t r =
      Runs-run hierarchy_ops shown AllCoherent hierarchy-IsStorage hierarchy-IsGuarded
        hierarchy-IsBounded fuel loaded c n started t
        (first_state-IsPrepared shown strat (new_hierarchy garbage m) entry AllCoherent loaded
          (new_hierarchy-AllCoherent garbage m))
        r

  -- The simulator with its pipeline, forwarding, branch prediction and three caches, started on any
  -- loaded memory and run for any number of cycles in which IF fetches no word that is 0 or that
  -- differs from the loaded one, and no jump is thrown away in ID: these are rounds of the loop of
  -- `SIM::simulate`, and the state they reach stands for what a machine that executes one
  -- instruction after another on a flat memory comes to after as many instructions of the loaded
  -- program as ID has handed on to EX: the same registers, bytes and output, and the same address
  -- of the next instruction.
  pub start-run :
      (c n : ℕ) (t : Sim Levels)
      → RunsFromStart c n t
      → (simulate hierarchy_ops fuel c started ≡ ok t)
        × (abs shown fuel t ≡ run fuel loaded n (power_on loaded entry))
  start-run c n t r = (
    Runs-simulate hierarchy_ops shown fuel loaded c n started t r,
    (from_start c n t r).0 ∙ ap (λ a. a >>= run fuel loaded n) begun,
  )

  -- When after such a run the exit system call is in EX and MEM succeeds, the next cycle of the
  -- simulator ends the process with the exit, the machine ends with the exit after as many
  -- instructions as ID has handed on, and both have printed the same.
  pub start-exit :
      (c n : ℕ) (t u : Sim Levels)
      → RunsFromStart c n t
      → IsExit t.ereg.cur
      → mem hierarchy_ops (wb (start_cycle t)) ≡ ok u
      → (cycle hierarchy_ops fuel t ≡ halt (exit_normally (report u.counters) t.printed))
        × (run fuel loaded n (power_on loaded entry) ≡ halt (exit_normally no_report t.printed))
  start-exit c n t u r e h =
      let p = (from_start c n t r).1 in
      let (a, b) =
        exit_same hierarchy_ops shown AllCoherent hierarchy-IsStorage hierarchy-IsGuarded
          hierarchy-IsBounded fuel t u p.good p.lengths e h in
      (a, sym (start-run c n t r).1 ∙ b)
