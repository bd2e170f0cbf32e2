-- ===== src/Machine/Program.antt =====
-- `main` (simulation.cpp) from its arguments on, against the machine on the image of the program.
use riscv_64i_simulator.Common.{
  ℕ, zero, suc, ◌+◌, ◌*◌, ◌≤◌, ◌≡◌, Option, some, List, ok, halt, Halt, >>=-eq-ok, refl, ◌∙◌, sym,
  exit_normally,
}
use mathlib.Core.Bool.{false≢true}
use mathlib.Core.Path.{subst}
use riscv_64i_simulator.Memory.{Memory, find_page}
use riscv_64i_simulator.Memory.Paging.{byte_at}
use riscv_64i_simulator.Pipeline.State.{Sim, Ops}
use riscv_64i_simulator.Pipeline.Regs.{clear}
use riscv_64i_simulator.Isa.Inst.{Strategy, is_load}
use riscv_64i_simulator.Pipeline.Cycle.{simulate, cycle, start_cycle}
use riscv_64i_simulator.Loader.{map_stack}
use riscv_64i_simulator.Loader.Image.{image, AllLoadable, loaded-image}
use riscv_64i_simulator.Main.{
  Levels, Arg, Options, Program, hierarchy_ops, new_hierarchy, empty_memory, first_state, boot,
  main, parse_args, default_options,
}
use riscv_64i_simulator.Main.Hierarchy.{
  shown, AllCoherent, hierarchy-IsStorage, new_hierarchy-AllCoherent,
}
use riscv_64i_simulator.Main.Guards.{hierarchy-IsGuarded, hierarchy-IsBounded}
use riscv_64i_simulator.Machine.JumpSafe.{IsJumpSafe, IsFollowed, Fetches, Fetches-Runs}
use riscv_64i_simulator.Machine.Progress.{Runs-progress}
use riscv_64i_simulator.Machine.Exit.{IsExit}
use riscv_64i_simulator.Pipeline.Memory.{mem}
use riscv_64i_simulator.Pipeline.WriteBack.{wb}
use riscv_64i_simulator.Pipeline.Syscall.{report}
use riscv_64i_simulator.Machine.{run, no_report}
use riscv_64i_simulator.Machine.Abs.{abs, flat}
use riscv_64i_simulator.Machine.Accesses.{flat_ext}
use riscv_64i_simulator.Machine.Run.{Runs}
use riscv_64i_simulator.Machine.Printed.{exit-figures}
use riscv_64i_simulator.Machine.Start.{
  power_on, first_state-IsPrepared, RunsFromStart, start-run, start-exit,
}

empty_memory-byte_at : (b : ℕ) → byte_at empty_memory b ≡ Option.none
unfolding empty_memory byte_at find_page
empty_memory-byte_at b = refl

-- The machine's memory before the first instruction of a program.
abbrev pub program_image : Program → ℕ → Option ℕ
program_image p = flat (image p.segments)

-- Where every segment starts on a page boundary, has no more bytes in the file than in the memory
-- and ends at least a page below 2 ^ 32, and with fuel that is above the memory size of every
-- segment by two: `main` reaches its loop, in its first state over new caches and a memory that
-- shows, at every 32-bit address, what the image of the program says: the byte of the last segment
-- whose bytes from the file reach there, else 0 on the pages of the segments and of the stack, and
-- nothing anywhere else.
pub boot-image :
    (fuel : ℕ) (garbage : ℕ → ℕ → ℕ → ℕ) (o : Options) (p : Program)
    → AllLoadable fuel p.segments
    → (m : Memory) × (boot fuel garbage o p.segments p.entry
        ≡ ok (first_state o.branch_strat (new_hierarchy garbage m) p.entry))
      × (flat (byte_at m) ≡ program_image p)
unfolding boot
boot-image fuel garbage o p l =
    let (loaded, a, x) = loaded-image fuel empty_memory p.segments empty_memory-byte_at l in
    (map_stack loaded, rw a refl, flat_ext (byte_at (map_stack loaded)) (image p.segments) x)

first_state-IsFollowed :
    {S : Type 0} (strat : Strategy) (storage : S) (entry : ℕ) (text : ℕ → Option ℕ)
    → IsFollowed text (first_state strat storage entry)
unfolding first_state clear is_load
first_state-IsFollowed strat storage entry text = record {
  load_word = λ l. absurd (false≢true l);
  behind = λ l n. absurd (false≢true l);
}

simulate-halt :
    {S : Type 0} (l1 : Ops S) (fuel c : ℕ) (s t : Sim S) (e : Halt)
    → simulate l1 fuel c s ≡ ok t
    → cycle l1 fuel t ≡ halt e
    → simulate l1 fuel (suc c) s ≡ halt e
unfolding simulate
simulate-halt l1 fuel zero s t e h k = let here : s ≡ t = cc in rw (here, k, simulate) refl
simulate-halt l1 fuel (suc c) s t e h k =
    let (u, a, b) = >>=-eq-ok (cycle l1 fuel s) _ h in rw a (simulate-halt l1 fuel c u t e b k)

-- A run over a text is one over what is the same text.
Runs-of_text :
    (fuel c n : ℕ) (s t : Sim Levels) (text text' : ℕ → Option ℕ)
    → text ≡ text'
    → Runs hierarchy_ops shown fuel text' c n s t
    → Runs hierarchy_ops shown fuel text c n s t
Runs-of_text fuel c n s t text text' e r =
    subst (λ v. Runs hierarchy_ops shown fuel v c n s t) (sym e) r

module _ (read_elf : Arg → Option Program) (fuel : ℕ) (garbage : ℕ → ℕ → ℕ → ℕ) (args : List Arg)
    (p : Program) where
  abbrev o : Options
  o = parse_args default_options args

  -- What `main` does once the ELF reader has read the file.
  main-simulate :
      (s : Sim Levels) (c : ℕ)
      → read_elf o.file ≡ some p
      → boot fuel garbage o p.segments p.entry ≡ ok s
      → main read_elf fuel garbage c args ≡ simulate hierarchy_ops fuel c s
  unfolding main
  main-simulate s c e b = rw (e, main, b) refl

  module _ (s t : Sim Levels) (c : ℕ) (e : read_elf o.file ≡ some p)
      (l : AllLoadable fuel p.segments) (safe : IsJumpSafe (program_image p))
      (b : boot fuel garbage o p.segments p.entry ≡ ok s)
      (r : Fetches hierarchy_ops shown fuel (program_image p) c s t) where
    -- The run as one from the first state of the loaded memory.
    record FromBoot : Type 0 where
      m : Memory
      same : flat (byte_at m) ≡ program_image p
      start : s ≡ first_state o.branch_strat (new_hierarchy garbage m) p.entry
      n : ℕ
      runs : RunsFromStart fuel garbage m o.branch_strat p.entry c n t
      short : c ≤ n * 3 + 2

    from_boot : FromBoot
    from_boot =
        let (m, h, same) = boot-image fuel garbage o p l in
        let start : s ≡ first_state o.branch_strat (new_hierarchy garbage m) p.entry = cc (b, h) in
        let prepared =
          first_state-IsPrepared shown o.branch_strat (new_hierarchy garbage m) p.entry AllCoherent
            (program_image p) (new_hierarchy-AllCoherent garbage m) in
        let (n, w) =
          Fetches-Runs hierarchy_ops shown AllCoherent hierarchy-IsStorage hierarchy-IsGuarded
            hierarchy-IsBounded fuel (program_image p) safe c
            (first_state o.branch_strat (new_hierarchy garbage m) p.entry) t prepared
            (first_state-IsFollowed o.branch_strat (new_hierarchy garbage m) p.entry
              (program_image p))
            (rw start at r) in
        record {
          m = m;
          same = same;
          start = start;
          n = n;
          runs =
              Runs-of_text fuel c n (first_state o.branch_strat (new_hierarchy garbage m) p.entry) t
                (flat (byte_at m)) (program_image p) same w;
          short =
              Runs-progress hierarchy_ops shown AllCoherent hierarchy-IsStorage hierarchy-IsGuarded
                hierarchy-IsBounded fuel (program_image p) c n
                (first_state o.branch_strat (new_hierarchy garbage m) p.entry) t prepared w;
        }

    -- `main`, where the ELF reader reads the file that the arguments name as a program whose
    -- segments can be loaded, and where no load of the program's image is followed by a JALR to the
    -- address that it loads: from the state in which `main` reaches its loop, after any number of
    -- cycles in which IF fetches no word that is 0 or that differs from the image, `main` is in a
    -- state that stands for what the machine, started on the image alone, comes to after a number
    -- of instructions, and there were at most three cycles for each of these and two more.
    pub main-run :
        (n : ℕ) × (main read_elf fuel garbage c args ≡ ok t)
        × (abs shown fuel t ≡ run fuel (program_image p) n (power_on (program_image p) p.entry))
        × (c ≤ n * 3 + 2)
    main-run =
        let f = from_boot in
        let (x, y) = start-run fuel garbage f.m o.branch_strat p.entry c f.n t f.runs in
        (f.n, main-simulate s c e b ∙ rw f.start x, rw f.same at y, f.short)

    -- When after a run as in `main-run` the exit system call is in EX and MEM succeeds, the next
    -- cycle ends `main` with the exit, the machine ends with the exit after a number of
    -- instructions of the image, and both have printed the same; the exit gives the number of the
    -- cycles with its own, and that of the instructions without itself.
    pub main-exit :
        (u : Sim Levels)
        → IsExit t.ereg.cur
        → mem hierarchy_ops (wb (start_cycle t)) ≡ ok u
        → (n : ℕ) × (main read_elf fuel garbage (suc c) args
            ≡ halt (exit_normally (report u.counters) t.printed))
          × (run fuel (program_image p) n (power_on (program_image p) p.entry)
              ≡ halt (exit_normally no_report t.printed))
          × ((report u.counters).pipeline_cycles ≡ c + 1)
          × ((report u.counters).instructions + 1 ≡ n)
    main-exit u x w =
        let f = from_boot in
        let (q, _) = start-run fuel garbage f.m o.branch_strat p.entry c f.n t f.runs in
        let (cycles, instructions) =
          exit-figures fuel garbage f.m o.branch_strat p.entry c f.n t f.runs u x w in
        let (y, z) = start-exit fuel garbage f.m o.branch_strat p.entry c f.n t u f.runs x w in
        (
          f.n,
          main-simulate s (suc c) e b
              ∙ simulate-halt hierarchy_ops fuel c s t (exit_normally (report u.counters) t.printed)
                  (rw f.start q) y,
          rw f.same at z,
          cycles,
          instructions,
        )
