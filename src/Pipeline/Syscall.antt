-- ===== src/Pipeline/Syscall.antt =====
-- `SIM::syscall`. A string is printed up to its NUL, a byte at a time through the cache; the loop
-- takes fuel, and running out of it is `halt no_fuel`.
use riscv_64i_simulator.Common.{
  ℕ, zero, suc, ◌+◌, ◌-◌, ◌%◌, ◌^◌, [], ◌∷◌, ◌++◌, Result, ok, halt, no_fuel, exit_normally,
  unknown_syscall, Report, Event, put_char, put_int, ◌>>=◌, ◌==◌, if◌then◌else◌, u32, add64, get_or,
}
use riscv_64i_simulator.Storage.{read}
use riscv_64i_simulator.Pipeline.State.{Sim, Counters, Ops, access}

-- The figures of `case 93`.
unfoldable pub report : Counters → Report
report c = record {
  total_cycles = c.cache_cycle_cnt + c.pipeline_cycle_cnt;
  pipeline_cycles = c.pipeline_cycle_cnt;
  instructions = c.inst_cnt;
  loaduse_hazards = c.loaduse_cnt;
  jumps = c.cnt_j;
  mispredicts = c.mispredict;
  control_hazards = c.control_cnt;
  correct_predicts = c.correct_predict;
  cache_accesses = c.cache_cnt;
  cache_misses = c.cache_cnt - c.cachehit_cnt;
}

module _ {S : Type 0} where
  abbrev pub print : Event → Sim S → Sim S
  print e s = record s { printed = s.printed ++ (e ∷ []) }

module _ {S : Type 0} (l1 : Ops S) where
  -- The reads and the loop of `case 0`, from the address `arg1` on.
  unfoldable pub print_string : ℕ → Sim S → ℕ → Result (Sim S)
  print_string zero s arg1 = halt no_fuel
  print_string (suc fuel) s arg1 = do
    got ← access l1 s arg1 (read 1)
    let c = get_or got.1 0 0
    if c == 0 then ok got.0 else print_string fuel (print (put_char c) got.0) (add64 arg1 1)

  -- The system call `val_b` with the argument `val_a`.
  unfoldable pub syscall : ℕ → Sim S → ℕ → ℕ → Result (Sim S)
  syscall fuel s val_a val_b =
      if val_b == 0
      then print_string fuel s val_a
      else if val_b == 1
      then ok (print (put_char (val_a % 2 ^ 8)) s)
      else if val_b == 2
      then ok (print (put_int (u32 val_a)) s)
      else if val_b == 93
      then halt (exit_normally (report s.counters) s.printed)
      else halt (unknown_syscall val_b)
