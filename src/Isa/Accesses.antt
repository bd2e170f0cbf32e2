-- ===== src/Isa/Accesses.antt =====
-- What the `switch (inst)` of `SIM::EX` (simulation.cpp) asks MEM to do.
use riscv_64i_simulator.Common.{ℕ, ◌<◌, ◌≡◌, true, ok, arith}
use riscv_64i_simulator.Isa.Inst.{InstType, is_load}
use riscv_64i_simulator.Isa.Execute.{ExResult, execute}

-- Only a load reads, and what reads or writes has a width.
pub record Asks (t : InstType) (r : ExResult) : Type 0 where
  pub only_loads : r.mem_read ≡ true → is_load t ≡ true
  pub read_width : r.mem_read ≡ true → 0 < r.mem_len
  pub write_width : r.mem_write ≡ true → 0 < r.mem_len

pub execute-Asks :
    (t : InstType) (pc a b offset : ℕ) (r : ExResult) → execute t pc a b offset ≡ ok r → Asks t r
unfolding execute is_load
execute-Asks t pc a b offset r h = ground arith
