-- ===== src/Storage/Time.antt =====
-- How long a level of the memory hierarchy takes to answer.
use riscv_64i_simulator.Common.{ℕ, ◌≤◌, ◌≡◌, ok}
use riscv_64i_simulator.Storage.{Handler, Request, Reply}

-- No answer takes longer than a bound that the level keeps.
pub record IsTimely {S : Type 0} (handle : Handler S) (bound : S → ℕ) : Type 0 where
  pub within :
      (x : S) (a : ℕ) (req : Request) (p : S × Reply) → handle x a req ≡ ok p → p.1.time ≤ bound x
  pub kept :
      (x : S) (a : ℕ) (req : Request) (p : S × Reply) → handle x a req ≡ ok p → bound p.0 ≡ bound x
