-- ===== src/Main/Start.antt =====
-- The state that `main` hands over, and the pipeline from there on.
use riscv_64i_simulator.Common.{ℕ, ◌≡◌, ok, arith, ◌+◌, if◌then◌else◌}
use riscv_64i_simulator.Isa.Inst.{Strategy}
use riscv_64i_simulator.Pipeline.Regs.{clear}
use riscv_64i_simulator.Pipeline.State.{Sim, Ops}
use riscv_64i_simulator.Pipeline.Cycle.{simulate}
use riscv_64i_simulator.Pipeline.Invariant.{IsInvariant, no_dest}
use riscv_64i_simulator.Pipeline.Steps.{simulate-IsInvariant}
use riscv_64i_simulator.Pipeline.Tally.{IsTally, simulate-IsTally}
use riscv_64i_simulator.Pipeline.Agreement.{simulate-Keeps}
use riscv_64i_simulator.Storage.{Request, Reply}
use riscv_64i_simulator.Pipeline.Syscall.{report}
use riscv_64i_simulator.Memory
use riscv_64i_simulator.Memory.{Memory}
use riscv_64i_simulator.Cache
use riscv_64i_simulator.Cache.{set_config}
use riscv_64i_simulator.Cache.Counts.{handle_request-IsCounted}
use riscv_64i_simulator.Main.{Levels, hierarchy_ops, new_cache, new_hierarchy, first_state}

pub first_state-IsInvariant :
    {S : Type 0} (strat : Strategy) (storage : S) (entry : ℕ)
    → IsInvariant (first_state strat storage entry)
unfolding first_state clear no_dest
first_state-IsInvariant strat storage entry = ground arith

-- Over any storage, every state that any number of cycles reaches from the first state of `main`
-- satisfies the invariant of the pipeline: no request pending at a pipeline register, register 0 is
-- 0, what EX and MEM will write is one of the 32 registers, and the EX and ID registers are empty
-- when a misprediction stands in MEM.
pub start-IsInvariant :
    {S : Type 0} (l1 : Ops S) (fuel n : ℕ) (strat : Strategy) (storage : S) (entry : ℕ) (t : Sim S)
    → simulate l1 fuel n (first_state strat storage entry) ≡ ok t
    → IsInvariant t
start-IsInvariant l1 fuel n strat storage entry t h =
    simulate-IsInvariant l1 fuel n (first_state strat storage entry) t
      (first_state-IsInvariant strat storage entry) h

first_state-IsTally :
    {S : Type 0} (strat : Strategy) (storage : S) (entry : ℕ)
    → IsTally (first_state strat storage entry).counters
unfolding first_state
first_state-IsTally strat storage entry = ground arith

-- Over any storage, after any number of cycles from the first state of `main`: no more hits than
-- accesses are counted, the control hazards are the jumps and the mispredictions together, and
-- there are no more instructions, load-use hazards or jumps than cycles, and no more guesses, right
-- and wrong together.
pub start-IsTally :
    {S : Type 0} (l1 : Ops S) (fuel n : ℕ) (strat : Strategy) (storage : S) (entry : ℕ) (t : Sim S)
    → simulate l1 fuel n (first_state strat storage entry) ≡ ok t
    → IsTally t.counters
start-IsTally l1 fuel n strat storage entry t h =
    simulate-IsTally l1 fuel n (first_state strat storage entry) t
      (first_state-IsTally strat storage entry) h

-- The pipeline counts what the L1 cache counts.
record SameCounts (l1 : Levels) (accesses hits time : ℕ) : Type 0 where
  total : l1.stats.access_counter ≡ accesses
  missed : l1.stats.miss_num + hits ≡ accesses

hierarchy-SameCounts :
    (x : Levels) (addr : ℕ) (req : Request) (p : Levels × Reply) (accesses hits time : ℕ)
    → hierarchy_ops.handle x addr req ≡ ok p
    → SameCounts x accesses hits time
    → SameCounts p.0 (accesses + 1) (hits + (if p.1.hit then 1 else 0)) (time + p.1.time)
unfolding hierarchy_ops
hierarchy-SameCounts x addr req p accesses hits time h k =
    let c =
      handle_request-IsCounted (Cache.handle_request (Cache.handle_request Memory.handle_request)) x
        addr req p h in
    ground (arith, c)

first_state-SameCounts :
    (garbage : ℕ → ℕ → ℕ → ℕ) (m : Memory) → SameCounts (new_hierarchy garbage m) 0 0 0
unfolding new_hierarchy new_cache set_config
first_state-SameCounts garbage m = ground arith

-- Over the three caches of `main`, after any number of cycles from the first state: the accesses
-- and the misses of the cache that the exit would print are those that the figures of the L1 cache
-- itself have counted.
pub start-report :
    (fuel n : ℕ) (garbage : ℕ → ℕ → ℕ → ℕ) (m : Memory) (strat : Strategy) (entry : ℕ)
    (t : Sim Levels)
    → simulate hierarchy_ops fuel n (first_state strat (new_hierarchy garbage m) entry) ≡ ok t
    → ((report t.counters).cache_accesses ≡ t.storage.stats.access_counter)
      × ((report t.counters).cache_misses ≡ t.storage.stats.miss_num)
unfolding report first_state new_hierarchy
start-report fuel n garbage m strat entry t h =
    let k =
      simulate-Keeps hierarchy_ops SameCounts hierarchy-SameCounts fuel n
        (first_state strat (new_hierarchy garbage m) entry) t (first_state-SameCounts garbage m)
        h in
    ground (arith, k)
