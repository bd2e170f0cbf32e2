-- ===== src/Main/Time.antt =====
-- The time that `main` (main.cpp) makes the memory take, as the pipeline counts it.
use riscv_64i_simulator.Common.{ℕ, ◌+◌, ◌*◌, ◌≤◌, ◌≡◌, refl, ok, arith, ◌∙◌, if◌then◌else◌}
use riscv_64i_simulator.Storage.{Request, Reply}
use riscv_64i_simulator.Storage.Time.{IsTimely}
use riscv_64i_simulator.Isa.Inst.{Strategy}
use riscv_64i_simulator.Memory
use riscv_64i_simulator.Memory.{Memory}
use riscv_64i_simulator.Memory.Time.{memory_time, memory-IsTimely}
use riscv_64i_simulator.Cache
use riscv_64i_simulator.Cache.{Cache, access_cost, set_config}
use riscv_64i_simulator.Cache.Time.{cache_time, handle_request-IsTimely}
use riscv_64i_simulator.Cache.Counts.{handle_request-IsCounted}
use riscv_64i_simulator.Pipeline.State.{Sim}
use riscv_64i_simulator.Pipeline.Cycle.{simulate}
use riscv_64i_simulator.Pipeline.Agreement.{simulate-Keeps}
use riscv_64i_simulator.Main.{Levels, hierarchy_ops, new_cache, new_hierarchy, first_state}

abbrev llc_time : Cache Memory → ℕ
llc_time = cache_time memory_time

abbrev l2_time : Cache (Cache Memory) → ℕ
l2_time = cache_time llc_time

abbrev levels_time : Levels → ℕ
levels_time = cache_time l2_time

llc-IsTimely : IsTimely (Cache.handle_request Memory.handle_request) llc_time
llc-IsTimely = handle_request-IsTimely Memory.handle_request memory_time memory-IsTimely

l2-IsTimely : IsTimely (Cache.handle_request (Cache.handle_request Memory.handle_request)) l2_time
l2-IsTimely =
    handle_request-IsTimely (Cache.handle_request Memory.handle_request) llc_time llc-IsTimely

hierarchy-IsTimely : IsTimely hierarchy_ops.handle levels_time
unfolding hierarchy_ops
hierarchy-IsTimely =
    handle_request-IsTimely (Cache.handle_request (Cache.handle_request Memory.handle_request))
      l2_time l2-IsTimely

-- The bound of one access: the L1 cache takes 1, the L2 cache 8 and the LLC 20.
abbrev pub access_bound : Memory → ℕ
access_bound m = 1 + 2 * (8 + 2 * (20 + 2 * memory_time m))

-- So many accesses, each within the bound and at least one cycle.
record InTime (bound : ℕ) (l1 : Levels) (accesses hits time : ℕ) : Type 0 where
  same : levels_time l1 ≡ bound
  cost : access_cost l1 ≡ 1
  least : accesses ≤ time
  most : time ≤ bound * accesses

-- One access more within the bound.
next : (n b t u : ℕ) → t ≤ b * n → u ≤ b → t + u ≤ b * (n + 1)
next n b t u h k = grind arith

hierarchy-InTime :
    (bound : ℕ) (x : Levels) (addr : ℕ) (req : Request) (p : Levels × Reply)
    (accesses hits time : ℕ)
    → hierarchy_ops.handle x addr req ≡ ok p
    → InTime bound x accesses hits time
    → InTime bound p.0 (accesses + 1) (hits + (if p.1.hit then 1 else 0)) (time + p.1.time)
unfolding hierarchy_ops
hierarchy-InTime bound x addr req p accesses hits time h k =
    let c =
      handle_request-IsCounted (Cache.handle_request (Cache.handle_request Memory.handle_request)) x
        addr req p h in
    let w = hierarchy-IsTimely.within x addr req p h in
    let e = hierarchy-IsTimely.kept x addr req p h in
    let c1 : access_cost p.0 ≡ 1 = rw c.latency k.cost in
    record {
      same = e ∙ k.same;
      cost = c1;
      least = omega (arith, k, c);
      most = next accesses bound time p.1.time k.most (rw k.same at w);
    }

first_state-InTime :
    (garbage : ℕ → ℕ → ℕ → ℕ) (m : Memory) → InTime (access_bound m) (new_hierarchy garbage m) 0 0 0
unfolding new_hierarchy new_cache set_config
first_state-InTime garbage m = record {
  same = refl;
  cost = refl;
  least = omega arith;
  most = omega arith;
}

-- Over the three caches of `main`, after any number of cycles from the first state: the cycles that
-- are counted for the cache are at least as many as its accesses, and at most 1 + 2 * (8 + 2 * (20
-- + 2 * t)) for each, where t is the time that the memory takes to answer.
pub start-time :
    (fuel n : ℕ) (garbage : ℕ → ℕ → ℕ → ℕ) (m : Memory) (strat : Strategy) (entry : ℕ)
    (t : Sim Levels)
    → simulate hierarchy_ops fuel n (first_state strat (new_hierarchy garbage m) entry) ≡ ok t
    → (t.counters.cache_cnt ≤ t.counters.cache_cycle_cnt)
      × (t.counters.cache_cycle_cnt ≤ access_bound m * t.counters.cache_cnt)
unfolding first_state new_hierarchy
start-time fuel n garbage m strat entry t h =
    let k =
      simulate-Keeps hierarchy_ops (InTime (access_bound m)) (hierarchy-InTime (access_bound m))
        fuel n (first_state strat (new_hierarchy garbage m) entry) t (first_state-InTime garbage m)
        h in
    (k.least, k.most)
