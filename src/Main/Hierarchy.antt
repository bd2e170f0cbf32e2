-- ===== src/Main/Hierarchy.antt =====
-- The three caches of `main` (simulation.cpp) over the memory as one storage level.
use riscv_64i_simulator.Common.{ℕ, ◌*◌, ◌/◌, ◌^◌, ◌≤◌, ◌≡◌, refl, arith, Option, List, ◌∙◌}
use riscv_64i_simulator.Storage.{Request}
use riscv_64i_simulator.Storage.Trace.{AllMapped, AllMapped-mono, Alike, serve-Alike}
use riscv_64i_simulator.Storage.Laws.{IsStorage}
use riscv_64i_simulator.Memory
use riscv_64i_simulator.Memory.{Memory}
use riscv_64i_simulator.Memory.Paging.{byte_at}
use riscv_64i_simulator.Memory.Serves.{Always, memory-IsStorage}
use riscv_64i_simulator.Cache
use riscv_64i_simulator.Cache.{Cache}
use riscv_64i_simulator.Cache.View.{view, IsCoherent}
use riscv_64i_simulator.Cache.Serves.{cache-IsStorage}
use riscv_64i_simulator.Cache.Config.{IsRequested, set_config-IsCoherent, set_config-view}
use riscv_64i_simulator.Main.{Levels, hierarchy_ops, config_of, new_cache, new_hierarchy}

-- What each level of the hierarchy shows, and when it is coherent.
abbrev pub llc_view : Cache Memory → ℕ → Option ℕ
llc_view = view byte_at

abbrev pub LlcGood : Cache Memory → Type 0
LlcGood = IsCoherent byte_at Always

abbrev pub l2_view : Cache (Cache Memory) → ℕ → Option ℕ
l2_view = view llc_view

abbrev pub L2Good : Cache (Cache Memory) → Type 0
L2Good = IsCoherent llc_view LlcGood

-- The byte that the program finds at an address.
abbrev pub shown : Levels → ℕ → Option ℕ
shown = view l2_view

abbrev pub AllCoherent : Levels → Type 0
AllCoherent = IsCoherent l2_view L2Good

pub llc-IsStorage : IsStorage (Cache.handle_request Memory.handle_request) llc_view LlcGood
llc-IsStorage = cache-IsStorage Memory.handle_request byte_at Always memory-IsStorage

pub l2-IsStorage :
    IsStorage (Cache.handle_request (Cache.handle_request Memory.handle_request)) l2_view L2Good
l2-IsStorage =
    cache-IsStorage (Cache.handle_request Memory.handle_request) llc_view LlcGood llc-IsStorage

pub hierarchy-IsStorage : IsStorage hierarchy_ops.handle shown AllCoherent
unfolding hierarchy_ops
hierarchy-IsStorage =
    cache-IsStorage (Cache.handle_request (Cache.handle_request Memory.handle_request)) l2_view
      L2Good l2-IsStorage

requested : (size k : ℕ) → k ≤ 25 → size / 512 ≡ 2 ^ k → IsRequested (config_of size) k
unfolding config_of
requested size k h e = record {
  few_sets = h;
  set_count = e;
  some_ways = omega arith;
  block_bytes = refl;
  writes_back = refl;
  allocates = refl;
}

new_cache-IsCoherent :
    {L : Type 0} (lower_view : L → ℕ → Option ℕ) (LowerGood : L → Type 0) (garbage : ℕ → ℕ → ℕ → ℕ)
    (size latency : ℕ) (lower : L) (k : ℕ)
    → k ≤ 25
    → size / 512 ≡ 2 ^ k
    → LowerGood lower
    → IsCoherent lower_view LowerGood (new_cache garbage size latency lower)
unfolding new_cache
new_cache-IsCoherent lower_view LowerGood garbage size latency lower k h e good =
    set_config-IsCoherent garbage (config_of size) _ lower_view LowerGood k (requested size k h e)
      good

new_cache-view :
    {L : Type 0} (lower_view : L → ℕ → Option ℕ) (garbage : ℕ → ℕ → ℕ → ℕ) (size latency : ℕ)
    (lower : L) (b : ℕ)
    → view lower_view (new_cache garbage size latency lower) b ≡ lower_view lower b
unfolding new_cache
new_cache-view lower_view garbage size latency lower b =
    set_config-view garbage (config_of size) _ lower_view b

pub new_hierarchy-AllCoherent :
    (garbage : ℕ → ℕ → ℕ → ℕ) (m : Memory) → AllCoherent (new_hierarchy garbage m)
unfolding new_hierarchy
new_hierarchy-AllCoherent garbage m =
    new_cache-IsCoherent l2_view L2Good garbage (32 * 1024) 1 _ 6 (omega arith) refl (
      new_cache-IsCoherent llc_view LlcGood garbage (256 * 1024) 8 _ 9 (omega arith) refl (
        new_cache-IsCoherent byte_at Always garbage (8 * 1024 * 1024) 20 m 14 (omega arith) refl
          tt))

pub new_hierarchy-shown :
    (garbage : ℕ → ℕ → ℕ → ℕ) (m : Memory) (b : ℕ) → shown (new_hierarchy garbage m) b ≡ byte_at m b
unfolding new_hierarchy
new_hierarchy-shown garbage m b =
    new_cache-view l2_view garbage (32 * 1024) 1 _ b
    ∙ new_cache-view llc_view garbage (256 * 1024) 8 _ b
    ∙ new_cache-view byte_at garbage (8 * 1024 * 1024) 20 m b

-- For the three caches of `main`, freshly configured over any memory and whatever bytes their new
-- blocks hold, and any sequence of requests that each stay within a block of 64 bytes and within
-- what is mapped in the memory: `l1.HandleRequest` answers every request, every read gives exactly
-- the bytes that the memory alone, asked the same requests, would have given, and afterwards both
-- show the same byte at every 32-bit address.
pub hierarchy-Transparent :
    (garbage : ℕ → ℕ → ℕ → ℕ) (m : Memory) (reqs : List (ℕ × Request))
    → AllMapped (byte_at m) reqs
    → Alike hierarchy_ops.handle shown AllCoherent Memory.handle_request byte_at Always
        (new_hierarchy garbage m)
        m
        reqs
hierarchy-Transparent garbage m reqs h =
    serve-Alike hierarchy_ops.handle shown AllCoherent Memory.handle_request byte_at Always
      hierarchy-IsStorage memory-IsStorage (new_hierarchy garbage m) m reqs
      (new_hierarchy-AllCoherent garbage m) tt (λ b q. new_hierarchy-shown garbage m b)
      (AllMapped-mono (byte_at m) (shown (new_hierarchy garbage m))
        (λ b q p. rw (new_hierarchy-shown garbage m b) p) reqs h)
