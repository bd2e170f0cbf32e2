-- ===== src/Tests/Storage.antt =====
-- Examples for the memory, the caches and the loader.
use riscv_64i_simulator.Common.{
  ◌+◌, ◌≢◌, ◌↔◌, none, ℕ, ◌<◌, ◌*◌, ◌≡◌, refl, some, List, [], ◌∷◌, arith, ok, true, get_or,
}
use riscv_64i_simulator.Storage.{read, write, Request, Reply}
use riscv_64i_simulator.Storage.Laws.{Fits, Reads, IsStorage}
use riscv_64i_simulator.Storage.Trace.{AllMapped, no_request, next_request, Alike}
use riscv_64i_simulator.Memory
use riscv_64i_simulator.Memory.{Memory, alloc, find_page, is_valid_addr, pde, pte, off, store_byte}
use riscv_64i_simulator.Memory.Paging.{byte_at}
use riscv_64i_simulator.Memory.Values.{StoreLoad, store-StoreLoad}
use riscv_64i_simulator.Memory.Serves.{Always, memory-IsStorage}
use riscv_64i_simulator.Cache
use riscv_64i_simulator.Cache.View.{view, IsCoherent}
use riscv_64i_simulator.Cache.Serves.{cache-IsStorage}
use riscv_64i_simulator.Cache.Counts.{IsCounted, handle_request-IsCounted}
use riscv_64i_simulator.Cache.Revisit.{handle_request-revisit}
use riscv_64i_simulator.Main.Guards.{hierarchy_answers}
use riscv_64i_simulator.Main.{Levels, hierarchy_ops, new_hierarchy, empty_memory}
use riscv_64i_simulator.Main.Hierarchy.{
  shown, AllCoherent, hierarchy-Transparent, hierarchy-IsStorage, new_hierarchy-AllCoherent,
  new_hierarchy-shown,
}
use riscv_64i_simulator.Cache.{access_cost, Blk, Cache, new_blk, pick_way, set_config}
use riscv_64i_simulator.Cache.Replacement.{IsVictim, victim_lem}
use riscv_64i_simulator.Cache.Config.{IsRequested, set_config-IsCoherent}
use riscv_64i_simulator.Main.{config_of, no_stats, hit_cost}
use riscv_64i_simulator.Tests.{page_zero}

-- A write of three bytes, and a read of two of them.
abbrev requests : List (ℕ × Request)
requests = (16, write (1 ∷ 2 ∷ 3 ∷ [])) ∷ (17, read 2) ∷ []

byte_16 : byte_at page_zero 16 ≡ some 0
unfolding page_zero empty_memory alloc is_valid_addr byte_at find_page pde pte off
byte_16 = refl

byte_17 : byte_at page_zero 17 ≡ some 0
unfolding page_zero empty_memory alloc is_valid_addr byte_at find_page pde pte off
byte_17 = refl

byte_40 : byte_at page_zero 40 ≡ some 0
unfolding page_zero empty_memory alloc is_valid_addr byte_at find_page pde pte off
byte_40 = refl

requests-AllMapped : AllMapped (byte_at page_zero) requests
requests-AllMapped =
    next_request
      (record { some_bytes = omega arith; is_addr = omega arith; in_block = omega arith })
      (λ z. cc (byte_16, z))
      (next_request
        (record { some_bytes = omega arith; is_addr = omega arith; in_block = omega arith })
        (λ z. cc (byte_17, z)) no_request)

hierarchy-Transparent_example :
    Alike hierarchy_ops.handle shown AllCoherent Memory.handle_request byte_at Always
      (new_hierarchy (λ i j k. 0) page_zero)
      page_zero
      requests
hierarchy-Transparent_example =
    hierarchy-Transparent (λ i j k. 0) page_zero requests requests-AllMapped

hierarchy_answers_example :
    ((p : Levels × Reply) × (hierarchy_ops.handle (new_hierarchy (λ i j k. 0) page_zero) 60 (read 4)
        ≡ ok p))
    ↔ (Fits 60 4 × (shown (new_hierarchy (λ i j k. 0) page_zero) 60 ≢ none))
hierarchy_answers_example =
    hierarchy_answers (new_hierarchy (λ i j k. 0) page_zero) 60 (read 4)
      (new_hierarchy-AllCoherent (λ i j k. 0) page_zero) (omega arith) (omega arith)

-- A read through the three caches.
through : Reads hierarchy_ops.handle shown AllCoherent (new_hierarchy (λ i j k. 0) page_zero) 16 2
through =
    hierarchy-IsStorage.reads (new_hierarchy (λ i j k. 0) page_zero) 16 2
      (new_hierarchy-AllCoherent (λ i j k. 0) page_zero)
      (record { some_bytes = omega arith; is_addr = omega arith; in_block = omega arith })
      (λ z. cc (byte_16, new_hierarchy-shown (λ i j k. 0) page_zero 16, z))

handle_request-IsCounted_example :
    IsCounted (new_hierarchy (λ i j k. 0) page_zero) (through.after, through.reply)
unfolding hierarchy_ops
handle_request-IsCounted_example =
    handle_request-IsCounted (Cache.handle_request (Cache.handle_request Memory.handle_request))
      (new_hierarchy (λ i j k. 0) page_zero) 16 (read 2) (through.after, through.reply)
      through.returns

-- A second read of the same block.
again : Reads hierarchy_ops.handle shown AllCoherent through.after 40 1
again =
    hierarchy-IsStorage.reads through.after 40 1 through.good
      (record { some_bytes = omega arith; is_addr = omega arith; in_block = omega arith })
      (λ z. cc (
        byte_40,
        new_hierarchy-shown (λ i j k. 0) page_zero 40,
        through.unchanged 40 (omega arith),
        z,
      ))

handle_request-revisit_example :
    (again.reply.hit ≡ true)
    × (again.reply.time ≡ access_cost (new_hierarchy (λ i j k. 0) page_zero))
    × (again.after.lower ≡ through.after.lower)
unfolding hierarchy_ops
handle_request-revisit_example =
    handle_request-revisit (Cache.handle_request (Cache.handle_request Memory.handle_request))
      (new_hierarchy (λ i j k. 0) page_zero) 16 40 (read 2) (read 1) (through.after, through.reply)
      (again.after, again.reply) (new_hierarchy-AllCoherent (λ i j k. 0) page_zero).config_ok
      (omega arith) (omega arith) refl through.returns again.returns

cache-IsStorage_example :
    IsStorage
      (Cache.handle_request Memory.handle_request)
      (view byte_at)
      (IsCoherent byte_at Always)
cache-IsStorage_example = cache-IsStorage Memory.handle_request byte_at Always memory-IsStorage

-- Four valid blocks that were visited 3, 9, 9 and 1 accesses ago.
abbrev aged : ℕ → Blk
aged i = record (new_blk (λ k. 0)) { valid = true; visited_t = get_or (3 ∷ 9 ∷ 9 ∷ 1 ∷ []) i 0 }

victim_lem_example : IsVictim aged 0 4 3 (pick_way aged 0 4 0 3) × (pick_way aged 0 4 0 3 < 4)
victim_lem_example = victim_lem aged 4 (omega arith)

-- The first level before `SetConfig`.
abbrev unset : Cache Memory
unset = record {
  set = λ i j. new_blk (λ k. 0);
  config = config_of (32 * 1024);
  lower = page_zero;
  stats = no_stats;
  latency = hit_cost 1;
}

first_level : IsRequested (config_of (32 * 1024)) 6
unfolding config_of
first_level = record {
  few_sets = omega arith;
  set_count = refl;
  some_ways = omega arith;
  block_bytes = refl;
  writes_back = refl;
  allocates = refl;
}

set_config-IsCoherent_example :
    IsCoherent byte_at Always (set_config (λ i j k. 0) (config_of (32 * 1024)) unset)
set_config-IsCoherent_example =
    set_config-IsCoherent (λ i j k. 0) (config_of (32 * 1024)) unset byte_at Always 6 first_level tt

-- A memory where every page is there.
abbrev every_page : Memory
every_page = record empty_memory { memory = λ i. some (λ j. some (λ k. 0)) }

every_page_mapped : (a : ℕ) → byte_at every_page a ≢ none
unfolding byte_at find_page
every_page_mapped a e = cc

-- Eight bytes across a page boundary.
store-StoreLoad_example : StoreLoad every_page 4093 0x1122334455667788 8
store-StoreLoad_example =
    store-StoreLoad every_page 4093 0x1122334455667788 8 (omega arith) (omega arith)
      (λ j h. every_page_mapped (4093 + j))
