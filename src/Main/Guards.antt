-- ===== src/Main/Guards.antt =====
-- Which requests `l1.HandleRequest` answers, over the hierarchy that `main` (simulation.cpp) builds.
use riscv_64i_simulator.Common.{ℕ, ◌^◌, ◌<◌, ◌≡◌, ◌≢◌, ◌↔◌, none, ok}
use riscv_64i_simulator.Storage.{Request, Reply, read, write, bytes_of}
use riscv_64i_simulator.Storage.Laws.{Fits}
use riscv_64i_simulator.Storage.Guards.{IsGuarded, IsBounded}
use riscv_64i_simulator.Memory
use riscv_64i_simulator.Memory.Paging.{byte_at}
use riscv_64i_simulator.Memory.Serves.{Always, memory-IsStorage}
use riscv_64i_simulator.Memory.Guards.{memory-IsGuarded}
use riscv_64i_simulator.Cache
use riscv_64i_simulator.Cache.Guards.{cache-IsGuarded, cache-IsBounded}
use riscv_64i_simulator.Main.{Levels, hierarchy_ops}
use riscv_64i_simulator.Main.Hierarchy.{
  llc_view, LlcGood, l2_view, L2Good, shown, AllCoherent, llc-IsStorage, l2-IsStorage,
  hierarchy-IsStorage,
}

pub hierarchy-IsGuarded : IsGuarded hierarchy_ops.handle shown AllCoherent
unfolding hierarchy_ops
hierarchy-IsGuarded =
    cache-IsGuarded (Cache.handle_request (Cache.handle_request Memory.handle_request)) l2_view
      L2Good l2-IsStorage
      (cache-IsGuarded (Cache.handle_request Memory.handle_request) llc_view LlcGood llc-IsStorage
        (cache-IsGuarded Memory.handle_request byte_at Always memory-IsStorage memory-IsGuarded))

pub hierarchy-IsBounded : IsBounded hierarchy_ops.handle shown AllCoherent
unfolding hierarchy_ops
hierarchy-IsBounded =
    cache-IsBounded (Cache.handle_request (Cache.handle_request Memory.handle_request)) l2_view
      L2Good l2-IsStorage
      (cache-IsGuarded (Cache.handle_request Memory.handle_request) llc_view LlcGood llc-IsStorage
        (cache-IsGuarded Memory.handle_request byte_at Always memory-IsStorage memory-IsGuarded))

-- For the three coherent caches over the memory, a 32-bit address and at least one byte:
-- `l1.HandleRequest` answers a read or write just where the request stays within a block of 64
-- bytes and its address is one that the hierarchy shows; at any other it does not succeed.
pub hierarchy_answers :
    (s : Levels) (a : ℕ) (req : Request)
    → AllCoherent s
    → a < 2 ^ 32
    → 0 < bytes_of req
    → ((p : Levels × Reply) × (hierarchy_ops.handle s a req ≡ ok p))
      ↔ (Fits a (bytes_of req) × (shown s a ≢ none))
hierarchy_answers s a req g h n = (to, from req)
  where
    to :
        (p : Levels × Reply) × (hierarchy_ops.handle s a req ≡ ok p)
        → Fits a (bytes_of req) × (shown s a ≢ none)
    to q = (
      record { some_bytes = n; is_addr = h; in_block = hierarchy-IsBounded s a req q.0 g h q.1 },
      hierarchy-IsGuarded s a req q.0 g h n q.1,
    )

    from :
        (r : Request)
        → Fits a (bytes_of r) × (shown s a ≢ none)
        → (p : Levels × Reply) × (hierarchy_ops.handle s a r ≡ ok p)
    from (read k) q =
        let x = hierarchy-IsStorage.reads s a k g q.0 q.1 in ((x.after, x.reply), x.returns)
    from (write content) q =
        let x = hierarchy-IsStorage.writes s a content g q.0 q.1 in ((x.after, x.reply), x.returns)
