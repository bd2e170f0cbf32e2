-- ===== src/Pipeline/CacheCounts.antt =====
-- The counting that follows each call of `l1.HandleRequest` (simulation.cpp).
use riscv_64i_simulator.Common.{
  ℕ, zero, suc, ◌≤◌, ◌≡◌, List, ok, >>=-eq-ok, Bool-cases, inl, inr, arith, ◌==◌, u32, get_or,
  add64, refl,
}
use riscv_64i_simulator.Storage.{Request, read}
use riscv_64i_simulator.Pipeline.State.{Sim, Ops, Counters, access}
use riscv_64i_simulator.Pipeline.Fetch.{fetch, fetched, select_pc}
use riscv_64i_simulator.Pipeline.Syscall.{print_string, syscall}
use riscv_64i_simulator.Pipeline.Execute.{call_system}
use riscv_64i_simulator.Pipeline.Memory.{mem_store, mem_load}

-- Accesses to the storage change the counters of the cache alone, and count each hit as an access.
pub record CacheOnly (c d : Counters) : Type 0 where
  pub same : d ≡ record c {
    cachehit_cnt = d.cachehit_cnt;
    cache_cnt = d.cache_cnt;
    cache_cycle_cnt = d.cache_cycle_cnt;
  }
  pub hits : c.cachehit_cnt ≤ c.cache_cnt → d.cachehit_cnt ≤ d.cache_cnt

pub CacheOnly-refl : (c : Counters) → CacheOnly c c
CacheOnly-refl c = record { same = refl; hits = λ h. h }

pub CacheOnly-trans : (c d e : Counters) → CacheOnly c d → CacheOnly d e → CacheOnly c e
CacheOnly-trans c d e x y = record { same = cc (x.same, y.same); hits = λ h. y.hits (x.hits h) }

module _ {S : Type 0} (l1 : Ops S) where
  access-CacheOnly :
      (s : Sim S) (addr : ℕ) (req : Request) (r : Sim S × List ℕ)
      → access l1 s addr req ≡ ok r
      → CacheOnly s.counters r.0.counters
  unfolding access
  access-CacheOnly s addr req r h =
      let (d, e, f) = >>=-eq-ok (l1.handle s.storage (u32 addr) req) _ h in ground (arith, f)

  pub mem_store-CacheOnly : (s t : Sim S) → mem_store l1 s ≡ ok t → CacheOnly s.counters t.counters
  unfolding mem_store
  mem_store-CacheOnly s t h = elim (Bool-cases s.mreg.cur.mem_write) [
    | inl e ↦
        let (r, a, b) = >>=-eq-ok (access l1 s s.mreg.cur.val_e _) _ (simp e at h) in
        ground (arith, access-CacheOnly s s.mreg.cur.val_e _ r a, b)
    | inr e ↦ ground (arith, e, h, CacheOnly-refl s.counters)
  ]

  pub mem_load-CacheOnly :
      (s : Sim S) (r : Sim S × ℕ) → mem_load l1 s ≡ ok r → CacheOnly s.counters r.0.counters
  unfolding mem_load
  mem_load-CacheOnly s r h = elim (Bool-cases s.mreg.cur.mem_read) [
    | inl e ↦ elim (Bool-cases (l1.is_valid s.storage (u32 s.mreg.cur.val_e))) [
      | inl v ↦
          let (q, a, b) = >>=-eq-ok (access l1 s s.mreg.cur.val_e _) _ (simp (e, v) at h) in
          ground (arith, access-CacheOnly s s.mreg.cur.val_e _ q a, b)
      | inr v ↦ ground (arith, e, v, h)
    ]
    | inr e ↦ ground (arith, e, h, CacheOnly-refl s.counters)
  ]

  pub fetch-CacheOnly : (s t : Sim S) → fetch l1 s ≡ ok t → CacheOnly s.counters t.counters
  unfolding fetch fetched
  fetch-CacheOnly s t h =
      let (r, a, b) = >>=-eq-ok (access l1 s (select_pc s) (read 4)) _ h in
      ground (arith, access-CacheOnly s (select_pc s) (read 4) r a, b)

  print_string-CacheOnly :
      (fuel : ℕ) (s t : Sim S) (addr : ℕ)
      → print_string l1 fuel s addr ≡ ok t
      → CacheOnly s.counters t.counters
  unfolding print_string
  print_string-CacheOnly zero s t addr h = cc
  print_string-CacheOnly (suc fuel) s t addr h =
      let (r, a, b) = >>=-eq-ok (access l1 s addr (read 1)) _ h in
      let x = access-CacheOnly s addr (read 1) r a in
      elim (Bool-cases (get_or r.1 0 0 == 0)) [
        | inl e ↦ let b' = (simp e at b) in ground (arith, x, b')
        | inr e ↦
            let y = print_string-CacheOnly fuel _ t (add64 addr 1) (simp e at b) in
            CacheOnly-trans s.counters r.0.counters t.counters x y
      ]

  pub call_system-CacheOnly :
      (fuel : ℕ) (s t : Sim S) → call_system l1 fuel s ≡ ok t → CacheOnly s.counters t.counters
  unfolding call_system syscall
  call_system-CacheOnly fuel s t h =
      ground (arith, print_string-CacheOnly fuel s t s.ereg.cur.val_a, CacheOnly-refl s.counters, h)
