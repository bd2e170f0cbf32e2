-- ===== src/Pipeline/Agreement.antt =====
-- The counters of the cache that `SIM` keeps (simulation.cpp), against those of the storage below.
use riscv_64i_simulator.Common.{
  ℕ, zero, suc, ◌+◌, ◌≡◌, List, ok, >>=-eq-ok, Bool-cases, inl, inr, arith, ◌==◌, u32, get_or,
  add64, if◌then◌else◌,
}
use riscv_64i_simulator.Storage.{Request, Reply, read}
use riscv_64i_simulator.Isa.Inst.{is_bubble}
use riscv_64i_simulator.Isa.Execute.{execute}
use riscv_64i_simulator.Pipeline.State.{Sim, Ops, access}
use riscv_64i_simulator.Pipeline.Fetch.{fetch, fetched, select_pc}
use riscv_64i_simulator.Pipeline.Syscall.{print_string, syscall}
use riscv_64i_simulator.Pipeline.Execute.{ex, ex_done, ex_bubble, call_system}
use riscv_64i_simulator.Pipeline.Memory.{mem, mem_store, mem_load, mem_done}
use riscv_64i_simulator.Pipeline.WriteBack.{wb}
use riscv_64i_simulator.Pipeline.Cycle.{
  start_cycle, end_cycle, tick_all, jump_hazard, branch_hazard, load_hazard, simulate, cycle,
}
use riscv_64i_simulator.Pipeline.Frames.{id-frame}
use riscv_64i_simulator.Pipeline.Invariant.{wb-frame}
use riscv_64i_simulator.Pipeline.Steps.{cycle-Steps}

-- What every call of `l1.HandleRequest` keeps of the storage, the accesses, the hits and the time
-- counted, every cycle keeps.
module _ {S : Type 0} (l1 : Ops S) (Kept : S → ℕ → ℕ → ℕ → Type 0)
    (one_access : (x : S) (addr : ℕ) (req : Request) (p : S × Reply) (accesses hits time : ℕ)
      → l1.handle x addr req ≡ ok p
      → Kept x accesses hits time
      → Kept p.0 (accesses + 1) (hits + (if p.1.hit then 1 else 0)) (time + p.1.time)) where
  abbrev Keeps : Sim S → Type 0
  Keeps s = Kept s.storage s.counters.cache_cnt s.counters.cachehit_cnt s.counters.cache_cycle_cnt

  access-Keeps :
      (s : Sim S) (addr : ℕ) (req : Request) (r : Sim S × List ℕ)
      → Keeps s
      → access l1 s addr req ≡ ok r
      → Keeps r.0
  unfolding access
  access-Keeps s addr req r g h =
      let (d, e, f) = >>=-eq-ok (l1.handle s.storage (u32 addr) req) _ h in
      ground (
        arith,
        f,
        one_access s.storage (u32 addr) req d s.counters.cache_cnt s.counters.cachehit_cnt
            s.counters.cache_cycle_cnt e g,
      )

  mem_store-Keeps : (s t : Sim S) → Keeps s → mem_store l1 s ≡ ok t → Keeps t
  unfolding mem_store
  mem_store-Keeps s t g h = elim (Bool-cases s.mreg.cur.mem_write) [
    | inl e ↦
        let (r, a, b) = >>=-eq-ok (access l1 s s.mreg.cur.val_e _) _ (simp e at h) in
        ground (arith, access-Keeps s s.mreg.cur.val_e _ r g a, b)
    | inr e ↦ ground (arith, e, h)
  ]

  mem_load-Keeps : (s : Sim S) (r : Sim S × ℕ) → Keeps s → mem_load l1 s ≡ ok r → Keeps r.0
  unfolding mem_load
  mem_load-Keeps s r g h = elim (Bool-cases s.mreg.cur.mem_read) [
    | inl e ↦ elim (Bool-cases (l1.is_valid s.storage (u32 s.mreg.cur.val_e))) [
      | inl v ↦
          let (q, a, b) = >>=-eq-ok (access l1 s s.mreg.cur.val_e _) _ (simp (e, v) at h) in
          ground (arith, access-Keeps s s.mreg.cur.val_e _ q g a, b)
      | inr v ↦ ground (arith, e, v, h)
    ]
    | inr e ↦ ground (arith, e, h)
  ]

  mem-Keeps : (s t : Sim S) → Keeps s → mem l1 s ≡ ok t → Keeps t
  unfolding mem mem_done
  mem-Keeps s t g h = elim (Bool-cases (is_bubble s.mreg.cur.inst)) [
    | inl e ↦ ground (arith, h, e)
    | inr e ↦
        let (u, a, b) = >>=-eq-ok (mem_store l1 _) _ (simp e at h) in
        let (v, c, d) = >>=-eq-ok (mem_load l1 u) _ b in
        let x = mem_store-Keeps _ u (ground arith) a in ground (arith, d, mem_load-Keeps u v x c)
  ]

  print_string-Keeps :
      (fuel : ℕ) (s t : Sim S) (addr : ℕ) → Keeps s → print_string l1 fuel s addr ≡ ok t → Keeps t
  unfolding print_string
  print_string-Keeps zero s t addr g h = cc
  print_string-Keeps (suc fuel) s t addr g h =
      let (r, a, b) = >>=-eq-ok (access l1 s addr (read 1)) _ h in
      let x = access-Keeps s addr (read 1) r g a in
      elim (Bool-cases (get_or r.1 0 0 == 0)) [
        | inl e ↦ let b' = (simp e at b) in ground (arith, x, b')
        | inr e ↦ print_string-Keeps fuel _ t (add64 addr 1) x (simp e at b)
      ]

  call_system-Keeps : (fuel : ℕ) (s t : Sim S) → Keeps s → call_system l1 fuel s ≡ ok t → Keeps t
  unfolding call_system syscall
  call_system-Keeps fuel s t g h = ground (arith, print_string-Keeps fuel s t s.ereg.cur.val_a g, h)

  ex-Keeps : (fuel : ℕ) (s t : Sim S) → Keeps s → ex l1 fuel s ≡ ok t → Keeps t
  unfolding ex ex_done ex_bubble
  ex-Keeps fuel s t g h = elim (Bool-cases (is_bubble s.ereg.cur.inst)) [
    | inl e ↦ ground (arith, h, e)
    | inr e ↦
        let (r, a, b) = >>=-eq-ok (execute s.ereg.cur.inst _ _ _ _) _ (simp e at h) in
        let (u, c, d) = >>=-eq-ok (call_system l1 fuel s) _ b in
        ground (arith, d, call_system-Keeps fuel s u g c)
  ]

  fetch-Keeps : (s t : Sim S) → Keeps s → fetch l1 s ≡ ok t → Keeps t
  unfolding fetch fetched
  fetch-Keeps s t g h =
      let (r, a, b) = >>=-eq-ok (access l1 s (select_pc s) (read 4)) _ h in
      ground (arith, access-Keeps s (select_pc s) (read 4) r g a, b)

  end_cycle-Keeps : (s : Sim S) → Keeps s → Keeps (end_cycle s)
  unfolding end_cycle tick_all jump_hazard branch_hazard load_hazard
  end_cycle-Keeps s g = ground arith

  begin-Keeps : (s : Sim S) → Keeps s → Keeps (wb (start_cycle s))
  unfolding start_cycle
  begin-Keeps s g = ground (arith, wb-frame (start_cycle s))

  cycle-Keeps : (fuel : ℕ) (s t : Sim S) → Keeps s → cycle l1 fuel s ≡ ok t → Keeps t
  cycle-Keeps fuel s t g h =
      let st = cycle-Steps l1 fuel s t h in
      let u = mem-Keeps (wb (start_cycle s)) st.after_mem (begin-Keeps s g) st.mem_step in
      let v = ex-Keeps fuel st.after_mem st.after_ex u st.ex_step in
      let w : Keeps st.after_id = ground (arith, v, id-frame st.after_ex st.after_id st.id_step) in
      let x = fetch-Keeps st.after_id st.after_if w st.if_step in
      ground (arith, st.end_step, end_cycle-Keeps st.after_if x)

  -- After any number of cycles.
  pub simulate-Keeps :
      (fuel n : ℕ) (s t : Sim S)
      → Kept s.storage s.counters.cache_cnt s.counters.cachehit_cnt s.counters.cache_cycle_cnt
      → simulate l1 fuel n s ≡ ok t
      → Kept t.storage t.counters.cache_cnt t.counters.cachehit_cnt t.counters.cache_cycle_cnt
  unfolding simulate
  simulate-Keeps fuel zero s t g h = ground arith
  simulate-Keeps fuel (suc n) s t g h =
      let (u, a, b) = >>=-eq-ok (cycle l1 fuel s) _ h in
      simulate-Keeps fuel n u t (cycle-Keeps fuel s u g a) b
