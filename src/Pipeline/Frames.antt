-- ===== src/Pipeline/Frames.antt =====
-- What the stages leave alone.
use riscv_64i_simulator.Common.{
  ℕ, ◌≡◌, true, List, ok, >>=-eq-ok, arith, ◌==◌, Bool-cases, inl, inr, zero, suc, u32, get_or,
  add64,
}
use riscv_64i_simulator.Storage.{Request, read}
use riscv_64i_simulator.Isa.Inst.{is_bubble}
use riscv_64i_simulator.Pipeline.State.{Sim, Ops, access}
use riscv_64i_simulator.Pipeline.Fetch.{fetch, fetched}
use riscv_64i_simulator.Pipeline.Decode.{id}
use riscv_64i_simulator.Pipeline.Syscall.{print_string, syscall}
use riscv_64i_simulator.Pipeline.Execute.{call_system}
use riscv_64i_simulator.Pipeline.Memory.{mem, mem_store, mem_load, mem_done}

module _ {S : Type 0} (l1 : Ops S) where
  -- An access changes the storage and the counters, and nothing else.
  pub access-frame :
      (s : Sim S) (addr : ℕ) (req : Request) (r : Sim S × List ℕ)
      → access l1 s addr req ≡ ok r
      → r.0 ≡ record s { storage = r.0.storage; counters = r.0.counters }
  unfolding access
  access-frame s addr req r h =
      let (d, e, f) = >>=-eq-ok (l1.handle s.storage (u32 addr) req) _ h in ground (arith, f)

  pub mem_store-frame :
      (s t : Sim S)
      → mem_store l1 s ≡ ok t
      → t ≡ record s { storage = t.storage; counters = t.counters }
  unfolding mem_store
  mem_store-frame s t h = elim (Bool-cases s.mreg.cur.mem_write) [
    | inl e ↦
        let (r, a, b) = >>=-eq-ok (access l1 s s.mreg.cur.val_e _) _ (simp e at h) in
        ground (arith, access-frame s s.mreg.cur.val_e _ r a)
    | inr e ↦ ground arith
  ]

  pub mem_load-frame :
      (s : Sim S) (t : Sim S × ℕ)
      → mem_load l1 s ≡ ok t
      → t.0 ≡ record s { storage = t.0.storage; counters = t.0.counters }
  unfolding mem_load
  mem_load-frame s t h = elim (Bool-cases s.mreg.cur.mem_read) [
    | inl e ↦ elim (Bool-cases (l1.is_valid s.storage (u32 s.mreg.cur.val_e))) [
      | inl v ↦
          let (r, a, b) = >>=-eq-ok (access l1 s s.mreg.cur.val_e _) _ (simp (e, v) at h) in
          ground (arith, access-frame s s.mreg.cur.val_e _ r a)
      | inr v ↦ ground arith
    ]
    | inr e ↦ ground arith
  ]

  -- MEM sets its two signals and prepares the W register.
  pub mem-frame :
      (s t : Sim S)
      → mem l1 s ≡ ok t
      → (t ≡ record s {
        storage = t.storage;
        counters = t.counters;
        m_reg_write = t.m_reg_write;
        m_val_m = t.m_val_m;
        wreg = record (s.wreg) { upd = t.wreg.upd };
      })
        × (t.m_reg_write ≡ true → s.mreg.cur.reg_write ≡ true)
  unfolding mem mem_done
  mem-frame s t h = elim (Bool-cases (is_bubble s.mreg.cur.inst)) [
    | inl e ↦ ground arith
    | inr e ↦
        let (u, a, b) = >>=-eq-ok (mem_store l1 _) _ (simp e at h) in
        let (v, c, d) = >>=-eq-ok (mem_load l1 u) _ b in
        ground (arith, mem_store-frame _ u a, mem_load-frame u v c)
  ]

  pub print_string-frame :
      (fuel : ℕ) (s t : Sim S) (addr : ℕ)
      → print_string l1 fuel s addr ≡ ok t
      → t ≡ record s { storage = t.storage; counters = t.counters; printed = t.printed }
  unfolding print_string
  print_string-frame zero s t addr h = cc
  print_string-frame (suc fuel) s t addr h =
      let (r, a, b) = >>=-eq-ok (access l1 s addr (read 1)) _ h in
      elim (Bool-cases (get_or r.1 0 0 == 0)) [
        | inl e ↦ let b' = (simp e at b) in ground (arith, access-frame s addr (read 1) r a)
        | inr e ↦
            let b' = (simp e at b) in
            ground (
              arith,
              access-frame s addr (read 1) r a,
              print_string-frame fuel _ t (add64 addr 1) b',
            )
      ]

  syscall-frame :
      (fuel : ℕ) (s t : Sim S) (a b : ℕ)
      → syscall l1 fuel s a b ≡ ok t
      → t ≡ record s { storage = t.storage; counters = t.counters; printed = t.printed }
  unfolding syscall
  syscall-frame fuel s t a b h = ground (arith, print_string-frame fuel s t a)

  pub call_system-frame :
      (fuel : ℕ) (s t : Sim S)
      → call_system l1 fuel s ≡ ok t
      → t ≡ record s { storage = t.storage; counters = t.counters; printed = t.printed }
  unfolding call_system
  call_system-frame fuel s t h =
      ground (arith, syscall-frame fuel s t s.ereg.cur.val_a s.ereg.cur.val_b)

  -- IF prepares the F and D registers.
  pub fetch-frame :
      (s t : Sim S)
      → fetch l1 s ≡ ok t
      → t ≡ record s {
        storage = t.storage;
        counters = t.counters;
        freg = record (s.freg) { upd = t.freg.upd };
        dreg = record (s.dreg) { upd = t.dreg.upd };
      }
  unfolding fetch fetched
  fetch-frame s t h =
      let (r, a, b) = >>=-eq-ok (access l1 s _ (read 4)) _ h in
      ground (arith, access-frame s _ (read 4) r a, b)

module _ {S : Type 0} where
  -- ID sets its two register numbers and prepares the E register.
  pub id-frame :
      (s t : Sim S)
      → id s ≡ ok t
      → t ≡ record s {
        d_reg1 = t.d_reg1;
        d_reg2 = t.d_reg2;
        ereg = record (s.ereg) { upd = t.ereg.upd };
      }
  unfolding id
  id-frame s t h = ground arith
