-- ===== src/Machine/Stages.antt =====
-- `SIM::MEM` and `SIM::EX` (simulation.cpp) as the second and the first half of an instruction of
-- the machine.
use riscv_64i_simulator.Common.{
  ℕ, ◌+◌, ◌<◌, ◌≡◌, true, Option, ok, >>=-eq-ok, Bool-cases, inl, inr, arith, u32,
}
use riscv_64i_simulator.Storage.Laws.{IsStorage}
use riscv_64i_simulator.Storage.Guards.{IsGuarded, IsBounded}
use riscv_64i_simulator.Isa.Inst.{is_bubble}
use riscv_64i_simulator.Pipeline.Regs.{MRegion}
use riscv_64i_simulator.Pipeline.State.{Sim, Ops, access, le_bytes}
use riscv_64i_simulator.Pipeline.Memory.{mem, mem_store, mem_load, mem_done}
use riscv_64i_simulator.Pipeline.Accesses.{length-le_bytes}
use riscv_64i_simulator.Pipeline.Frames.{mem_store-frame, mem_load-frame}
use riscv_64i_simulator.Machine.{Core, flat_store, flat_load, complete}
use riscv_64i_simulator.Machine.Abs.{retire}
use riscv_64i_simulator.Machine.Accesses.{bytes, access-flat_read, access-flat_write}

-- An access to the storage is of at least one byte.
pub record HasLength (m : MRegion) : Type 0 where
  pub reads : m.mem_read ≡ true → 0 < m.mem_len
  pub writes : m.mem_write ≡ true → 0 < m.mem_len

-- The state with another register file.
abbrev pub core_at : {S : Type 0} → (S → ℕ → Option ℕ) → (ℕ → ℕ) → Sim S → Core
core_at view reg s = record { reg = reg; mem = bytes view s; printed = s.printed }

module _ {S : Type 0} (l1 : Ops S) (view : S → ℕ → Option ℕ) (IsGood : S → Type 0)
    (st : IsStorage l1.handle view IsGood) (gd : IsGuarded l1.handle view IsGood)
    (bd : IsBounded l1.handle view IsGood) where
  mem_store-flat_store :
      (s t : Sim S)
      → IsGood s.storage
      → HasLength s.mreg.cur
      → mem_store l1 s ≡ ok t
      → (flat_store s.mreg.cur (bytes view s) ≡ ok (bytes view t)) × IsGood t.storage
  unfolding mem_store flat_store
  mem_store-flat_store s t g n h = elim (Bool-cases s.mreg.cur.mem_write) [
    | inl e ↦
        let (r, a, b) = >>=-eq-ok (access l1 s s.mreg.cur.val_e _) _ (simp e at h) in
        let long = n.writes e in
        let count = length-le_bytes s.mreg.cur.mem_len s.mreg.cur.val_b in
        let (w, k) =
          access-flat_write l1 view IsGood st gd bd s s.mreg.cur.val_e g
            (le_bytes s.mreg.cur.mem_len s.mreg.cur.val_b) r (omega arith) a in
        ground (arith, w, k, b)
    | inr e ↦ ground (arith, g, h)
  ]

  mem_load-flat_load :
      (s : Sim S) (r : Sim S × ℕ)
      → IsGood s.storage
      → HasLength s.mreg.cur
      → mem_load l1 s ≡ ok r
      → (flat_load s.mreg.cur (bytes view s) ≡ ok r.1)
        × (bytes view r.0 ≡ bytes view s)
        × IsGood r.0.storage
  unfolding mem_load flat_load
  mem_load-flat_load s r g n h = elim (Bool-cases s.mreg.cur.mem_read) [
    | inl e ↦ elim (Bool-cases (l1.is_valid s.storage (u32 s.mreg.cur.val_e))) [
      | inl v ↦
          let (q, a, b) = >>=-eq-ok (access l1 s s.mreg.cur.val_e _) _ (simp (e, v) at h) in
          let (w, x, y) =
            access-flat_read l1 view IsGood st gd bd s s.mreg.cur.val_e g s.mreg.cur.mem_len q
              (n.reads e) a in
          ground (arith, w, x, y, b)
      | inr v ↦ ground (arith, h)
    ]
    | inr e ↦ ground (arith, g, h)
  ]

  -- MEM of the instruction in its register runs it to its end: what it has to write stands in the
  -- W register, and memory has changed as the flat memory has.
  pub mem-complete :
      (s t : Sim S)
      → IsGood s.storage
      → HasLength s.mreg.cur
      → mem l1 s ≡ ok t
      → (complete s.mreg.cur (core_at view s.reg s) ≡ ok (core_at view (retire t.wreg.upd t.reg) t))
        × IsGood t.storage
  unfolding mem mem_done complete retire is_bubble
  mem-complete s t g n h = elim (Bool-cases (is_bubble s.mreg.cur.inst)) [
    | inl e ↦ ground (arith, g, h, e)
    | inr e ↦
        let counted : Sim S = record s {
          counters = record (s.counters) { inst_cnt = s.counters.inst_cnt + 1 };
        } in
        let (u, a, b) = >>=-eq-ok (mem_store l1 counted) _ (simp e at h) in
        let (v, c, d) = >>=-eq-ok (mem_load l1 u) _ b in
        let (x, k) = mem_store-flat_store counted u g n a in
        let f = mem_store-frame l1 counted u a in
        let same : u.mreg.cur ≡ s.mreg.cur = cc in
        let (y, z, l) = mem_load-flat_load u v k (rw same n) c in
        let f' = mem_load-frame l1 u v c in ground (arith, y, z, l, f, f', x, k, d, e)
  ]
