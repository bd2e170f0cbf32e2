-- ===== src/Machine/Cycle.antt =====
-- One cycle of the pipeline (`SIM::simulate` in simulation.cpp), on what the instructions in WB, MEM
-- and EX come to.
use riscv_64i_simulator.Common.{ℕ, ◌≡◌, Option, ok, >>=-eq-ok, arith, fun_ext, update}
use riscv_64i_simulator.Storage.{read}
use riscv_64i_simulator.Storage.Laws.{IsStorage}
use riscv_64i_simulator.Storage.Guards.{IsGuarded, IsBounded}
use riscv_64i_simulator.Pipeline.State.{Sim, Ops, access}
use riscv_64i_simulator.Pipeline.Fetch.{fetch, fetched, select_pc}
use riscv_64i_simulator.Pipeline.Memory.{mem}
use riscv_64i_simulator.Pipeline.WriteBack.{wb}
use riscv_64i_simulator.Pipeline.Cycle.{
  start_cycle, end_cycle, tick_all, jump_hazard, branch_hazard, load_hazard,
}
use riscv_64i_simulator.Pipeline.Forwarding.{commit}
use riscv_64i_simulator.Pipeline.Frames.{mem-frame, id-frame, fetch-frame}
use riscv_64i_simulator.Pipeline.Hazards.{end_cycle_lem}
use riscv_64i_simulator.Pipeline.Invariant.{IsInvariant, ex-ExFrame, wb-frame}
use riscv_64i_simulator.Pipeline.Steps.{Steps, steps-StepsFrame}
use riscv_64i_simulator.Machine.{word_at, complete, enter}
use riscv_64i_simulator.Machine.Abs.{retire, retired, drained}
use riscv_64i_simulator.Machine.Accesses.{bytes, access-flat_read}
use riscv_64i_simulator.Machine.Stages.{HasLength, core_at, mem-complete}
use riscv_64i_simulator.Machine.Calls.{ex-enter}
use riscv_64i_simulator.Machine.Signals.{ex-ExSignals, mem-retire}

update-zero : (reg : ℕ → ℕ) → reg 0 ≡ 0 → update reg 0 0 ≡ reg
update-zero reg h = fun_ext (λ j. ground (arith, h))

module _ {S : Type 0} where
  wb-retire : (s : Sim S) → (wb s).reg ≡ retire s.wreg.cur s.reg
  unfolding wb retire commit
  wb-retire s = ground arith

  -- The end of a cycle leaves storage and output, and clears register 0.
  pub record EndFrame (x : Sim S) : Type 0 where
    pub storage : (end_cycle x).storage ≡ x.storage
    pub printed : (end_cycle x).printed ≡ x.printed
    pub reg : (end_cycle x).reg ≡ update x.reg 0 0
    pub strat : (end_cycle x).branch_strat ≡ x.branch_strat

  pub end_cycle-EndFrame : (x : Sim S) → EndFrame x
  unfolding end_cycle tick_all jump_hazard branch_hazard load_hazard
  end_cycle-EndFrame x = ground arith

module _ {S : Type 0} (l1 : Ops S) (view : S → ℕ → Option ℕ) (IsGood : S → Type 0)
    (st : IsStorage l1.handle view IsGood) (gd : IsGuarded l1.handle view IsGood)
    (bd : IsBounded l1.handle view IsGood) where
  -- The fetch gives the word that the storage shows, and leaves what it shows.
  pub fetch-bytes :
      (s t : Sim S)
      → IsGood s.storage
      → fetch l1 s ≡ ok t
      → (bytes view t ≡ bytes view s)
        × IsGood t.storage
        × (word_at (bytes view s) (select_pc s) ≡ ok t.dreg.upd.inst)
  unfolding fetch fetched word_at
  fetch-bytes s t g h =
      let (r, a, b) = >>=-eq-ok (access l1 s (select_pc s) (read 4)) _ h in
      let (w, x, y) =
        access-flat_read l1 view IsGood st gd bd s (select_pc s) g 4 r (omega arith) a in
      ground (arith, w, x, y, b)

  -- WB and MEM run the instructions in them to their end.
  pub mem_step-complete :
      (s m : Sim S)
      → IsGood s.storage
      → HasLength s.mreg.cur
      → mem l1 (wb (start_cycle s)) ≡ ok m
      → (complete s.mreg.cur (retired view s) ≡ ok (core_at view (retire m.wreg.upd m.reg) m))
        × IsGood m.storage
  unfolding start_cycle
  mem_step-complete s m g n h =
      let f = wb-frame (start_cycle s) in
      let r = wb-retire (start_cycle s) in
      let same_mreg : (wb (start_cycle s)).mreg.cur ≡ s.mreg.cur = cc in
      let same_core : core_at view (wb (start_cycle s)).reg (wb (start_cycle s)) ≡ retired view s =
        cc in
      let good : IsGood (wb (start_cycle s)).storage = rw f g in
      rw (same_mreg, same_core) at
        (mem-complete l1 view IsGood st gd bd (wb (start_cycle s)) m good (rw same_mreg n) h)

  module _ (fuel : ℕ) (s t : Sim S) (k : Steps l1 fuel s t) (v : IsInvariant s)
      (g : IsGood s.storage) (n : HasLength s.mreg.cur) where
    -- The register file when MEM has run.
    abbrev reg_after : ℕ → ℕ
    reg_after = retire k.after_mem.wreg.upd k.after_mem.reg

    completes :
        (complete s.mreg.cur (retired view s) ≡ ok (core_at view reg_after k.after_mem))
        × IsGood k.after_mem.storage
    completes = mem_step-complete s k.after_mem g n k.mem_step

    -- EX starts the instruction in it.
    enters :
        (enter fuel s.ereg.cur (core_at view reg_after k.after_mem)
          ≡ ok (k.after_ex.mreg.upd, core_at view reg_after k.after_ex))
        × IsGood k.after_ex.storage
    unfolding start_cycle
    enters =
        let f = wb-frame (start_cycle s) in
        let m = mem-frame l1 _ k.after_mem k.mem_step in
        let same : k.after_mem.ereg.cur ≡ s.ereg.cur = cc in
        rw same at (
          ex-enter l1 view IsGood st gd bd reg_after fuel k.after_mem k.after_ex completes.1
            k.ex_step)

    -- The word that IF fetches is the one that the storage shows.
    pub fetched_word :
        word_at (bytes view k.after_id) (select_pc k.after_id) ≡ ok k.after_if.dreg.upd.inst
    fetched_word =
        let i = id-frame k.after_ex k.after_id k.id_step in
        let good : IsGood k.after_id.storage = rw i enters.1 in
        (fetch-bytes k.after_id k.after_if good k.if_step).2

    -- What the next cycle starts with.
    pub retires :
        (retired view t ≡ core_at view reg_after k.after_ex)
        × (t.mreg.cur ≡ k.after_ex.mreg.upd)
        × IsGood t.storage
    retires =
        let i = id-frame k.after_ex k.after_id k.id_step in
        let good : IsGood k.after_id.storage = rw i enters.1 in
        let (b, y, w) = fetch-bytes k.after_id k.after_if good k.if_step in
        let q = fetch-frame l1 k.after_id k.after_if k.if_step in
        let x = ex-ExFrame l1 fuel k.after_mem k.after_ex k.ex_step in
        let e = end_cycle-EndFrame k.after_if in
        let f = steps-StepsFrame l1 fuel s t k v in
        let l = end_cycle_lem k.after_if f.settled in
        let z = update-zero k.after_if.reg f.zero_reg in
        ground (arith, k.end_step, e, l, z, b, y, i, q, x.frame)

    -- The register file that the next cycle starts with, once WB has written.
    pub retired-reg :
        (retired view t).reg
        ≡ commit k.after_ex.m_reg_write k.after_ex.mreg.cur.dest_reg k.after_ex.m_val_m
            k.after_ex.reg
    unfolding start_cycle
    retired-reg =
        let x = ex-ExFrame l1 fuel k.after_mem k.after_ex k.ex_step in
        let w = wb-frame (start_cycle s) in
        let m = mem-frame l1 _ k.after_mem k.mem_step in
        let e = mem-retire l1 (wb (start_cycle s)) k.after_mem k.after_mem.reg k.mem_step in
        ground (arith, retires.0, e, w, m, x.frame)

    -- The instructions in WB, MEM and EX leave what the next cycle starts with when the one in MEM
    -- has been run to its end.
    pub drained_lem :
        (drained view fuel s ≡ ok (t.mreg.cur, retired view t))
        × IsGood t.storage
        × HasLength t.mreg.cur
    unfolding drained
    drained_lem =
        let (r, m, y) = retires in
        let (a, b) = completes in
        let (c, d) = enters in
        let x = ex-ExSignals l1 fuel k.after_mem k.after_ex k.ex_step in
        (rw (a, r, m) c, y, rw m x.lengths)
