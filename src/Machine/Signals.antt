-- ===== src/Machine/Signals.antt =====
-- The signals that `SIM::MEM` and `SIM::EX` (simulation.cpp) leave for the forwarding in `SIM::ID`,
-- against what the instructions in them write when they run to their end.
use riscv_64i_simulator.Common.{
  ℕ, ◌≡◌, ◌≢◌, ◌⊎◌, true, false, ok, >>=-eq-ok, Bool-cases, inl, inr, arith, refl,
}
use riscv_64i_simulator.Isa.Inst.{is_bubble, is_jump, is_load}
use riscv_64i_simulator.Isa.Execute.{execute}
use riscv_64i_simulator.Isa.Accesses.{execute-Asks}
use riscv_64i_simulator.Pipeline.Regs.{MRegion, m_region, w_region}
use riscv_64i_simulator.Pipeline.State.{Sim, Ops}
use riscv_64i_simulator.Pipeline.Memory.{mem, mem_store, mem_load, mem_done}
use riscv_64i_simulator.Pipeline.Execute.{ex, ex_done, ex_bubble, call_system}
use riscv_64i_simulator.Pipeline.Cycle.{start_cycle}
use riscv_64i_simulator.Pipeline.Invariant.{IsInvariant, ex-ExFrame, wb-frame}
use riscv_64i_simulator.Pipeline.Steps.{Steps}
use riscv_64i_simulator.Pipeline.Forwarding.{commit, in_flight, DestsInRange}
use riscv_64i_simulator.Pipeline.Frames.{
  mem-frame, mem_store-frame, mem_load-frame, call_system-frame,
}
use riscv_64i_simulator.Machine.{Core, complete, flat_store, flat_load}
use riscv_64i_simulator.Machine.Abs.{retire}
use riscv_64i_simulator.Machine.Stages.{HasLength}

-- An instruction that does not load leaves in every register what EX has computed, and one that
-- loads does so in every register but its own, where that is not register 0.
complete-commit :
    (m : MRegion) (c c' : Core) (r : ℕ)
    → complete m c ≡ ok c'
    → is_bubble m.inst ≡ false
    → (m.mem_read ≡ false) ⊎ ((r ≢ m.dest_reg) ⊎ (m.dest_reg ≡ 0))
    → c'.reg r ≡ commit m.reg_write m.dest_reg m.val_e c.reg r
unfolding complete flat_load commit
complete-commit m c c' r h b o =
    let (bytes, p, q) = >>=-eq-ok (flat_store m c.mem) _ (simp b at h) in
    let (v, i, j) = >>=-eq-ok (flat_load m bytes) _ q in ground (arith, i, j, o)

pub complete-bubble : (m : MRegion) (c : Core) → is_bubble m.inst ≡ true → complete m c ≡ ok c
unfolding complete
complete-bubble m c b = rw b refl

commit-no_write : (dest v : ℕ) (reg : ℕ → ℕ) → commit false dest v reg ≡ reg
unfolding commit
commit-no_write dest v reg = refl

-- What EX leaves of its instruction.
pub record ExSignals {S : Type 0} (s t : Sim S) : Type 0 where
  pub lengths : HasLength t.mreg.upd
  pub loads : t.mreg.upd.mem_read ≡ true → is_load s.ereg.cur.inst ≡ true
  pub writes : t.e_reg_write ≡ t.mreg.upd.reg_write
  pub value : t.e_val_e ≡ t.mreg.upd.val_e
  pub dest : is_bubble t.mreg.upd.inst ≡ false → t.mreg.upd.dest_reg ≡ s.ereg.cur.destreg
  pub no_write : is_bubble t.mreg.upd.inst ≡ true → t.e_reg_write ≡ false
  pub jumps : t.e_is_j ≡ is_jump s.ereg.cur.inst
  pub same_jump : is_jump t.mreg.upd.inst ≡ t.e_is_j
  pub same_target : t.e_is_j ≡ true → t.mreg.upd.m_calc_pc ≡ t.e_calc_pc

module _ {S : Type 0} (l1 : Ops S) where
  pub ex-ExSignals : (fuel : ℕ) (s t : Sim S) → ex l1 fuel s ≡ ok t → ExSignals s t
  unfolding ex ex_done ex_bubble is_bubble is_jump
  ex-ExSignals fuel s t h = elim (Bool-cases (is_bubble s.ereg.cur.inst)) [
    | inl e ↦ ground (arith, e, h)
    | inr e ↦
        let (r, a, b) =
          >>=-eq-ok
            (execute s.ereg.cur.inst s.ereg.cur.pc s.ereg.cur.val_a s.ereg.cur.val_b
              s.ereg.cur.offset)
            _ (simp e at h) in
        let (u, c, d) = >>=-eq-ok (call_system l1 fuel s) _ b in
        ground (arith, e, execute-Asks _ _ _ _ _ r a, d, call_system-frame l1 fuel s u c)
  ]

  -- The write that MEM leaves for WB is the one that it signals.
  pub mem-retire :
      (s t : Sim S) (reg : ℕ → ℕ)
      → mem l1 s ≡ ok t
      → retire t.wreg.upd reg ≡ commit t.m_reg_write s.mreg.cur.dest_reg t.m_val_m reg
  unfolding mem mem_done retire commit is_bubble
  mem-retire s t reg h = elim (Bool-cases (is_bubble s.mreg.cur.inst)) [
    | inl e ↦ ground (arith, e, h)
    | inr e ↦
        let (u, a, b) = >>=-eq-ok (mem_store l1 _) _ (simp e at h) in
        let (v, c, d) = >>=-eq-ok (mem_load l1 u) _ b in
        ground (arith, e, d, mem_store-frame l1 _ u a, mem_load-frame l1 u v c)
  ]

  -- The stages that forward name registers.
  pub steps-DestsInRange :
      (fuel : ℕ) (s t : Sim S) (k : Steps l1 fuel s t) → IsInvariant s → DestsInRange k.after_ex
  unfolding start_cycle
  steps-DestsInRange fuel s t k v = ground (
    arith,
    v.e_dest,
    v.m_dest,
    wb-frame (start_cycle s),
    mem-frame l1 _ k.after_mem k.mem_step,
    ex-ExFrame l1 fuel k.after_mem k.after_ex k.ex_step,
  )

module _ {S : Type 0} (s t : Sim S) (x : ExSignals s t) where
  -- The register file after the instruction that was in EX is the one that forwarding sees.
  pub complete-in_flight :
      (c c' : Core) (r : ℕ)
      → t.ereg.cur ≡ s.ereg.cur
      → complete t.mreg.upd c ≡ ok c'
      → c.reg ≡ commit t.m_reg_write t.mreg.cur.dest_reg t.m_val_m t.reg
      → (is_load s.ereg.cur.inst ≡ false) ⊎ ((r ≢ s.ereg.cur.destreg) ⊎ (s.ereg.cur.destreg ≡ 0))
      → c'.reg r ≡ in_flight t r
  unfolding in_flight
  complete-in_flight c c' r e h w o = elim (Bool-cases (is_bubble t.mreg.upd.inst)) [
    | inl b ↦
        let same = complete-bubble t.mreg.upd c b in
        ground (
          arith,
          same,
          x.no_write b,
          commit-no_write t.ereg.cur.destreg t.e_val_e
              (commit t.m_reg_write t.mreg.cur.dest_reg t.m_val_m t.reg),
        )
    | inr b ↦
        let k = complete-commit t.mreg.upd c c' r h b in
        ground (arith, k, x.loads, x.writes, x.value, x.dest b)
  ]
