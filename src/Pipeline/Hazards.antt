-- ===== src/Pipeline/Hazards.antt =====
-- The hazards at the end of a cycle (`SIM::simulate`), and what they leave in the pipeline registers.
use riscv_64i_simulator.Common.{◌≡◌, refl, true, false, ◌||◌, arith, if◌then◌else◌}
use riscv_64i_simulator.Isa.Inst.{InstType}
use riscv_64i_simulator.Pipeline.Regs.{
  PipeReg, tick, f_region, d_region, e_region, m_region, w_region,
}
use riscv_64i_simulator.Pipeline.State.{Sim}
use riscv_64i_simulator.Pipeline.Cycle.{
  jump_in_id, mispredicted, load_use, jump_hazard, branch_hazard, load_hazard, tick_all, end_cycle,
}

-- No request is pending at a register.
abbrev pub Idle : {R : Type 0} → PipeReg R → Type 0
Idle p = (p.bubble ≡ false) × (p.stall ≡ false)

module _ {S : Type 0} where
  pub record IsSettled (s : Sim S) : Type 0 where
    pub f_idle : Idle s.freg
    pub d_idle : Idle s.dreg
    pub e_idle : Idle s.ereg
    pub m_idle : Idle s.mreg
    pub w_idle : Idle s.wreg

  -- The tests look at nothing that the hazards before them change.
  pub mispredicted-jump_hazard : (s : Sim S) → mispredicted (jump_hazard s) ≡ mispredicted s
  unfolding mispredicted jump_hazard
  mispredicted-jump_hazard s = ground arith

  pub load_use-branch_hazard : (s : Sim S) → load_use (branch_hazard s) ≡ load_use s
  unfolding load_use branch_hazard
  load_use-branch_hazard s = ground arith

  pub load_use-jump_hazard : (s : Sim S) → load_use (jump_hazard s) ≡ load_use s
  unfolding load_use jump_hazard
  load_use-jump_hazard s = ground arith

  -- What the three hazards ask of IF, ID and EX, one register at a time.
  freg-hazards :
      (s : Sim S)
      → (load_hazard (branch_hazard (jump_hazard s))).freg ≡ (
          if jump_in_id s || (mispredicted s || load_use s)
          then record (s.freg) { stall = true }
          else s.freg)
  unfolding jump_hazard branch_hazard load_hazard
  freg-hazards s = ground (
    arith,
    mispredicted-jump_hazard s,
    load_use-branch_hazard (jump_hazard s),
    load_use-jump_hazard s,
  )

  dreg-hazards :
      (s : Sim S)
      → Idle s.dreg
      → (load_hazard (branch_hazard (jump_hazard s))).dreg
        ≡ record (s.dreg) { bubble = jump_in_id s || mispredicted s; stall = load_use s }
  unfolding jump_hazard branch_hazard load_hazard
  dreg-hazards s h = ground (
    arith,
    mispredicted-jump_hazard s,
    load_use-branch_hazard (jump_hazard s),
    load_use-jump_hazard s,
  )

  ereg-hazards :
      (s : Sim S)
      → Idle s.ereg
      → (load_hazard (branch_hazard (jump_hazard s))).ereg
        ≡ record (s.ereg) { bubble = mispredicted s || load_use s }
  unfolding jump_hazard branch_hazard load_hazard
  ereg-hazards s h = ground (
    arith,
    mispredicted-jump_hazard s,
    load_use-branch_hazard (jump_hazard s),
    load_use-jump_hazard s,
  )

  mreg-hazards : (s : Sim S) → (load_hazard (branch_hazard (jump_hazard s))).mreg ≡ s.mreg
  unfolding jump_hazard branch_hazard load_hazard
  mreg-hazards s = ground arith

  wreg-hazards : (s : Sim S) → (load_hazard (branch_hazard (jump_hazard s))).wreg ≡ s.wreg
  unfolding jump_hazard branch_hazard load_hazard
  wreg-hazards s = ground arith

  f_end :
      (s : Sim S)
      → IsSettled s
      → (end_cycle s).freg.cur
        ≡ (if jump_in_id s || (mispredicted s || load_use s) then s.freg.cur else s.freg.upd)
  unfolding end_cycle tick_all tick
  f_end s h = rw (freg-hazards s) (ground (arith, h.f_idle))

  d_end :
      (s : Sim S)
      → IsSettled s
      → (end_cycle s).dreg.cur ≡ (
          if jump_in_id s || mispredicted s
          then record (s.dreg.cur) { inst = 0 }
          else if load_use s
          then s.dreg.cur
          else s.dreg.upd)
  unfolding end_cycle tick_all tick
  d_end s h = rw (dreg-hazards s h.d_idle) refl

  e_end :
      (s : Sim S)
      → IsSettled s
      → (end_cycle s).ereg.cur ≡ (
          if mispredicted s || load_use s
          then record (s.ereg.cur) { inst = InstType.bubble }
          else s.ereg.upd)
  unfolding end_cycle tick_all tick
  e_end s h = rw (ereg-hazards s h.e_idle) (ground (arith, h.e_idle))

  m_end : (s : Sim S) → IsSettled s → (end_cycle s).mreg.cur ≡ s.mreg.upd
  unfolding end_cycle tick_all tick
  m_end s h = rw (mreg-hazards s) (ground (arith, h.m_idle))

  w_end : (s : Sim S) → IsSettled s → (end_cycle s).wreg.cur ≡ s.wreg.upd
  unfolding end_cycle tick_all tick
  w_end s h = rw (wreg-hazards s) (ground (arith, h.w_idle))

  -- With no request pending at a pipeline register, the hazards and the ticks at the end of a cycle
  -- leave this: IF is held on a jump in ID, a misprediction or a load-use hazard; the ID register
  -- is emptied on a jump or a misprediction, else held on a load-use hazard; the EX register is
  -- emptied on a misprediction or a load-use hazard; in every other case the register takes what
  -- the stage before it has prepared, and the MEM and WB registers always do.
  pub end_cycle_lem :
      (s : Sim S)
      → IsSettled s
      → ((end_cycle s).freg.cur
          ≡ (if jump_in_id s || (mispredicted s || load_use s) then s.freg.cur else s.freg.upd))
        × ((end_cycle s).dreg.cur ≡ (
            if jump_in_id s || mispredicted s
            then record (s.dreg.cur) { inst = 0 }
            else if load_use s
            then s.dreg.cur
            else s.dreg.upd))
        × ((end_cycle s).ereg.cur ≡ (
            if mispredicted s || load_use s
            then record (s.ereg.cur) { inst = InstType.bubble }
            else s.ereg.upd))
        × ((end_cycle s).mreg.cur ≡ s.mreg.upd)
        × ((end_cycle s).wreg.cur ≡ s.wreg.upd)
  end_cycle_lem s h = (f_end s h, d_end s h, e_end s h, m_end s h, w_end s h)
