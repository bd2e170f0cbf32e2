-- ===== src/Machine/Flow.antt =====
-- The address of the next instruction from cycle to cycle (`SIM::simulate` in simulation.cpp).
use riscv_64i_simulator.Common.{
  ℕ, ◌≡◌, ◌≢◌, true, false, ◌||◌, ok, arith, ◌==◌, if◌then◌else◌, add64,
}
use riscv_64i_simulator.Isa.Inst.{Strategy, is_jump, is_load, InstType, op_branch, no_reg}
use riscv_64i_simulator.Isa.Fields.{opcode}
use riscv_64i_simulator.Isa.Execute.{ExResult}
use riscv_64i_simulator.Isa.Decode.{Decoded}
use riscv_64i_simulator.Isa.Kinds.{KindOf}
use riscv_64i_simulator.Pipeline.Regs.{m_region}
use riscv_64i_simulator.Pipeline.State.{Sim, Ops}
use riscv_64i_simulator.Pipeline.Fetch.{select_pc, predict}
use riscv_64i_simulator.Pipeline.Decode.{id}
use riscv_64i_simulator.Pipeline.Cycle.{jump_in_id, mispredicted, load_use}
use riscv_64i_simulator.Pipeline.Branches.{predict_lem, is_jump-not_branch}
use riscv_64i_simulator.Pipeline.Frames.{id-frame, fetch-frame}
use riscv_64i_simulator.Pipeline.Hazards.{end_cycle_lem}
use riscv_64i_simulator.Pipeline.Invariant.{IsInvariant, ex-ExFrame, no_dest}
use riscv_64i_simulator.Pipeline.Steps.{Steps, steps-StepsFrame}
use riscv_64i_simulator.Machine.{found, next_pc}
use riscv_64i_simulator.Machine.Abs.{fall_through, pc_after}
use riscv_64i_simulator.Machine.Signals.{ex-ExSignals}
use riscv_64i_simulator.Machine.Prepared.{IsGuided, steps-Carried, fetch-Fetched, moved, kept}

pub load-no_dest : (i : InstType) → is_load i ≡ true → no_dest i ≡ false
unfolding is_load no_dest
load-no_dest i h = ground arith

id-empty :
    {S : Type 0} (s t : Sim S)
    → id s ≡ ok t
    → s.dreg.cur.inst ≡ 0
    → (t.d_reg1 ≡ no_reg) × (t.d_reg2 ≡ no_reg)
unfolding id
id-empty s t h e = ground arith

-- Behind a word that is no branch stands the next word.
pub predict-plain :
    (strat : Strategy) (pc inst : ℕ)
    → (opcode inst == op_branch) ≡ false
    → (predict strat pc inst).predicted_pc ≡ add64 pc 4
unfolding predict
predict-plain strat pc inst h = ground arith

module _ {S : Type 0} (l1 : Ops S) (fuel : ℕ) (s t : Sim S) (k : Steps l1 fuel s t)
    (v : IsInvariant s) where
  abbrev x : Sim S
  x = k.after_if

  -- How the stages of a cycle see where the program goes on.
  pub record Flow : Type 0 where
    pub m_cur : t.mreg.cur ≡ k.after_ex.mreg.upd
    pub wrong : mispredicted x ≡ t.mreg.cur.m_b_wrong
    pub jump : is_jump t.mreg.cur.inst ≡ is_jump s.ereg.cur.inst
    pub selected : select_pc k.after_id ≡ (
        if s.mreg.cur.m_b_wrong
        then s.mreg.cur.m_calc_pc
        else if is_jump s.ereg.cur.inst
        then t.mreg.cur.m_calc_pc
        else s.freg.cur.pred_pc)

  pub steps-Flow : Flow
  unfolding mispredicted select_pc
  steps-Flow =
      let c = steps-Carried l1 fuel s t k v in
      let f = steps-StepsFrame l1 fuel s t k v in
      let m = ex-ExFrame l1 fuel k.after_mem k.after_ex k.ex_step in
      let e = ex-ExSignals l1 fuel k.after_mem k.after_ex k.ex_step in
      let i = id-frame k.after_ex k.after_id k.id_step in
      let q = fetch-frame l1 k.after_id k.after_if k.if_step in
      let l = end_cycle_lem k.after_if f.settled in
      record {
        m_cur = ground (arith, k.end_step, l, i, q);
        wrong = ground (arith, k.end_step, l, i, q, c.ex_e_cur, f.e_cur, m);
        jump = ground (arith, k.end_step, l, i, q, c.ex_e_cur, m.frame, e);
        selected = ground (arith, k.end_step, l, i, q, c, m.frame, e);
      }

  -- Where the program goes on when ID has no instruction: where IF fetches.
  pub pc_empty :
      s.dreg.cur.inst ≡ 0 → mispredicted x ≡ false → pc_after s t.mreg.cur ≡ select_pc k.after_id
  unfolding pc_after fall_through is_jump
  pc_empty e w = let f = steps-Flow in ground (arith, f.wrong, f.jump, f.selected, v.flushed, e, w)

  -- Behind an instruction that ID hands on stands nothing that goes elsewhere.
  pub pc_issued :
      IsGuided s
      → s.dreg.cur.inst ≢ 0
      → mispredicted x ≡ false
      → pc_after s t.mreg.cur ≡ s.dreg.cur.pc
  unfolding pc_after fall_through
  pc_issued p n w = let f = steps-Flow in ground (arith, f.wrong, f.jump, v.flushed, p.jump_alone)

  -- A mispredicted branch, and a load that ID waits for.
  pub pc_wrong : mispredicted x ≡ true → fall_through t ≡ pc_after s t.mreg.cur
  unfolding pc_after fall_through
  pc_wrong w = let f = steps-Flow in ground (arith, f.wrong, w)

  -- Only an instruction in ID can wait for a load.
  pub load_use-inst : load_use x ≡ true → s.dreg.cur.inst ≢ 0
  unfolding load_use
  load_use-inst l =
      let c = steps-Carried l1 fuel s t k v in
      let f = steps-StepsFrame l1 fuel s t k v in
      let q = fetch-frame l1 k.after_id k.after_if k.if_step in
      let z = id-empty k.after_ex k.after_id k.id_step in
      ground (arith, c.ex_d_cur, f.e_cur, q, z, load-no_dest s.ereg.cur.inst, v.e_dest)

  pub pc_load :
      IsGuided s
      → jump_in_id x || mispredicted x ≡ false
      → load_use x ≡ true
      → fall_through t ≡ pc_after s t.mreg.cur
  unfolding fall_through
  pc_load p e l =
      let f = steps-Flow in
      let (d, q) = kept l1 fuel s t k v e l in
      let i = load_use-inst l in ground (arith, f.wrong, d, i, e, pc_issued p i)

  -- The word that IF fetched is the next in ID.
  pub pc_fetched :
      jump_in_id x || mispredicted x ≡ false
      → load_use x ≡ false
      → k.after_if.dreg.upd.inst ≢ 0
      → fall_through t ≡ select_pc k.after_id
  unfolding fall_through
  pc_fetched e l z =
      let f = steps-Flow in
      let (d, q) = moved l1 fuel s t k v e l in
      let w = fetch-Fetched l1 k.after_id k.after_if k.if_step in
      ground (arith, f.wrong, d, w.pc, z, e)

  -- Behind an instruction that ID has handed on stands what the machine executes next.
  pub pc_next :
      (d : Decoded) (r : ExResult)
      → IsGuided s
      → s.dreg.cur.inst ≢ 0
      → mispredicted x || load_use x ≡ false
      → k.after_if.dreg.upd.inst ≢ 0
      → KindOf s.dreg.cur.inst d
      → t.ereg.cur.inst ≡ d.insttype
      → t.ereg.cur.take_branch ≡ s.dreg.cur.take_branch
      → t.ereg.cur.pc_not_taken ≡ s.dreg.cur.pc_not_taken
      → pc_after t (found t.ereg.cur r) ≡ next_pc s.dreg.cur.pc s.dreg.cur.inst d.insttype r
  unfolding pc_after found next_pc jump_in_id
  pc_next d r p n w z o e b q =
      let f = steps-Flow in
      let c = steps-Carried l1 fuel s t k v in
      let g = p.guessed n in
      ground (
        arith,
        f,
        c.d_cur,
        p.jump_alone,
        v.flushed,
        o,
        pc_fetched,
        g,
        is_jump-not_branch d.insttype,
        predict_lem s.branch_strat s.dreg.cur.pc s.dreg.cur.inst r.res_branch,
        predict-plain s.branch_strat s.dreg.cur.pc s.dreg.cur.inst,
      )
