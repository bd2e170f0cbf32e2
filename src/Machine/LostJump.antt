-- ===== src/Machine/LostJump.antt =====
-- What the loop of `SIM::simulate` (simulation.cpp) does with a JALR behind a load of its address.
use riscv_64i_simulator.Common.{ℕ, ◌≡◌, ◌≢◌, true, false, arith, add64}
use riscv_64i_simulator.Isa.Inst.{InstType, is_load, is_branch, is_jump, op_jalr}
use riscv_64i_simulator.Isa.Fields.{opcode, rs1}
use riscv_64i_simulator.Pipeline.State.{Sim, Ops}
use riscv_64i_simulator.Pipeline.Fetch.{select_pc}
use riscv_64i_simulator.Pipeline.Cycle.{jump_in_id, load_use, mispredicted}
use riscv_64i_simulator.Pipeline.Frames.{fetch-frame}
use riscv_64i_simulator.Pipeline.Hazards.{end_cycle_lem}
use riscv_64i_simulator.Pipeline.Invariant.{IsInvariant}
use riscv_64i_simulator.Pipeline.Steps.{Steps, steps-StepsFrame, Steps-cycle, cycle-IsInvariant}
use riscv_64i_simulator.Machine.Prepared.{IsGuided, steps-Carried}
use riscv_64i_simulator.Machine.Flow.{steps-Flow, predict-plain}
use riscv_64i_simulator.Machine.JumpSafe.{id-jump_reads}

load-no_branch : (t : InstType) → is_load t ≡ true → is_branch t ≡ false
unfolding is_load is_branch
load-no_branch t h = ground arith

jalr-word : (w : ℕ) → opcode w ≡ op_jalr → w ≢ 0
unfolding opcode
jalr-word w h z = let q : opcode 0 ≡ op_jalr = rw z at h in omega (arith, q)

module _ {S : Type 0} (l1 : Ops S) (fuel : ℕ) (s t : Sim S) (k : Steps l1 fuel s t)
    (v : IsInvariant s) (l : is_load s.ereg.cur.inst ≡ true) (d : s.ereg.cur.destreg ≢ 0)
    (o : opcode s.dreg.cur.inst ≡ op_jalr) (b : rs1 s.dreg.cur.inst ≡ s.ereg.cur.destreg) where
  -- The JALR asks for two hazards at once, and no branch does.
  record Both : Type 0 where
    jump : jump_in_id k.after_if ≡ true
    load : load_use k.after_if ≡ true
    no_branch : mispredicted k.after_if ≡ false

  both : Both
  unfolding jump_in_id load_use mispredicted
  both =
      let c = steps-Carried l1 fuel s t k v in
      let f = steps-StepsFrame l1 fuel s t k v in
      let q = fetch-frame l1 k.after_id k.after_if k.if_step in
      let n = jalr-word s.dreg.cur.inst o in
      let r = (rw c.ex_d_cur at (id-jump_reads k.after_ex k.after_id k.id_step)) n in
      ground (arith, c.d_cur, f.e_cur, q, r, load-no_branch s.ereg.cur.inst l)

  record Emptied : Type 0 where
    id_empty : t.dreg.cur.inst ≡ 0
    ex_empty : t.ereg.cur.inst ≡ InstType.bubble
    stays : t.freg.cur ≡ s.freg.cur

  emptied : Emptied
  emptied =
      let f = steps-StepsFrame l1 fuel s t k v in
      let c = steps-Carried l1 fuel s t k v in
      ground (arith, k.end_step, end_cycle_lem k.after_if f.settled, both, c.f_cur)

  -- In a state that satisfies the invariant and whose word in ID was predicted by `SIM::IF`, with a
  -- load to a register other than 0 in EX and a JALR to the address in that register in ID, in two
  -- cycles whose stages succeed: the second one starts with ID and EX empty and fetches from the
  -- address behind the JALR.
  pub jump_lost :
      (t' : Sim S)
      → IsGuided s
      → (k' : Steps l1 fuel t t')
      → (t.dreg.cur.inst ≡ 0)
        × (t.ereg.cur.inst ≡ InstType.bubble)
        × (select_pc k'.after_id ≡ add64 s.dreg.cur.pc 4)
  unfolding is_jump
  jump_lost t' p k' =
      let v' = cycle-IsInvariant l1 fuel s t v (Steps-cycle l1 fuel s t k) in
      let w = steps-Flow l1 fuel s t k v in
      let f = steps-Flow l1 fuel t t' k' v' in
      let g = p.guessed (jalr-word s.dreg.cur.inst o) in
      let plain = predict-plain s.branch_strat s.dreg.cur.pc s.dreg.cur.inst (ground (arith, o)) in
      ground (arith, emptied, both, w.wrong, f.selected, g.next, plain)
