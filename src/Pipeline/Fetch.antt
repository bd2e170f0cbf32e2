-- ===== src/Pipeline/Fetch.antt =====
-- `SIM::IF`: the address to fetch from, the fetch, and the branch prediction.
use riscv_64i_simulator.Common.{
  ℕ, ◌%◌, ◌^◌, Bool, true, false, not, Result, ok, halt, misaligned_pc, ◌>>=◌, ltb, ◌==◌,
  if◌then◌else◌, sext32, add64,
}
use riscv_64i_simulator.Storage.{read}
use riscv_64i_simulator.Isa.Inst.{Strategy, always_taken, not_taken, btfnt, op_branch}
use riscv_64i_simulator.Isa.Fields.{opcode, imm_sb}
use riscv_64i_simulator.Pipeline.Regs.{DRegion}
use riscv_64i_simulator.Pipeline.State.{Sim, Ops, access, le_word}

-- The address that is fetched: a mispredicted branch in MEM comes before a jump in EX, and that
-- before the prediction.
unfoldable pub select_pc : {S : Type 0} → Sim S → ℕ
select_pc s =
    if s.mreg.cur.m_b_wrong
    then s.mreg.cur.m_calc_pc
    else if s.e_is_j
    then s.e_calc_pc
    else s.freg.cur.pred_pc

pub record Prediction : Type 0 where
  pub predicted_pc : ℕ
  pub pc_not_taken : ℕ
  pub take_branch : Bool

-- `switch (branch_strat)`; an offset is negative when its sign bit is set.
unfoldable pub takes : Strategy → ℕ → Bool
takes not_taken offset = false
takes always_taken offset = true
takes btfnt offset = not (ltb offset (2 ^ 31))

unfoldable pub predict : Strategy → ℕ → ℕ → Prediction
predict strat pc inst =
    let offset = imm_sb inst in
    let target = add64 pc (sext32 offset) in
    let next = add64 pc 4 in
    if opcode inst == op_branch
    then if takes strat offset
      then record { predicted_pc = target; pc_not_taken = next; take_branch = true }
      else record { predicted_pc = next; pc_not_taken = target; take_branch = false }
    else record { predicted_pc = next; pc_not_taken = next; take_branch = false }

-- What IF leaves for the next cycle, once the word is there.
module _ {S : Type 0} where
  unfoldable pub fetched : Sim S → ℕ → ℕ → Sim S
  fetched s pc inst =
      let p = predict s.branch_strat pc inst in
      let d : DRegion = record {
        pc = pc;
        inst = inst;
        pc_not_taken = p.pc_not_taken;
        take_branch = p.take_branch;
      } in
      record s {
        freg = record (s.freg) { upd = record (s.freg.upd) { pred_pc = p.predicted_pc } };
        dreg = record (s.dreg) { upd = d };
      }

module _ {S : Type 0} (l1 : Ops S) where
  unfoldable pub fetch : Sim S → Result (Sim S)
  fetch s = do
    let pc = select_pc s
    got ← access l1 s pc (read 4)
    if not (pc % 4 == 0) then halt (misaligned_pc pc) else ok (fetched got.0 pc (le_word got.1))
