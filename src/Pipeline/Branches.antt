-- ===== src/Pipeline/Branches.antt =====
-- Branches and jumps across the stages: what IF predicts, what EX finds, and where IF goes on.
use riscv_64i_simulator.Common.{
  ℕ, ◌≡◌, refl, Bool, true, false, not, ◌&&◌, ok, >>=-eq-ok, arith, if◌then◌else◌, sext32, add64,
}
use riscv_64i_simulator.Isa.Inst.{
  InstType, Strategy, is_branch, is_load, is_jump, is_bubble, op_branch,
}
use riscv_64i_simulator.Isa.Fields.{opcode, imm_sb}
use riscv_64i_simulator.Isa.Execute.{ExResult, execute}
use riscv_64i_simulator.Pipeline.Regs.{ERegion}
use riscv_64i_simulator.Pipeline.State.{Sim, Ops}
use riscv_64i_simulator.Pipeline.Fetch.{select_pc, predict}
use riscv_64i_simulator.Pipeline.Execute.{same, ex, ex_done, call_system}
use riscv_64i_simulator.Pipeline.Cycle.{mispredicted, load_use, jump_in_id, cycle, start_cycle}
use riscv_64i_simulator.Pipeline.Tally.{steps-Counted}
use riscv_64i_simulator.Pipeline.Hazards.{end_cycle_lem}
use riscv_64i_simulator.Pipeline.Frames.{mem-frame, id-frame, fetch-frame, call_system-frame}
use riscv_64i_simulator.Pipeline.Invariant.{IsInvariant, ex-ExFrame, wb-frame}
use riscv_64i_simulator.Pipeline.Steps.{Steps, cycle-Steps, steps-StepsFrame}

-- Where a branch word at `pc` goes.
pub branch_target : ℕ → ℕ → Bool → ℕ
branch_target pc inst taken = if taken then add64 pc (sext32 (imm_sb inst)) else add64 pc 4

-- For a branch word, under each of the three strategies and for either outcome: the address that
-- `SIM::IF` predicts is where the branch goes if the guess is right, and the other address that it
-- keeps is where the branch goes if the guess is wrong.
pub predict_lem :
    (strat : Strategy) (pc inst : ℕ) (taken : Bool)
    → opcode inst ≡ op_branch
    → let p = predict strat pc inst in
      (if same p.take_branch taken then p.predicted_pc else p.pc_not_taken)
      ≡ branch_target pc inst taken
unfolding predict branch_target
predict_lem strat pc inst taken h = ground arith

-- The E register holds the branch word `inst` as IF predicted it.
pub record IsPredicted (strat : Strategy) (inst : ℕ) (e : ERegion) : Type 0 where
  pub branch : is_branch e.inst ≡ true
  pub word : opcode inst ≡ op_branch
  pub guess : e.take_branch ≡ (predict strat e.pc inst).take_branch
  pub other : e.pc_not_taken ≡ (predict strat e.pc inst).pc_not_taken

is_branch-not_bubble : (t : InstType) → is_branch t ≡ true → is_bubble t ≡ false
unfolding is_branch is_bubble
is_branch-not_bubble InstType.bubble h = ground arith
is_branch-not_bubble _ h = refl

is_branch-not_jump : (t : InstType) → is_branch t ≡ true → is_jump t ≡ false
unfolding is_branch is_jump
is_branch-not_jump t h = ground arith

is_branch-not_load : (t : InstType) → is_branch t ≡ true → is_load t ≡ false
unfolding is_branch is_load
is_branch-not_load t h = ground arith

is_jump-not_bubble : (t : InstType) → is_jump t ≡ true → is_bubble t ≡ false
unfolding is_jump is_bubble
is_jump-not_bubble InstType.bubble h = ground arith
is_jump-not_bubble _ h = refl

pub is_jump-not_branch : (t : InstType) → is_jump t ≡ true → is_branch t ≡ false
unfolding is_jump is_branch
is_jump-not_branch InstType.jal h = refl
is_jump-not_branch InstType.jalr h = refl
is_jump-not_branch _ h = ground arith

module _ {S : Type 0} (l1 : Ops S) (fuel : ℕ) where
  -- EX of an instruction leaves what `ex_done` says.
  ex-ex_done :
      (s t : Sim S) (r : ExResult)
      → is_bubble s.ereg.cur.inst ≡ false
      → execute s.ereg.cur.inst s.ereg.cur.pc s.ereg.cur.val_a s.ereg.cur.val_b s.ereg.cur.offset
        ≡ ok r
      → ex l1 fuel s ≡ ok t
      → (u : Sim S) × (call_system l1 fuel s ≡ ok u) × (t ≡ ex_done u r)
  unfolding ex
  ex-ex_done s t r b e h =
      let (u, c, d) = >>=-eq-ok (call_system l1 fuel s) _ (simp (b, e) at h) in
      (u, c, ground (arith, d))

  -- What EX finds of the instruction in the E register, seen at the end of the cycle.
  pub record Resolved (s : Sim S) (r : ExResult) (x : Sim S) : Type 0 where
    pub wrong :
        x.e_b_wrong ≡ (is_branch s.ereg.cur.inst && not (same s.ereg.cur.take_branch r.res_branch))
    pub m_wrong : x.mreg.upd.m_b_wrong ≡ x.e_b_wrong
    pub redirect : x.e_b_wrong ≡ true → x.mreg.upd.m_calc_pc ≡ s.ereg.cur.pc_not_taken
    pub jumps : x.e_is_j ≡ is_jump s.ereg.cur.inst
    pub target : is_jump s.ereg.cur.inst ≡ true → x.e_calc_pc ≡ r.calculated_pc

  mem_step-ereg : (s t : Sim S) (st : Steps l1 fuel s t) → st.after_mem.ereg ≡ s.ereg
  unfolding start_cycle
  mem_step-ereg s t st =
      ground (arith, wb-frame (start_cycle s), mem-frame l1 _ st.after_mem st.mem_step)

  abbrev Runs : Sim S → ExResult → Type 0
  Runs s r =
      execute s.ereg.cur.inst s.ereg.cur.pc s.ereg.cur.val_a s.ereg.cur.val_b s.ereg.cur.offset
      ≡ ok r

  steps-Resolved :
      (s t : Sim S) (r : ExResult) (st : Steps l1 fuel s t)
      → is_bubble s.ereg.cur.inst ≡ false
      → Runs s r
      → Resolved s r st.after_id × Resolved s r st.after_if
  unfolding ex_done
  steps-Resolved s t r st b e =
      let m = mem_step-ereg s t st in
      let (u, c, d) = ex-ex_done st.after_mem st.after_ex r (rw m b) (rw m e) st.ex_step in
      ground (
        arith,
        call_system-frame l1 fuel st.after_mem u c,
        d,
        m,
        id-frame st.after_ex st.after_id st.id_step,
        fetch-frame l1 st.after_id st.after_if st.if_step,
        is_jump-not_branch s.ereg.cur.inst,
      )

  -- The M register that IF looks at is the one that the cycle started with.
  after_id-m_cur : (s t : Sim S) (st : Steps l1 fuel s t) → st.after_id.mreg.cur ≡ s.mreg.cur
  unfolding start_cycle
  after_id-m_cur s t st = ground (
    arith,
    wb-frame (start_cycle s),
    mem-frame l1 _ st.after_mem st.mem_step,
    ex-ExFrame l1 fuel st.after_mem st.after_ex st.ex_step,
    id-frame st.after_ex st.after_id st.id_step,
  )

  after_id-f_cur : (s t : Sim S) (st : Steps l1 fuel s t) → st.after_id.freg.cur ≡ s.freg.cur
  unfolding start_cycle
  after_id-f_cur s t st = ground (
    arith,
    wb-frame (start_cycle s),
    mem-frame l1 _ st.after_mem st.mem_step,
    ex-ExFrame l1 fuel st.after_mem st.after_ex st.ex_step,
    id-frame st.after_ex st.after_id st.id_step,
  )

  -- In a state that satisfies the invariant, with a branch in EX whose outcome is the guess, in a
  -- cycle whose stages succeed: IF fetches from the address that it predicted, the next cycle
  -- starts with the instruction that ID hands on in EX and, unless ID holds a jump, with the
  -- fetched word in ID, and neither a misprediction nor a load-use hazard is counted.
  pub branch_right :
      (s t : Sim S) (r : ExResult)
      → IsInvariant s
      → is_branch s.ereg.cur.inst ≡ true
      → Runs s r
      → same s.ereg.cur.take_branch r.res_branch ≡ true
      → (st : Steps l1 fuel s t)
      → (select_pc st.after_id ≡ s.freg.cur.pred_pc)
        × (t.ereg.cur ≡ st.after_id.ereg.upd)
        × (t.dreg.cur.inst ≡ (if jump_in_id st.after_if then 0 else st.after_if.dreg.upd.inst))
        × (t.counters.mispredict ≡ s.counters.mispredict)
        × (t.counters.loaduse_cnt ≡ s.counters.loaduse_cnt)
  unfolding mispredicted load_use select_pc is_bubble
  branch_right s t r v b e g st =
      let f = steps-StepsFrame l1 fuel s t st v in
      ground (
        arith,
        is_branch-not_bubble s.ereg.cur.inst b,
        is_branch-not_jump s.ereg.cur.inst b,
        is_branch-not_load s.ereg.cur.inst b,
        steps-Resolved s t r st,
        st.end_step,
        end_cycle_lem st.after_if f.settled,
        f.e_cur,
        v.flushed,
        after_id-m_cur s t st,
        after_id-f_cur s t st,
        fetch-frame l1 st.after_id st.after_if st.if_step,
        steps-Counted l1 fuel s t st,
      )

  -- In a state that satisfies the invariant, with a branch in EX that was predicted by `SIM::IF`
  -- and whose outcome is not the guess: if the cycle succeeds, the next cycle starts with empty ID
  -- and EX registers, and where its stages succeed it fetches from the address where the branch
  -- really goes.
  pub branch_wrong :
      (s t t' : Sim S) (strat : Strategy) (inst : ℕ) (r : ExResult)
      → IsInvariant s
      → IsPredicted strat inst s.ereg.cur
      → Runs s r
      → same s.ereg.cur.take_branch r.res_branch ≡ false
      → cycle l1 fuel s ≡ ok t
      → (st' : Steps l1 fuel t t')
      → (t.dreg.cur.inst ≡ 0)
        × (t.ereg.cur.inst ≡ InstType.bubble)
        × (select_pc st'.after_id ≡ branch_target s.ereg.cur.pc inst r.res_branch)
  unfolding mispredicted select_pc
  branch_wrong s t t' strat inst r v p e g h st' =
      let st = cycle-Steps l1 fuel s t h in
      let f = steps-StepsFrame l1 fuel s t st v in
      ground (
        arith,
        is_branch-not_bubble s.ereg.cur.inst,
        steps-Resolved s t r st,
        st.end_step,
        end_cycle_lem st.after_if f.settled,
        f.e_cur,
        predict_lem strat s.ereg.cur.pc inst r.res_branch,
        after_id-m_cur t t' st',
      )

  -- In a state that satisfies the invariant, with a JAL or JALR in EX whose target is computed: the
  -- fetch of the same cycle is from that target.
  pub jump_resolves :
      (s t : Sim S) (r : ExResult)
      → IsInvariant s
      → is_jump s.ereg.cur.inst ≡ true
      → Runs s r
      → (st : Steps l1 fuel s t) → select_pc st.after_id ≡ r.calculated_pc
  unfolding select_pc is_bubble
  jump_resolves s t r v j e st = ground (
    arith,
    is_jump-not_bubble s.ereg.cur.inst,
    steps-Resolved s t r st,
    after_id-m_cur s t st,
    v.flushed,
  )
