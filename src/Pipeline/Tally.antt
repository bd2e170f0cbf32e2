-- ===== src/Pipeline/Tally.antt =====
-- The performance counters of `SIM::simulate` and the figures that the exit system call prints
-- (simulation.cpp).
use riscv_64i_simulator.Common.{
  ℕ, zero, suc, ◌+◌, ◌≤◌, ◌≡◌, ◌⊎◌, true, false, ok, >>=-eq-ok, Bool-cases, inl, inr, arith,
  if◌then◌else◌, refl,
}
use riscv_64i_simulator.Isa.Inst.{is_bubble}
use riscv_64i_simulator.Isa.Execute.{execute}
use riscv_64i_simulator.Pipeline.State.{Sim, Ops, Counters}
use riscv_64i_simulator.Pipeline.Execute.{ex, ex_done, ex_bubble, call_system}
use riscv_64i_simulator.Pipeline.Memory.{mem, mem_store, mem_load, mem_done}
use riscv_64i_simulator.Pipeline.WriteBack.{wb}
use riscv_64i_simulator.Pipeline.Cycle.{
  start_cycle, end_cycle, tick_all, jump_hazard, branch_hazard, load_hazard, simulate, cycle,
  jump_in_id, mispredicted, load_use,
}
use riscv_64i_simulator.Pipeline.Frames.{id-frame, fetch-frame}
use riscv_64i_simulator.Pipeline.Invariant.{wb-frame}
use riscv_64i_simulator.Pipeline.Hazards.{
  mispredicted-jump_hazard, load_use-branch_hazard, load_use-jump_hazard,
}
use riscv_64i_simulator.Pipeline.Steps.{Steps, cycle-Steps}
use riscv_64i_simulator.Pipeline.CacheCounts.{
  CacheOnly, CacheOnly-refl, CacheOnly-trans, mem_store-CacheOnly, mem_load-CacheOnly,
  fetch-CacheOnly, call_system-CacheOnly,
}

-- What the counters say of one another: a hit is an access, every control hazard is a jump or a
-- misprediction, and a cycle completes at most one instruction and has at most one event of a kind.
pub record IsTally (c : Counters) : Type 0 where
  pub hits : c.cachehit_cnt ≤ c.cache_cnt
  pub control : c.control_cnt ≡ c.cnt_j + c.mispredict
  pub instructions : c.inst_cnt ≤ c.pipeline_cycle_cnt
  pub stalls : c.loaduse_cnt ≤ c.pipeline_cycle_cnt
  pub jumps : c.cnt_j ≤ c.pipeline_cycle_cnt
  pub branches : c.mispredict + c.correct_predict ≤ c.pipeline_cycle_cnt

module _ {S : Type 0} (l1 : Ops S) where
  -- MEM counts its instruction, EX a right guess.
  pub mem-counters :
      (s t : Sim S)
      → mem l1 s ≡ ok t
      → (d : Counters) × CacheOnly d t.counters
        × (d ≡ record (s.counters) {
          inst_cnt = s.counters.inst_cnt + (if is_bubble s.mreg.cur.inst then 0 else 1);
        })
  unfolding mem mem_done
  mem-counters s t h = elim (Bool-cases (is_bubble s.mreg.cur.inst)) [
    | inl e ↦ (s.counters, ground (arith, h, e, CacheOnly-refl s.counters), ground (arith, e))
    | inr e ↦
        let (u, a, b) = >>=-eq-ok (mem_store l1 _) _ (simp e at h) in
        let (v, c, d) = >>=-eq-ok (mem_load l1 u) _ b in
        let x =
          CacheOnly-trans _ u.counters v.0.counters (mem_store-CacheOnly l1 _ u a)
            (mem_load-CacheOnly l1 u v c) in
        (
          record (s.counters) { inst_cnt = s.counters.inst_cnt + 1 },
          ground (arith, x, d),
          rw e refl,
        )
  ]

  record ExCount (s t : Sim S) : Type 0 where
    same : t.counters ≡ record (s.counters) {
      correct_predict = t.counters.correct_predict;
      cachehit_cnt = t.counters.cachehit_cnt;
      cache_cnt = t.counters.cache_cnt;
      cache_cycle_cnt = t.counters.cache_cycle_cnt;
    }
    hits :
        s.counters.cachehit_cnt ≤ s.counters.cache_cnt
        → t.counters.cachehit_cnt ≤ t.counters.cache_cnt
    at_most_one : t.counters.correct_predict ≤ s.counters.correct_predict + 1
    right : (t.counters.correct_predict ≡ s.counters.correct_predict) ⊎ (t.e_b_wrong ≡ false)

  ex-ExCount : (fuel : ℕ) (s t : Sim S) → ex l1 fuel s ≡ ok t → ExCount s t
  unfolding ex ex_done ex_bubble
  ex-ExCount fuel s t h = elim (Bool-cases (is_bubble s.ereg.cur.inst)) [
    | inl e ↦ ground (arith, h, e)
    | inr e ↦
        let (r, a, b) =
          >>=-eq-ok
            (execute s.ereg.cur.inst s.ereg.cur.pc s.ereg.cur.val_a s.ereg.cur.val_b
              s.ereg.cur.offset)
            _ (simp e at h) in
        let (u, c, d) = >>=-eq-ok (call_system l1 fuel s) _ b in
        let x = call_system-CacheOnly l1 fuel s u c in ground (arith, d, x.same, x.hits)
  ]

module _ {S : Type 0} where
  -- The end of a cycle counts its three events.
  record EndCount (x : Sim S) : Type 0 where
    jumps : (end_cycle x).counters.cnt_j ≡ x.counters.cnt_j + (if jump_in_id x then 1 else 0)
    wrong :
        (end_cycle x).counters.mispredict
        ≡ x.counters.mispredict + (if mispredicted x then 1 else 0)
    control :
        (end_cycle x).counters.control_cnt
        ≡ x.counters.control_cnt
          + ((if jump_in_id x then 1 else 0) + (if mispredicted x then 1 else 0))
    loads :
        (end_cycle x).counters.loaduse_cnt ≡ x.counters.loaduse_cnt + (if load_use x then 1 else 0)
    others : (end_cycle x).counters ≡ record (x.counters) {
      cnt_j = (end_cycle x).counters.cnt_j;
      mispredict = (end_cycle x).counters.mispredict;
      control_cnt = (end_cycle x).counters.control_cnt;
      loaduse_cnt = (end_cycle x).counters.loaduse_cnt;
    }

  end_cycle-EndCount : (x : Sim S) → EndCount x
  unfolding end_cycle tick_all jump_hazard branch_hazard load_hazard
  end_cycle-EndCount x = ground (
    arith,
    mispredicted-jump_hazard x,
    load_use-branch_hazard (jump_hazard x),
    load_use-jump_hazard x,
  )

  wrong-e_b_wrong : (x : Sim S) → mispredicted x ≡ true → x.e_b_wrong ≡ true
  unfolding mispredicted
  wrong-e_b_wrong x h = ground arith

module _ {S : Type 0} (l1 : Ops S) (fuel : ℕ) where
  -- The counters before the end of a cycle.
  record Before (s x : Sim S) : Type 0 where
    hits :
        s.counters.cachehit_cnt ≤ s.counters.cache_cnt
        → x.counters.cachehit_cnt ≤ x.counters.cache_cnt
    instructions :
        x.counters.inst_cnt ≡ s.counters.inst_cnt + (if is_bubble s.mreg.cur.inst then 0 else 1)
    cycles : x.counters.pipeline_cycle_cnt ≡ s.counters.pipeline_cycle_cnt + 1
    guesses :
        (x.counters.correct_predict ≡ s.counters.correct_predict)
        ⊎ ((x.counters.correct_predict ≤ s.counters.correct_predict + 1) × (mispredicted x ≡ false))
    others :
        (x.counters.cnt_j ≡ s.counters.cnt_j)
        × (x.counters.mispredict ≡ s.counters.mispredict)
        × (x.counters.control_cnt ≡ s.counters.control_cnt)
        × (x.counters.loaduse_cnt ≡ s.counters.loaduse_cnt)

  steps-Before : (s t : Sim S) (k : Steps l1 fuel s t) → Before s k.after_if
  unfolding start_cycle
  steps-Before s t k =
      let w = wb-frame (start_cycle s) in
      let (d, c, o) = mem-counters l1 (wb (start_cycle s)) k.after_mem k.mem_step in
      let e = ex-ExCount l1 fuel k.after_mem k.after_ex k.ex_step in
      let f = fetch-CacheOnly l1 k.after_id k.after_if k.if_step in
      let i = id-frame k.after_ex k.after_id k.id_step in
      let q = fetch-frame l1 k.after_id k.after_if k.if_step in
      let wrong = wrong-e_b_wrong k.after_if in
      record {
        hits = λ v. ground (arith, v, w, c.hits, o, e.hits, i, f.hits);
        instructions = ground (arith, w, c.same, o, e.same, i, f.same);
        cycles = ground (arith, w, c.same, o, e.same, i, f.same);
        guesses = ground (arith, w, c.same, o, e.same, e.at_most_one, e.right, i, f.same, q, wrong);
        others = ground (arith, w, c.same, o, e.same, i, f.same);
      }

  -- What one cycle counts: itself, the instruction in MEM, and the hazards that it sees.
  pub record Counted (s t : Sim S) (k : Steps l1 fuel s t) : Type 0 where
    pub cycles : t.counters.pipeline_cycle_cnt ≡ s.counters.pipeline_cycle_cnt + 1
    pub instructions :
        t.counters.inst_cnt ≡ s.counters.inst_cnt + (if is_bubble s.mreg.cur.inst then 0 else 1)
    pub jumps : t.counters.cnt_j ≡ s.counters.cnt_j + (if jump_in_id k.after_if then 1 else 0)
    pub wrong :
        t.counters.mispredict ≡ s.counters.mispredict + (if mispredicted k.after_if then 1 else 0)
    pub loads :
        t.counters.loaduse_cnt ≡ s.counters.loaduse_cnt + (if load_use k.after_if then 1 else 0)

  pub steps-Counted : (s t : Sim S) (k : Steps l1 fuel s t) → Counted s t k
  steps-Counted s t k =
      let b = steps-Before s t k in
      let e = end_cycle-EndCount k.after_if in ground (arith, k.end_step, e, b)

  -- A cycle of the pipeline that does not end the process keeps what the counters say of one
  -- another.
  pub cycle-IsTally :
      (s t : Sim S) → IsTally s.counters → cycle l1 fuel s ≡ ok t → IsTally t.counters
  cycle-IsTally s t v h =
      let k = cycle-Steps l1 fuel s t h in
      let b = steps-Before s t k in
      let e = end_cycle-EndCount k.after_if in ground (arith, k.end_step, e, b, v)

  -- So does any number of cycles.
  pub simulate-IsTally :
      (n : ℕ) (s t : Sim S) → IsTally s.counters → simulate l1 fuel n s ≡ ok t → IsTally t.counters
  unfolding simulate
  simulate-IsTally zero s t v h = ground (arith, v, h)
  simulate-IsTally (suc n) s t v h =
      let (u, a, b) = >>=-eq-ok (cycle l1 fuel s) _ h in
      simulate-IsTally n u t (cycle-IsTally s u v a) b
