-- ===== src/Pipeline/Steps.antt =====
-- One cycle taken apart into its stages, and the invariant over any number of cycles.
use riscv_64i_simulator.Common.{ℕ, zero, suc, ◌≡◌, ◌<◌, refl, true, false, ok, >>=-eq-ok, arith}
use riscv_64i_simulator.Pipeline.State.{Sim, Ops}
use riscv_64i_simulator.Pipeline.Fetch.{fetch}
use riscv_64i_simulator.Pipeline.Decode.{id}
use riscv_64i_simulator.Pipeline.Execute.{ex}
use riscv_64i_simulator.Pipeline.Memory.{mem}
use riscv_64i_simulator.Pipeline.WriteBack.{wb}
use riscv_64i_simulator.Pipeline.Cycle.{
  end_cycle, tick_all, cycle, simulate, start_cycle, mispredicted,
}
use riscv_64i_simulator.Pipeline.Regs.{tick}
use riscv_64i_simulator.Pipeline.Hazards.{IsSettled, end_cycle_lem}
use riscv_64i_simulator.Pipeline.Frames.{mem-frame, fetch-frame, id-frame}
use riscv_64i_simulator.Pipeline.Invariant.{
  IsInvariant, no_dest, id-NamesDest, ex-ExFrame, wb-frame, wb-zero_reg,
}

module _ {S : Type 0} (l1 : Ops S) (fuel : ℕ) where
  -- The states after MEM, EX, ID and IF of a cycle from `s` to `t`.
  pub record Steps (s t : Sim S) : Type 0 where
    pub after_mem : Sim S
    pub after_ex : Sim S
    pub after_id : Sim S
    pub after_if : Sim S
    pub mem_step : mem l1 (wb (start_cycle s)) ≡ ok after_mem
    pub ex_step : ex l1 fuel after_mem ≡ ok after_ex
    pub id_step : id after_ex ≡ ok after_id
    pub if_step : fetch l1 after_id ≡ ok after_if
    pub end_step : t ≡ end_cycle after_if

  pub cycle-Steps : (s t : Sim S) → cycle l1 fuel s ≡ ok t → Steps s t
  unfolding cycle
  cycle-Steps s t h =
      let (u, a, h₁) = >>=-eq-ok (mem l1 (wb (start_cycle s))) _ h in
      let (v, b, h₂) = >>=-eq-ok (ex l1 fuel u) _ h₁ in
      let (w, c, h₃) = >>=-eq-ok (id v) _ h₂ in
      let (x, d, e) = >>=-eq-ok (fetch l1 w) _ h₃ in
      record {
        after_mem = u;
        after_ex = v;
        after_id = w;
        after_if = x;
        mem_step = a;
        ex_step = b;
        id_step = c;
        if_step = d;
        end_step = cc;
      }

  pub Steps-cycle : (s t : Sim S) → Steps s t → cycle l1 fuel s ≡ ok t
  unfolding cycle
  Steps-cycle s t k = rw (k.mem_step, k.ex_step, k.id_step, k.if_step, k.end_step) refl

  -- What the stages leave for the end of the cycle.
  pub record StepsFrame (s t : Sim S) (st : Steps s t) : Type 0 where
    pub settled : IsSettled st.after_if
    pub e_cur : st.after_if.ereg.cur ≡ s.ereg.cur
    pub m_cur : st.after_if.mreg.cur ≡ s.mreg.cur
    pub wrong : st.after_if.mreg.upd.m_b_wrong ≡ true → mispredicted st.after_if ≡ true
    pub zero_reg : st.after_if.reg 0 ≡ 0
    pub e_dest : no_dest st.after_if.ereg.upd.inst ≡ false → st.after_if.ereg.upd.destreg < 32
    pub m_dest : st.after_if.mreg.upd.reg_write ≡ true → st.after_if.mreg.upd.dest_reg < 32

  pub steps-StepsFrame : (s t : Sim S) (st : Steps s t) → IsInvariant s → StepsFrame s t st
  unfolding start_cycle mispredicted
  steps-StepsFrame s t st v = ground (
    arith,
    wb-frame (start_cycle s),
    wb-zero_reg (start_cycle s),
    mem-frame l1 _ st.after_mem st.mem_step,
    ex-ExFrame l1 fuel st.after_mem st.after_ex st.ex_step,
    id-frame st.after_ex st.after_id st.id_step,
    id-NamesDest st.after_ex st.after_id st.id_step,
    fetch-frame l1 st.after_id st.after_if st.if_step,
  )

module _ {S : Type 0} where
  -- A tick answers every request, and register 0 is cleared.
  end_cycle-IsSettled : (s : Sim S) → IsSettled (end_cycle s) × ((end_cycle s).reg 0 ≡ 0)
  unfolding end_cycle tick_all tick
  end_cycle-IsSettled s = ground arith

module _ {S : Type 0} (l1 : Ops S) (fuel : ℕ) where
  -- A cycle of the pipeline that does not end the process leads from a state that satisfies the
  -- invariant to one that satisfies it.
  pub cycle-IsInvariant : (s t : Sim S) → IsInvariant s → cycle l1 fuel s ≡ ok t → IsInvariant t
  unfolding no_dest
  cycle-IsInvariant s t v h =
      let st = cycle-Steps l1 fuel s t h in
      let f = steps-StepsFrame l1 fuel s t st v in
      ground
        (arith, st.end_step, end_cycle-IsSettled st.after_if, end_cycle_lem st.after_if f.settled)

  -- The invariant holds after any number of cycles.
  pub simulate-IsInvariant :
      (n : ℕ) (s t : Sim S) → IsInvariant s → simulate l1 fuel n s ≡ ok t → IsInvariant t
  unfolding simulate
  simulate-IsInvariant zero s t v h = ground arith
  simulate-IsInvariant (suc n) s t v h =
      let (u, a, b) = >>=-eq-ok (cycle l1 fuel s) _ h in
      simulate-IsInvariant n u t (cycle-IsInvariant s u v a) b
