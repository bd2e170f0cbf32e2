-- ===== src/Machine/Progress.antt =====
-- The pipeline (`SIM::simulate` in simulation.cpp) gets on: how many cycles an instruction takes.
use riscv_64i_simulator.Common.{
  ℕ, suc, ◌+◌, ◌*◌, ◌≤◌, ◌≡◌, true, false, Option, arith, ◌==◌, if◌then◌else◌, ap, ◌∙◌, Bool-cases,
  inl, inr,
}
use riscv_64i_simulator.Storage.Laws.{IsStorage}
use riscv_64i_simulator.Storage.Guards.{IsGuarded, IsBounded}
use riscv_64i_simulator.Isa.Inst.{InstType, is_bubble, is_branch, is_load}
use riscv_64i_simulator.Pipeline.Regs.{DRegion}
use riscv_64i_simulator.Pipeline.State.{Sim, Ops}
use riscv_64i_simulator.Pipeline.Cycle.{mispredicted, load_use}
use riscv_64i_simulator.Pipeline.Steps.{Steps, steps-StepsFrame}
use riscv_64i_simulator.Machine.Prepared.{IsPrepared, IsClean, steps-Carried, moved}
use riscv_64i_simulator.Machine.Refines.{waits_empty, jump_in_id-empty}
use riscv_64i_simulator.Machine.Run.{issues, Runs, stopped, waited, issued_one, steps-IsPrepared}

-- How many cycles may pass before ID hands an instruction on.
slack : {S : Type 0} → Sim S → ℕ
slack s = if is_bubble s.ereg.cur.inst then (if s.dreg.cur.inst == 0 then 1 else 0) else 2

slack-le : {S : Type 0} (s : Sim S) → slack s ≤ 2
unfolding slack
slack-le s = ground arith

bubble-kinds : (t : InstType) → is_bubble t ≡ true → (is_branch t ≡ false) × (is_load t ≡ false)
unfolding is_bubble is_branch is_load
bubble-kinds t h = ground arith

module _ {S : Type 0} (l1 : Ops S) (view : S → ℕ → Option ℕ) (IsGood : S → Type 0)
    (st : IsStorage l1.handle view IsGood) (gd : IsGuarded l1.handle view IsGood)
    (bd : IsBounded l1.handle view IsGood) (fuel : ℕ) where
  -- An empty EX makes nothing wait.
  no_hazard :
      (text : ℕ → Option ℕ) (s t : Sim S) (k : Steps l1 fuel s t)
      → IsPrepared IsGood text s
      → is_bubble s.ereg.cur.inst ≡ true
      → (mispredicted k.after_if ≡ false) × (load_use k.after_if ≡ false)
  unfolding mispredicted load_use
  no_hazard text s t k p m =
      let f = steps-StepsFrame l1 fuel s t k p.invariant in
      ground (arith, f.e_cur, bubble-kinds s.ereg.cur.inst m)

  -- A cycle that hands nothing on uses up slack.
  slack-waits :
      (text : ℕ → Option ℕ) (s t : Sim S) (k : Steps l1 fuel s t)
      → IsPrepared IsGood text s
      → IsClean l1 view fuel text s t k
      → issues k.after_if ≡ false
      → slack t + 1 ≤ slack s
  unfolding slack issues
  slack-waits text s t k p w e =
      let v = p.invariant in
      let c = steps-Carried l1 fuel s t k v in
      let here : k.after_if.dreg.cur.inst ≡ s.dreg.cur.inst =
        ap (λ (d : DRegion). d.inst) c.d_cur in
      let b = waits_empty l1 view IsGood st gd bd fuel s t k text p (ground (arith, e, here)) in
      elim (Bool-cases (is_bubble s.ereg.cur.inst)) [
        | inl m ↦
            let (q, l) = no_hazard text s t k p m in
            let n : s.dreg.cur.inst ≡ 0 = ground (arith, e, here, q, l) in
            let j = jump_in_id-empty k.after_if (here ∙ n) in
            let (x, y) = moved l1 fuel s t k v (ground (arith, j, q)) l in
            ground (arith, x, w.no_zero, b, m, n)
        | inr m ↦ ground (arith, b, m)
      ]

  Runs-slack :
      (text : ℕ → Option ℕ) (c n : ℕ) (s t : Sim S)
      → IsPrepared IsGood text s
      → Runs l1 view fuel text c n s t
      → c ≤ n * 3 + slack s
  Runs-slack text c n s t p stopped = omega arith
  Runs-slack text (suc c) n s t p (waited {t = u} k w e r) =
      let q = steps-IsPrepared l1 view IsGood st gd bd fuel text s u k p w in
      omega (arith, Runs-slack text c n u t q r, slack-waits text s u k p w e)
  Runs-slack text (suc c) (suc n) s t p (issued_one {t = u} k w e r) =
      let q = steps-IsPrepared l1 view IsGood st gd bd fuel text s u k p w in
      omega (arith, Runs-slack text c n u t q r, slack-le u)

  -- From a state that satisfies the invariants, a run of the pipeline in which IF fetches no word
  -- that is 0 or that differs from the text, and no jump is thrown away in ID, has at most three
  -- cycles for each instruction that ID hands on to EX, and two more.
  pub Runs-progress :
      (text : ℕ → Option ℕ) (c n : ℕ) (s t : Sim S)
      → IsPrepared IsGood text s
      → Runs l1 view fuel text c n s t
      → c ≤ n * 3 + 2
  Runs-progress text c n s t p r = omega (arith, Runs-slack text c n s t p r, slack-le s)
