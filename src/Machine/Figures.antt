-- ===== src/Machine/Figures.antt =====
-- The figures that `SIM::simulate` (simulation.cpp) counts, against the cycles and the instructions
-- of a run.
use riscv_64i_simulator.Common.{
  ℕ, suc, ◌+◌, ◌*◌, ◌≤◌, ◌≡◌, true, false, ◌||◌, Option, ◌⊎◌, Bool, arith, ◌==◌, if◌then◌else◌, ap,
  ◌∙◌, Bool-cases, inl, inr, refl, ok, >>=-eq-ok,
}
use riscv_64i_simulator.Storage.Laws.{IsStorage}
use riscv_64i_simulator.Storage.Guards.{IsGuarded, IsBounded}
use riscv_64i_simulator.Isa.Inst.{is_bubble, is_branch, is_load, InstType}
use riscv_64i_simulator.Isa.Kinds.{decode-KindOf}
use riscv_64i_simulator.Pipeline.Regs.{DRegion, ERegion}
use riscv_64i_simulator.Pipeline.State.{Sim, Ops}
use riscv_64i_simulator.Pipeline.Cycle.{mispredicted, load_use, jump_in_id}
use riscv_64i_simulator.Pipeline.Execute.{ex, ex_done, ex_bubble, call_system}
use riscv_64i_simulator.Isa.Execute.{execute}
use riscv_64i_simulator.Pipeline.Invariant.{ex-ExFrame}
use riscv_64i_simulator.Pipeline.Frames.{call_system-frame}
use riscv_64i_simulator.Pipeline.Steps.{Steps}
use riscv_64i_simulator.Pipeline.Tally.{steps-Counted}
use riscv_64i_simulator.Pipeline.Forwarding.{in_flight}
use riscv_64i_simulator.Machine.Prepared.{IsPrepared, IsClean, steps-Carried, moved, kept, emptied}
use riscv_64i_simulator.Machine.Refines.{waits_empty, jump_in_id-empty, hands_on, handed}
use riscv_64i_simulator.Machine.Flow.{steps-Flow, load_use-inst}
use riscv_64i_simulator.Machine.Run.{issues, Runs, stopped, waited, issued_one, steps-IsPrepared}

-- The instructions that ID has handed on and MEM has not counted yet.
unfoldable pub uncounted : {S : Type 0} → Sim S → ℕ
uncounted s =
    (if is_bubble s.ereg.cur.inst then 0 else 1) + (if is_bubble s.mreg.cur.inst then 0 else 1)

-- Whether ID has no word.
unfoldable pub id_waits : {S : Type 0} → Sim S → ℕ
id_waits s = if s.dreg.cur.inst == 0 then 1 else 0

branch-not_load : (t : InstType) → is_branch t ≡ true → is_load t ≡ false
unfolding is_branch is_load
branch-not_load t h = ground arith

one_hazard : {S : Type 0} (x : Sim S) → mispredicted x ≡ true → load_use x ≡ false
unfolding mispredicted load_use
one_hazard x h = ground (arith, branch-not_load x.ereg.cur.inst)

ex-kind :
    {S : Type 0} (l1 : Ops S) (fuel : ℕ) (s t : Sim S)
    → ex l1 fuel s ≡ ok t
    → is_bubble t.mreg.upd.inst ≡ is_bubble s.ereg.cur.inst
unfolding ex ex_done ex_bubble is_bubble
ex-kind l1 fuel s t h = elim (Bool-cases (is_bubble s.ereg.cur.inst)) [
  | inl e ↦ ground (arith, e, h)
  | inr e ↦
      let (r, a, b) = >>=-eq-ok (execute s.ereg.cur.inst _ _ _ _) _ (simp e at h) in
      let (u, c, d) = >>=-eq-ok (call_system l1 fuel s) _ b in
      ground (arith, e, d, call_system-frame l1 fuel s u c)
]

-- The figures of a run from `s` to `t`: its cycles, the instructions that MEM has counted or that
-- are on their way to it, and what the cycles beyond one for each instruction were lost to.
pub record Figures {S : Type 0} (c n : ℕ) (s t : Sim S) : Type 0 where
  pub cycles : t.counters.pipeline_cycle_cnt ≡ s.counters.pipeline_cycle_cnt + c
  pub instructions : t.counters.inst_cnt + uncounted t ≡ s.counters.inst_cnt + uncounted s + n
  pub least :
      n + t.counters.loaduse_cnt + t.counters.cnt_j + t.counters.mispredict + id_waits s
      ≤ c + id_waits t + (s.counters.loaduse_cnt + s.counters.cnt_j + s.counters.mispredict)
  pub most :
      c + id_waits t + (s.counters.loaduse_cnt + s.counters.cnt_j + 2 * s.counters.mispredict)
      ≤ n + t.counters.loaduse_cnt + t.counters.cnt_j + 2 * t.counters.mispredict + id_waits s

module _ {S : Type 0} (l1 : Ops S) (view : S → ℕ → Option ℕ) (IsGood : S → Type 0)
    (st : IsStorage l1.handle view IsGood) (gd : IsGuarded l1.handle view IsGood)
    (bd : IsBounded l1.handle view IsGood) (fuel : ℕ) where
  module _ (text : ℕ → Option ℕ) (s t : Sim S) (k : Steps l1 fuel s t)
      (p : IsPrepared IsGood text s) (w : IsClean l1 view fuel text s t k) where
    here : k.after_if.dreg.cur.inst ≡ s.dreg.cur.inst
    here = ap (λ (d : DRegion). d.inst) (steps-Carried l1 fuel s t k p.invariant).d_cur

    issues-not_bubble : is_bubble t.ereg.cur.inst ≡ (if issues k.after_if then false else true)
    unfolding issues
    issues-not_bubble = elim (Bool-cases (k.after_if.dreg.cur.inst == 0)) [
      | inl e ↦ rw e (not_issued (inl (ground (arith, e, here))))
      | inr e ↦ elim (Bool-cases (mispredicted k.after_if || load_use k.after_if)) [
        | inl l ↦ rw (e, l) (not_issued (inr l))
        | inr l ↦
            let (d, o) =
              hands_on l1 view IsGood st gd bd fuel s t k text p (ground (arith, e, here)) in
            let kind = decode-KindOf (in_flight k.after_ex) s.dreg.cur.inst d o.found_word in
            let te = handed l1 view IsGood st gd bd fuel s t k text p d o l in
            rw (e, l) (ap (λ (r : ERegion). is_bubble r.inst) te ∙ kind.not_bubble)
      ]
    ]
      where
        not_issued :
            (s.dreg.cur.inst ≡ 0) ⊎ (mispredicted k.after_if || load_use k.after_if ≡ true)
            → is_bubble t.ereg.cur.inst ≡ true
        not_issued = waits_empty l1 view IsGood st gd bd fuel s t k text p

    ex_kind : is_bubble t.mreg.cur.inst ≡ is_bubble s.ereg.cur.inst
    ex_kind =
        let f = steps-Flow l1 fuel s t k p.invariant in
        let c = steps-Carried l1 fuel s t k p.invariant in
        let e = ex-kind l1 fuel k.after_mem k.after_ex k.ex_step in
        let x = ex-ExFrame l1 fuel k.after_mem k.after_ex k.ex_step in
        ground (arith, f.m_cur, e, x.frame, c.ex_e_cur)

    steps-uncounted :
        t.counters.inst_cnt + uncounted t
        ≡ s.counters.inst_cnt + uncounted s + (if issues k.after_if then 1 else 0)
    unfolding uncounted
    steps-uncounted =
        let c = steps-Counted l1 fuel s t k in
        ground (arith, c.instructions, issues-not_bubble, ex_kind)

    abbrev jump : Bool
    jump = jump_in_id k.after_if

    abbrev wrong : Bool
    wrong = mispredicted k.after_if

    abbrev load : Bool
    load = load_use k.after_if

    id_waits-after : id_waits t ≡ (if jump || wrong then 1 else if load then id_waits s else 0)
    unfolding id_waits
    id_waits-after = elim (Bool-cases (jump || wrong)) [
      | inl e ↦ rw (e, emptied l1 fuel s t k p.invariant e) refl
      | inr e ↦ elim (Bool-cases load) [
        | inl l ↦ rw (e, l, (kept l1 fuel s t k p.invariant e l).0) refl
        | inr l ↦ ground (arith, e, l, w.no_zero, (moved l1 fuel s t k p.invariant e l).0)
      ]
    ]

    -- A cycle is one instruction handed on, or it is lost to a hazard or to the beginning.
    record Accounted : Type 0 where
      least :
          (if issues k.after_if then 1 else 0)
            + (if load then 1 else 0)
            + (if jump then 1 else 0)
            + (if wrong then 1 else 0)
            + id_waits s
          ≤ 1 + id_waits t
      most :
          1 + id_waits t
          ≤ (if issues k.after_if then 1 else 0)
            + (if load then 1 else 0)
            + (if jump then 1 else 0)
            + (if wrong then 2 else 0)
            + id_waits s

    steps-Accounted : Accounted
    unfolding issues id_waits
    steps-Accounted = ground (
      arith,
      here,
      id_waits-after,
      w.no_lost_jump,
      one_hazard k.after_if,
      load_use-inst l1 fuel s t k p.invariant,
      jump_in_id-empty k.after_if,
    )

  pub Runs-Figures :
      (text : ℕ → Option ℕ) (c n : ℕ) (s t : Sim S)
      → IsPrepared IsGood text s
      → Runs l1 view fuel text c n s t
      → Figures c n s t
  Runs-Figures text c n s t p stopped = ground arith
  Runs-Figures text (suc c) n s t p (waited {t = u} k w e r) =
      let q = steps-IsPrepared l1 view IsGood st gd bd fuel text s u k p w in
      let f = Runs-Figures text c n u t q r in
      let a = steps-Accounted text s u k p w in
      let b = steps-Counted l1 fuel s u k in
      let i = steps-uncounted text s u k p w in ground (arith, f, a, b, i, e)
  Runs-Figures text (suc c) (suc n) s t p (issued_one {t = u} k w e r) =
      let q = steps-IsPrepared l1 view IsGood st gd bd fuel text s u k p w in
      let f = Runs-Figures text c n u t q r in
      let a = steps-Accounted text s u k p w in
      let b = steps-Counted l1 fuel s u k in
      let i = steps-uncounted text s u k p w in ground (arith, f, a, b, i, e)
