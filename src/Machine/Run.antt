-- ===== src/Machine/Run.antt =====
-- Any number of cycles of the pipeline (`SIM::simulate` in simulation.cpp).
use riscv_64i_simulator.Common.{
  ℕ, zero, suc, ◌≡◌, ◌≢◌, true, false, Bool, ◌||◌, Option, ok, ◌>>=◌, >>=_assoc, >>=_ok, refl, ap,
  sym, ◌∙◌, inl, inr, ◌==◌, not, ◌&&◌, if◌then◌else◌, Bool-cases, arith, Result-cases,
}
use riscv_64i_simulator.Storage.Laws.{IsStorage}
use riscv_64i_simulator.Storage.Guards.{IsGuarded, IsBounded}
use riscv_64i_simulator.Pipeline.Regs.{DRegion}
use riscv_64i_simulator.Pipeline.State.{Sim, Ops}
use riscv_64i_simulator.Pipeline.Cycle.{simulate, jump_in_id, mispredicted, load_use}
use riscv_64i_simulator.Pipeline.Steps.{Steps-cycle, Steps, cycle-IsInvariant}
use riscv_64i_simulator.Machine.{exec, word_at, step, run}
use riscv_64i_simulator.Machine.Abs.{abs}
use riscv_64i_simulator.Machine.Prepared.{
  IsPrepared, IsClean, steps-Carried, fetch-Fetched, kept, moved, emptied, steps-IsGuided,
}
use riscv_64i_simulator.Machine.Cycle.{drained_lem, fetched_word}
use riscv_64i_simulator.Machine.Flow.{pc_issued}
use riscv_64i_simulator.Machine.Refines.{cycle-waits, cycle-issues, abs-settled, settled}

-- Whether ID hands an instruction on to EX at the end of the cycle.
unfoldable pub issues : {S : Type 0} → Sim S → Bool
issues x = not (x.dreg.cur.inst == 0) && not (mispredicted x || load_use x)

module _ {S : Type 0} (l1 : Ops S) (view : S → ℕ → Option ℕ) (fuel : ℕ) where
  -- A run of the pipeline in which IF fetches no word that is 0 or overwritten and no jump is thrown
  -- away in ID, with the number of its cycles and that of the instructions handed on.
  pub data Runs (text : ℕ → Option ℕ) : ℕ → ℕ → Sim S → Sim S → Type 0 where
    stopped : {s : Sim S} → Runs text zero zero s s
    waited :
        {c n : ℕ} {s t u : Sim S} (k : Steps l1 fuel s t)
        → IsClean l1 view fuel text s t k
        → issues k.after_if ≡ false
        → Runs text c n t u
        → Runs text (suc c) n s u
    issued_one :
        {c n : ℕ} {s t u : Sim S} (k : Steps l1 fuel s t)
        → IsClean l1 view fuel text s t k
        → issues k.after_if ≡ true
        → Runs text c n t u
        → Runs text (suc c) (suc n) s u

  -- Such a run is one of the loop.
  pub Runs-simulate :
      (text : ℕ → Option ℕ) (c n : ℕ) (s t : Sim S)
      → Runs text c n s t
      → simulate l1 fuel c s ≡ ok t
  unfolding simulate
  Runs-simulate text c n s t stopped = refl
  Runs-simulate text (suc c) n s t (waited {t = u} k w e r) =
      rw (Steps-cycle l1 fuel s u k) (Runs-simulate text c n u t r)
  Runs-simulate text (suc c) (suc n) s t (issued_one {t = u} k w e r) =
      rw (Steps-cycle l1 fuel s u k) (Runs-simulate text c n u t r)

module _ {S : Type 0} (l1 : Ops S) (view : S → ℕ → Option ℕ) (IsGood : S → Type 0)
    (st : IsStorage l1.handle view IsGood) (gd : IsGuarded l1.handle view IsGood)
    (bd : IsBounded l1.handle view IsGood) (fuel : ℕ) where
  module _ (text : ℕ → Option ℕ) (s t : Sim S) (k : Steps l1 fuel s t)
      (p : IsPrepared IsGood text s) (w : IsClean l1 view fuel text s t k) where
    steps-of_text : t.dreg.cur.inst ≢ 0 → word_at text t.dreg.cur.pc ≡ ok t.dreg.cur.inst
    steps-of_text n =
        let v = p.invariant in
        let f = fetch-Fetched l1 k.after_id k.after_if k.if_step in
        elim (Bool-cases (jump_in_id k.after_if || mispredicted k.after_if)) [
          | inl e ↦ absurd (n (emptied l1 fuel s t k v e))
          | inr e ↦ elim (Bool-cases (load_use k.after_if)) [
            | inl l ↦
                let (x, y) = kept l1 fuel s t k v e l in
                rw x (p.of_text (λ z. n (ap (λ (d : DRegion). d.inst) x ∙ z)))
            | inr l ↦
                let (x, y) = moved l1 fuel s t k v e l in
                rw (x, f.pc)
                  (sym w.same_text
                    ∙ fetched_word l1 view IsGood st gd bd fuel s t k v p.good p.lengths)
          ]
        ]

    -- A cycle that succeeds keeps what the machine asks of a state.
    pub steps-IsPrepared : IsPrepared IsGood text t
    steps-IsPrepared =
        let d = drained_lem l1 view IsGood st gd bd fuel s t k p.invariant p.good p.lengths in
        record {
          invariant = cycle-IsInvariant l1 fuel s t p.invariant (Steps-cycle l1 fuel s t k);
          good = d.1;
          lengths = d.2;
          guided = steps-IsGuided l1 fuel s t k p.invariant p.guided;
          of_text = steps-of_text;
        }

    -- The word that ID hands on is the next instruction of the text.
    exec-step :
        s.dreg.cur.inst ≢ 0
        → mispredicted k.after_if ≡ false
        → (abs view fuel s >>= exec fuel s.dreg.cur.inst) ≡ (abs view fuel s >>= step fuel text)
    unfolding step
    exec-step n m =
        let a = abs-settled l1 view IsGood st gd bd fuel s t k text p in
        elim (Result-cases (settled l1 view IsGood st gd bd fuel s t k text p)) [
          | inl (c, h) ↦
              rw (a, h, pc_issued l1 fuel s t k p.invariant p.guided n m, p.of_text n) refl
          | inr (u, h) ↦ rw (a, h) refl
        ]

    -- Over any storage that keeps its promises and answers no other requests, one cycle of the
    -- pipeline from a state that satisfies the invariants, in which IF fetches no word that is 0 or
    -- that differs from the text, and no jump is thrown away in ID: where ID hands an instruction
    -- on to EX, the state afterwards stands for one more instruction of the text, and where it does
    -- not, for as many as before.
    pub cycle-step :
        abs view fuel t
        ≡ (if issues k.after_if then abs view fuel s >>= step fuel text else abs view fuel s)
    unfolding issues
    cycle-step =
        let c = steps-Carried l1 fuel s t k p.invariant in
        let here = ap (λ (d : DRegion). d.inst) c.d_cur in
        elim (Bool-cases (k.after_if.dreg.cur.inst == 0)) [
          | inl e ↦ rw e (
              cycle-waits l1 view IsGood st gd bd fuel s t k text p w
                (inl (ground (arith, e, here))))
          | inr e ↦ elim (Bool-cases (mispredicted k.after_if || load_use k.after_if)) [
            | inl l ↦ rw (e, l) (cycle-waits l1 view IsGood st gd bd fuel s t k text p w (inr l))
            | inr l ↦
                let n : s.dreg.cur.inst ≢ 0 = ground (arith, e, here) in
                rw (e, l)
                  (cycle-issues l1 view IsGood st gd bd fuel s t k text p w n l
                    ∙ exec-step n (ground (arith, l)))
          ]
        ]

  -- After any number of such cycles from a state that satisfies the invariants, the state stands
  -- for the machine after as many instructions of the text as ID has handed on, and satisfies them.
  pub Runs-run :
      (text : ℕ → Option ℕ) (c n : ℕ) (s t : Sim S)
      → IsPrepared IsGood text s
      → Runs l1 view fuel text c n s t
      → (abs view fuel t ≡ (abs view fuel s >>= run fuel text n)) × IsPrepared IsGood text t
  unfolding run
  Runs-run text c n s t p stopped = (sym (>>=_ok (abs view fuel s)), p)
  Runs-run text (suc c) n s t p (waited {t = u} k w e r) =
      let (x, y) = Runs-run text c n u t (steps-IsPrepared text s u k p w) r in
      (x ∙ ap (λ a. a >>= run fuel text n) (rw e at (cycle-step text s u k p w)), y)
  Runs-run text (suc c) (suc n) s t p (issued_one {t = u} k w e r) =
      let (x, y) = Runs-run text c n u t (steps-IsPrepared text s u k p w) r in
      (
        x
            ∙ ap (λ a. a >>= run fuel text n) (rw e at (cycle-step text s u k p w))
            ∙ >>=_assoc (abs view fuel s) (step fuel text) (run fuel text n),
        y,
      )
