-- ===== src/Machine/Calls.antt =====
-- `SIM::EX` (simulation.cpp) with its system calls as the first half of an instruction of the machine.
use riscv_64i_simulator.Common.{
  ℕ, zero, suc, ◌≡◌, Option, ok, >>=-eq-ok, Bool-cases, inl, inr, arith, get_or, add64, ◌==◌,
}
use riscv_64i_simulator.Storage.{read}
use riscv_64i_simulator.Storage.Laws.{IsStorage}
use riscv_64i_simulator.Storage.Guards.{IsGuarded, IsBounded}
use riscv_64i_simulator.Isa.Inst.{is_bubble}
use riscv_64i_simulator.Isa.Execute.{execute}
use riscv_64i_simulator.Pipeline.State.{Sim, Ops, access}
use riscv_64i_simulator.Pipeline.Syscall.{print_string, syscall}
use riscv_64i_simulator.Pipeline.Execute.{ex, ex_done, ex_bubble, call_system}
use riscv_64i_simulator.Pipeline.Frames.{access-frame, call_system-frame}
use riscv_64i_simulator.Machine.{flat_print, flat_call, enter, found}
use riscv_64i_simulator.Machine.Accesses.{access-flat_read}
use riscv_64i_simulator.Machine.Stages.{core_at}

module _ {S : Type 0} (l1 : Ops S) (view : S → ℕ → Option ℕ) (IsGood : S → Type 0)
    (st : IsStorage l1.handle view IsGood) (gd : IsGuarded l1.handle view IsGood)
    (bd : IsBounded l1.handle view IsGood) (reg : ℕ → ℕ) where
  print_string-flat_print :
      (fuel : ℕ) (s t : Sim S) (a : ℕ)
      → IsGood s.storage
      → print_string l1 fuel s a ≡ ok t
      → (flat_print fuel (core_at view reg s) a ≡ ok (core_at view reg t)) × IsGood t.storage
  unfolding print_string flat_print
  print_string-flat_print zero s t a g h = cc
  print_string-flat_print (suc fuel) s t a g h =
      let (r, b, c) = >>=-eq-ok (access l1 s a (read 1)) _ h in
      let (w, x, y) = access-flat_read l1 view IsGood st gd bd s a g 1 r (omega arith) b in
      let f = access-frame l1 s a (read 1) r b in
      elim (Bool-cases (get_or r.1 0 0 == 0)) [
        | inl e ↦ let c' = (simp e at c) in ground (arith, w, x, y, f, c', e)
        | inr e ↦
            let c' = (simp e at c) in
            let (k, l) = print_string-flat_print fuel _ t (add64 a 1) y c' in
            ground (arith, w, x, f, k, l, e)
      ]

  syscall-flat_call :
      (fuel : ℕ) (s t : Sim S) (a b : ℕ)
      → IsGood s.storage
      → syscall l1 fuel s a b ≡ ok t
      → (flat_call fuel (core_at view reg s) a b ≡ ok (core_at view reg t)) × IsGood t.storage
  unfolding syscall flat_call
  syscall-flat_call fuel s t a b g h = ground (arith, print_string-flat_print fuel s t a g)

  -- EX of the instruction in its register starts it: what it finds stands in the M register, and
  -- its system call has printed what the machine prints.
  pub ex-enter :
      (fuel : ℕ) (s t : Sim S)
      → IsGood s.storage
      → ex l1 fuel s ≡ ok t
      → (enter fuel s.ereg.cur (core_at view reg s) ≡ ok (t.mreg.upd, core_at view reg t))
        × IsGood t.storage
  unfolding ex enter ex_done ex_bubble found call_system
  ex-enter fuel s t g h = elim (Bool-cases (is_bubble s.ereg.cur.inst)) [
    | inl e ↦ ground (arith, g, h, e)
    | inr e ↦
        let (r, a, b) =
          >>=-eq-ok
            (execute s.ereg.cur.inst s.ereg.cur.pc s.ereg.cur.val_a s.ereg.cur.val_b
              s.ereg.cur.offset)
            _ (simp e at h) in
        let (u, c, d) = >>=-eq-ok (call_system l1 fuel s) _ b in
        let k = syscall-flat_call fuel s u s.ereg.cur.val_a s.ereg.cur.val_b g in
        ground (arith, e, a, g, k, c, d, call_system-frame l1 fuel s u c)
  ]
