-- ===== src/Machine/Drive.antt =====
-- A run of the pipeline (`SIM::simulate` in simulation.cpp) that checks on the way what the machine
-- asks of it.
use riscv_64i_simulator.Common.{
  ℕ, zero, suc, ◌≡◌, true, false, Bool, ◌&&◌, ◌||◌, not, Option, Result, ok, halt, undefined, ◌>>=◌,
  >>=-eq-ok, ◌==◌, if◌then◌else◌, arith, sym, ◌∙◌, refl, ap,
}
use riscv_64i_simulator.Pipeline.State.{Sim, Ops}
use riscv_64i_simulator.Pipeline.Fetch.{fetch, select_pc}
use riscv_64i_simulator.Pipeline.Decode.{id}
use riscv_64i_simulator.Pipeline.Execute.{ex}
use riscv_64i_simulator.Pipeline.Memory.{mem}
use riscv_64i_simulator.Pipeline.WriteBack.{wb}
use riscv_64i_simulator.Pipeline.Cycle.{start_cycle, end_cycle, jump_in_id, load_use}
use riscv_64i_simulator.Pipeline.Steps.{Steps}
use riscv_64i_simulator.Machine.{word_at}
use riscv_64i_simulator.Machine.Accesses.{bytes}
use riscv_64i_simulator.Machine.Prepared.{IsClean}
use riscv_64i_simulator.Machine.Run.{issues, Runs, stopped, waited, issued_one}

-- What a check has let through.
let_through {ℓ} :
    {A : Type ℓ} (refused : Bool) (a r : A)
    → (if refused then halt undefined else ok a) ≡ ok r
    → (refused ≡ false) × (a ≡ r)
let_through true a r h = cc
let_through false a r h = (refl, cc)

let_pass :
    (zero_word lost : Bool) (v w : ℕ)
    → zero_word || (lost || not (v == w)) ≡ false
    → (zero_word ≡ false) × (lost ≡ false) × (v ≡ w)
let_pass zero_word lost v w h = ground arith

-- Results are equal only where their values are.
ok-injective {ℓ} : {A : Type ℓ} (a b : A) → ok a ≡ ok b → a ≡ b
ok-injective a b h = cc

module _ {S : Type 0} (l1 : Ops S) (view : S → ℕ → Option ℕ) (fuel : ℕ) (text : ℕ → Option ℕ) where
  -- One cycle, and whether it hands an instruction on.
  unfoldable pub checked_cycle : Sim S → Result (Bool × Sim S)
  checked_cycle s = do
    a ← mem l1 (wb (start_cycle s))
    b ← ex l1 fuel a
    c ← id b
    d ← fetch l1 c
    shown ← word_at (bytes view c) (select_pc c)
    meant ← word_at text (select_pc c)
    if (d.dreg.upd.inst == 0) || ((jump_in_id d && load_use d) || not (shown == meant))
        then halt undefined
        else ok (issues d, end_cycle d)

  -- So many cycles, with the number of instructions handed on.
  unfoldable pub drive : ℕ → Sim S → Result (ℕ × Sim S)
  drive zero s = ok (0, s)
  drive (suc c) s = do
    first ← checked_cycle s
    rest ← drive c first.1
    ok (if first.0 then suc rest.0 else rest.0, rest.1)

  pub checked_cycle-IsClean :
      (s : Sim S) (r : Bool × Sim S)
      → checked_cycle s ≡ ok r
      → (k : Steps l1 fuel s r.1) × IsClean l1 view fuel text s r.1 k × (issues k.after_if ≡ r.0)
  unfolding checked_cycle
  checked_cycle-IsClean s r h =
      let (a, h₁, x₁) = >>=-eq-ok (mem l1 (wb (start_cycle s))) _ h in
      let (b, h₂, x₂) = >>=-eq-ok (ex l1 fuel a) _ x₁ in
      let (c, h₃, x₃) = >>=-eq-ok (id b) _ x₂ in
      let (d, h₄, x₄) = >>=-eq-ok (fetch l1 c) _ x₃ in
      let (v, h₅, x₅) = >>=-eq-ok (word_at (bytes view c) (select_pc c)) _ x₄ in
      let (w, h₆, x₆) = >>=-eq-ok (word_at text (select_pc c)) _ x₅ in
      let (y, z) = let_through _ (issues d, end_cycle d) r x₆ in
      let (e, l, same_words) = let_pass (d.dreg.upd.inst == 0) (jump_in_id d && load_use d) v w y in
      (
        record {
          after_mem = a;
          after_ex = b;
          after_id = c;
          after_if = d;
          mem_step = h₁;
          ex_step = h₂;
          id_step = h₃;
          if_step = h₄;
          end_step = sym (ap (λ (q : Bool × Sim S). q.1) z);
        },
        record {
          no_zero = λ n. ground (arith, e, n);
          no_lost_jump = l;
          same_text = h₅ ∙ ap ok same_words ∙ sym h₆;
        },
        ap (λ (q : Bool × Sim S). q.0) z,
      )

  one_more :
      {c n : ℕ} {s t u : Sim S} (k : Steps l1 fuel s t)
      → IsClean l1 view fuel text s t k
      → (b : Bool) → issues k.after_if ≡ b
      → Runs l1 view fuel text c n t u
      → Runs l1 view fuel text (suc c) (if b then suc n else n) s u
  one_more k w true e r = issued_one k w e r
  one_more k w false e r = waited k w e r

  -- A run that passes the checks is such a run of the pipeline.
  pub drive-Runs :
      (c : ℕ) (s : Sim S) (r : ℕ × Sim S) → drive c s ≡ ok r → Runs l1 view fuel text c r.0 s r.1
  unfolding drive
  drive-Runs zero s r h = rw (← ok-injective (0, s) r h) stopped
  drive-Runs (suc c) s r h =
      let (f, a, x) = >>=-eq-ok (checked_cycle s) _ h in
      let (q, b, y) = >>=-eq-ok (drive c f.1) _ x in
      let (k, w, i) = checked_cycle-IsClean s f a in
      rw (← ok-injective (if f.0 then suc q.0 else q.0, q.1) r y)
        (one_more k w f.0 i (drive-Runs c f.1 q b))
