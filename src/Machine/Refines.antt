-- ===== src/Machine/Refines.antt =====
-- The pipeline (`SIM::simulate` in simulation.cpp) executes instructions as the machine does.
use riscv_64i_simulator.Common.{
  ℕ, ◌≡◌, ◌≢◌, true, false, Bool, ◌||◌, Option, ok, halt, Halt, arith, if◌then◌else◌, Result, ◌>>=◌,
  >>=-eq-ok, Result-cases, Bool-cases, inl, inr, refl, ap, sym, ◌∙◌, ◌⊎◌,
}
use riscv_64i_simulator.Storage.Laws.{IsStorage}
use riscv_64i_simulator.Storage.Guards.{IsGuarded, IsBounded}
use riscv_64i_simulator.Isa.Inst.{is_jump, is_bubble, is_load}
use riscv_64i_simulator.Isa.Fields.{opcode}
use riscv_64i_simulator.Isa.Execute.{ExResult, execute}
use riscv_64i_simulator.Isa.Decode.{Decoded, decode}
use riscv_64i_simulator.Isa.Kinds.{decode-KindOf}
use riscv_64i_simulator.Isa.Operands.{decode-same}
use riscv_64i_simulator.Pipeline.Regs.{DRegion, ERegion, m_region}
use riscv_64i_simulator.Pipeline.State.{Sim, Ops}
use riscv_64i_simulator.Pipeline.Decode.{id}
use riscv_64i_simulator.Pipeline.Execute.{is_ecall}
use riscv_64i_simulator.Pipeline.Cycle.{jump_in_id, mispredicted, load_use}
use riscv_64i_simulator.Pipeline.Forwarding.{in_flight, id-in_flight, issued}
use riscv_64i_simulator.Pipeline.Frames.{fetch-frame}
use riscv_64i_simulator.Pipeline.Hazards.{end_cycle_lem}
use riscv_64i_simulator.Pipeline.Invariant.{IsInvariant, ex-ExFrame}
use riscv_64i_simulator.Pipeline.Steps.{Steps, steps-StepsFrame}
use riscv_64i_simulator.Machine.{
  Core, complete, enter, found, flat_call, flat_store, flat_load, unpredicted, next_pc, exec,
}
use riscv_64i_simulator.Machine.Abs.{retired, drained, abs, fall_through, pc_after}
use riscv_64i_simulator.Machine.Signals.{
  complete-bubble, ex-ExSignals, complete-in_flight, steps-DestsInRange,
}
use riscv_64i_simulator.Machine.Prepared.{IsPrepared, IsClean, steps-Carried}
use riscv_64i_simulator.Machine.Flow.{
  steps-Flow, pc_wrong, pc_load, pc_empty, pc_issued, pc_fetched, pc_next,
}
use riscv_64i_simulator.Machine.Cycle.{drained_lem, retired-reg}

-- What a started instruction comes to does not depend on how it was predicted.
complete-found :
    (e e' : ERegion) (r : ExResult) (c : Core)
    → e.inst ≡ e'.inst
    → e.destreg ≡ e'.destreg
    → complete (found e r) c ≡ complete (found e' r) c
unfolding complete found flat_store flat_load
complete-found e e' r c i d = rw (i, d) refl

module _ {S : Type 0} (view : S → ℕ → Option ℕ) (fuel : ℕ) where
  -- A state whose E register is empty stands for what MEM and WB come to.
  abs-empty :
      (t : Sim S) (c : Core)
      → complete t.mreg.cur (retired view t) ≡ ok c
      → is_bubble t.ereg.cur.inst ≡ true
      → abs view fuel t ≡ ok (record { core = c; pc = fall_through t })
  unfolding abs drained enter pc_after is_jump is_bubble
  abs-empty t c h b = rw (h, b, complete-bubble m_region.zeroed c refl) refl

  abs-halts :
      (t : Sim S) (u : Halt)
      → complete t.mreg.cur (retired view t) ≡ halt u
      → abs view fuel t ≡ halt u
  unfolding abs drained
  abs-halts t u h = rw h refl

  -- A state with an instruction in its E register stands for one more instruction.
  module _ (t : Sim S) (c : Core) (pc inst : ℕ) (d : Decoded) (other : ℕ) (guess : Bool)
      (h : complete t.mreg.cur (retired view t) ≡ ok c) (e : decode c.reg inst ≡ ok d)
      (b : is_bubble d.insttype ≡ false)
      (q : t.ereg.cur
        ≡ record (unpredicted pc d) { pc_not_taken = other; take_branch = guess }) where
    -- The system call of the instruction, if it is one.
    abbrev calls : Result Core
    calls = if is_ecall d.insttype then flat_call fuel c d.val_a d.val_b else ok c

    abbrev runs : Result ExResult
    runs = execute d.insttype pc d.val_a d.val_b d.offset

    drained-issued :
        drained view fuel t ≡ (runs >>= λ r. calls >>= λ called. ok (found t.ereg.cur r, called))
    unfolding drained enter
    drained-issued = rw (h, q, b) refl

    same_work :
        (r : ExResult) (u : Core)
        → complete (found t.ereg.cur r) u ≡ complete (found (unpredicted pc d) r) u
    same_work r u =
        complete-found t.ereg.cur (unpredicted pc d) r u (ap (λ (a : ERegion). a.inst) q)
          (ap (λ (a : ERegion). a.destreg) q)

    pub abs-issued :
        ((r : ExResult) → pc_after t (found t.ereg.cur r) ≡ next_pc pc inst d.insttype r)
        → abs view fuel t ≡ exec fuel inst (record { core = c; pc = pc })
    unfolding abs exec
    abs-issued n =
        rw (drained-issued, e)
          (elim (Result-cases runs) [
            | inl (r, x) ↦ rw x (elim (Result-cases calls) [
              | inl (u, y) ↦ rw (y, n r, same_work r u) refl
              | inr (u, y) ↦ rw y refl
            ])
            | inr (r, x) ↦ rw x refl
          ])

pub jump_in_id-empty : {S : Type 0} (s : Sim S) → s.dreg.cur.inst ≡ 0 → jump_in_id s ≡ false
unfolding jump_in_id opcode
jump_in_id-empty s h = rw h refl

module _ {S : Type 0} (l1 : Ops S) (view : S → ℕ → Option ℕ) (IsGood : S → Type 0)
    (st : IsStorage l1.handle view IsGood) (gd : IsGuarded l1.handle view IsGood)
    (bd : IsBounded l1.handle view IsGood) (fuel : ℕ) where
  module _ (s t : Sim S) (k : Steps l1 fuel s t) (text : ℕ → Option ℕ)
      (p : IsPrepared IsGood text s) where
    abbrev x : Sim S
    x = k.after_if

    v : IsInvariant s
    v = p.invariant

    -- What the instruction in MEM comes to in the next cycle.
    abbrev pub settled : Result Core
    settled = complete t.mreg.cur (retired view t)

    pub abs-settled :
        abs view fuel s ≡ (settled >>= λ c. ok (record { core = c; pc = pc_after s t.mreg.cur }))
    unfolding abs
    abs-settled =
        let d = drained_lem l1 view IsGood st gd bd fuel s t k v p.good p.lengths in rw d.0 refl

    module _ (c : Core) (h : settled ≡ ok c) where
      -- The operands that ID found are those in the register file by then.
      operands :
          (r : ℕ)
          → (is_load s.ereg.cur.inst ≡ false)
            ⊎ ((r ≢ s.ereg.cur.destreg) ⊎ (s.ereg.cur.destreg ≡ 0))
          → in_flight k.after_ex r ≡ c.reg r
      operands r o =
          let f = steps-Carried l1 fuel s t k v in
          let m = steps-Flow l1 fuel s t k v in
          let y = ex-ExSignals l1 fuel k.after_mem k.after_ex k.ex_step in
          let e = ex-ExFrame l1 fuel k.after_mem k.after_ex k.ex_step in
          let same : k.after_ex.ereg.cur ≡ k.after_mem.ereg.cur = cc in
          let w = retired-reg l1 view IsGood st gd bd fuel s t k v p.good p.lengths in
          let o' = rw (sym f.ex_e_cur ∙ same) at o in
          sym (
            complete-in_flight k.after_mem k.after_ex y (retired view t) c r same (rw m.m_cur at h)
              w o')

      waits :
          is_bubble t.ereg.cur.inst ≡ true
          → fall_through t ≡ pc_after s t.mreg.cur
          → abs view fuel t ≡ abs view fuel s
      waits b q = rw (abs-empty view fuel t c h b, abs-settled, h, q) refl

    -- The instruction that ID hands on.
    pub record HandedOn (d : Decoded) : Type 0 where
      pub found_word : decode (in_flight k.after_ex) s.dreg.cur.inst ≡ ok d
      pub upd : k.after_if.ereg.upd ≡ record (unpredicted s.dreg.cur.pc d) {
        pc_not_taken = s.dreg.cur.pc_not_taken;
        take_branch = s.dreg.cur.take_branch;
      }
      pub reg1 : k.after_if.d_reg1 ≡ d.reg1
      pub reg2 : k.after_if.d_reg2 ≡ d.reg2

    pub hands_on : s.dreg.cur.inst ≢ 0 → (d : Decoded) × HandedOn d
    unfolding issued
    hands_on n =
        let f = steps-Carried l1 fuel s t k v in
        let rng = steps-DestsInRange l1 fuel s t k v in
        let n' : k.after_ex.dreg.cur.inst ≢ 0 = rw f.ex_d_cur n in
        let i = id-in_flight k.after_ex rng n' in
        let (d, a, b) =
          >>=-eq-ok (decode (in_flight k.after_ex) k.after_ex.dreg.cur.inst) _
            (sym i ∙ k.id_step) in
        let q = fetch-frame l1 k.after_id k.after_if k.if_step in
        (
          d,
          record {
            found_word =
                ap (λ (c : DRegion). decode (in_flight k.after_ex) c.inst) (sym f.ex_d_cur) ∙ a;
            upd = ground (arith, b, q, f.ex_d_cur);
            reg1 = ground (arith, b, q);
            reg2 = ground (arith, b, q);
          },
        )

    -- Without a hazard, the operands that forwarding gave are those of the machine.
    same_word :
        (c : Core) (d : Decoded)
        → settled ≡ ok c
        → HandedOn d
        → load_use x ≡ false
        → decode c.reg s.dreg.cur.inst ≡ ok d
    unfolding load_use
    same_word c d h o l =
        let f = steps-StepsFrame l1 fuel s t k v in
        decode-same (in_flight k.after_ex) c.reg s.dreg.cur.inst d
          (
            operands c h d.reg1 (ground (arith, o.reg1, f.e_cur, l)),
            operands c h d.reg2 (ground (arith, o.reg2, f.e_cur, l)),
          )
          o.found_word

    -- A cycle in which ID hands on no instruction: it waits, is empty, or its word is thrown away.
    pub waits_empty :
        (s.dreg.cur.inst ≡ 0) ⊎ (mispredicted x || load_use x ≡ true)
        → is_bubble t.ereg.cur.inst ≡ true
    unfolding is_bubble id
    waits_empty o =
        let f = steps-StepsFrame l1 fuel s t k v in
        let c = steps-Carried l1 fuel s t k v in
        let q = fetch-frame l1 k.after_id k.after_if k.if_step in
        ground (arith, c.ex_d_cur, k.end_step, end_cycle_lem k.after_if f.settled, k.id_step, q, o)

    waits_pc :
        IsClean l1 view fuel text s t k
        → (s.dreg.cur.inst ≡ 0) ⊎ (mispredicted x || load_use x ≡ true)
        → fall_through t ≡ pc_after s t.mreg.cur
    waits_pc w o = elim (Bool-cases (mispredicted x)) [
      | inl m ↦ pc_wrong l1 fuel s t k v m
      | inr m ↦ elim (Bool-cases (load_use x)) [
        | inl l ↦ pc_load l1 fuel s t k v p.guided (ground (arith, w.no_lost_jump, m, l)) l
        | inr l ↦
            let n : s.dreg.cur.inst ≡ 0 = ground (arith, o, m, l) in
            let c = steps-Carried l1 fuel s t k v in
            let j = jump_in_id-empty x (ap (λ (d : DRegion). d.inst) c.d_cur ∙ n) in
            pc_fetched l1 fuel s t k v (ground (arith, j, m)) l w.no_zero
            ∙ sym (pc_empty l1 fuel s t k v n m)
      ]
    ]

    -- What a cycle with such a state comes to.
    pub cycle-waits :
        IsClean l1 view fuel text s t k
        → (s.dreg.cur.inst ≡ 0) ⊎ (mispredicted x || load_use x ≡ true)
        → abs view fuel t ≡ abs view fuel s
    cycle-waits w o = elim (Result-cases settled) [
      | inl (c, h) ↦ waits c h (waits_empty o) (waits_pc w o)
      | inr (u, h) ↦ rw (abs-halts view fuel t u h, abs-settled, h) refl
    ]

    pub handed :
        (d : Decoded)
        → HandedOn d
        → mispredicted x || load_use x ≡ false
        → t.ereg.cur ≡ record (unpredicted s.dreg.cur.pc d) {
          pc_not_taken = s.dreg.cur.pc_not_taken;
          take_branch = s.dreg.cur.take_branch;
        }
    handed d o q =
        let f = steps-StepsFrame l1 fuel s t k v in
        ground (arith, k.end_step, end_cycle_lem k.after_if f.settled, o.upd, q)

    pub cycle-issues :
        IsClean l1 view fuel text s t k
        → s.dreg.cur.inst ≢ 0
        → mispredicted x || load_use x ≡ false
        → abs view fuel t ≡ (abs view fuel s >>= exec fuel s.dreg.cur.inst)
    cycle-issues w n q = elim (Result-cases settled) [
      | inl (c, h) ↦
          let m : mispredicted x ≡ false = ground (arith, q) in
          let l : load_use x ≡ false = ground (arith, q, m) in
          let (d, o) = hands_on n in
          let e = same_word c d h o l in
          let kind = decode-KindOf c.reg s.dreg.cur.inst d e in
          let te = handed d o q in
          abs-issued view fuel t c s.dreg.cur.pc s.dreg.cur.inst d s.dreg.cur.pc_not_taken
            s.dreg.cur.take_branch h e kind.not_bubble te
            (λ r.
              pc_next l1 fuel s t k v d r p.guided n q w.no_zero kind
                (ap (λ (a : ERegion). a.inst) te) (ap (λ (a : ERegion). a.take_branch) te)
                (ap (λ (a : ERegion). a.pc_not_taken) te))
          ∙ sym (rw (abs-settled, h, pc_issued l1 fuel s t k v p.guided n m) refl)
      | inr (u, h) ↦ rw (abs-halts view fuel t u h, abs-settled, h) refl
    ]
