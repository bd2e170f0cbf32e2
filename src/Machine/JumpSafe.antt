-- ===== src/Machine/JumpSafe.antt =====
-- Programs of which the pipeline (`SIM::simulate` in simulation.cpp) throws no jump away.
use riscv_64i_simulator.Common.{
  ℕ, zero, suc, ◌≡◌, ◌≢◌, true, false, Bool, ◌||◌, ◌&&◌, Option, ok, >>=-eq-ok, refl, ◌∙◌, inl, inr,
  ◌==◌, Bool-cases, arith, add64,
}
use riscv_64i_simulator.Isa.Inst.{is_load, op_load, op_jal, op_jalr, no_reg}
use riscv_64i_simulator.Isa.Fields.{opcode, rd, rs1}
use riscv_64i_simulator.Isa.Decode.{decode}
use riscv_64i_simulator.Isa.Loads.{decode-IsLoadOf, decode-JumpReads}
use riscv_64i_simulator.Pipeline.State.{Sim, Ops}
use riscv_64i_simulator.Pipeline.Fetch.{select_pc}
use riscv_64i_simulator.Pipeline.Decode.{id}
use riscv_64i_simulator.Pipeline.Cycle.{jump_in_id, mispredicted, load_use}
use riscv_64i_simulator.Pipeline.Frames.{fetch-frame}
use riscv_64i_simulator.Pipeline.Hazards.{end_cycle_lem}
use riscv_64i_simulator.Pipeline.Steps.{Steps, steps-StepsFrame}
use riscv_64i_simulator.Machine.{word_at}
use riscv_64i_simulator.Machine.Accesses.{bytes}
use riscv_64i_simulator.Machine.Prepared.{
  IsPrepared, IsClean, steps-Carried, fetch-Fetched, moved, emptied,
}
use riscv_64i_simulator.Storage.Laws.{IsStorage}
use riscv_64i_simulator.Storage.Guards.{IsGuarded, IsBounded}
use riscv_64i_simulator.Machine.Run.{Runs, stopped, waited, issued_one, issues, steps-IsPrepared}
use riscv_64i_simulator.Machine.Flow.{steps-Flow, predict-plain, load-no_dest, load_use-inst}

-- Behind no load of the text stands a JALR to the address that it loads.
pub record IsJumpSafe (text : ℕ → Option ℕ) : Type 0 where
  pub apart :
      (pc w v : ℕ)
      → word_at text pc ≡ ok w
      → word_at text (add64 pc 4) ≡ ok v
      → opcode w ≡ op_load
      → opcode v ≡ op_jalr
      → rd w ≢ 0
      → rs1 v ≢ rd w

module _ {S : Type 0} where
  -- What ID makes of a load and of a jump.
  id-load :
      (s t : Sim S)
      → id s ≡ ok t
      → is_load t.ereg.upd.inst ≡ true
      → (s.dreg.cur.inst ≢ 0)
        × (opcode s.dreg.cur.inst ≡ op_load)
        × (t.ereg.upd.destreg ≡ rd s.dreg.cur.inst)
        × (t.ereg.upd.pc ≡ s.dreg.cur.pc)
  unfolding id is_load
  id-load s t h l = elim (Bool-cases (s.dreg.cur.inst == 0)) [
    | inl e ↦ ground arith
    | inr e ↦
        let (d, a, b) = >>=-eq-ok (decode s.reg s.dreg.cur.inst) _ (simp e at h) in
        let k = decode-IsLoadOf s.reg s.dreg.cur.inst d a in ground (arith, b, e, k)
  ]

  pub id-jump_reads :
      (s t : Sim S)
      → id s ≡ ok t
      → s.dreg.cur.inst ≢ 0
      → (opcode s.dreg.cur.inst ≡ op_jal → (t.d_reg1 ≡ no_reg) × (t.d_reg2 ≡ no_reg))
        × (opcode s.dreg.cur.inst ≡ op_jalr
            → (t.d_reg1 ≡ rs1 s.dreg.cur.inst) × (t.d_reg2 ≡ no_reg))
  unfolding id
  id-jump_reads s t h n = elim (Bool-cases (s.dreg.cur.inst == 0)) [
    | inl e ↦ ground arith
    | inr e ↦
        let (d, a, b) = >>=-eq-ok (decode s.reg s.dreg.cur.inst) _ (simp e at h) in
        let k = decode-JumpReads s.reg s.dreg.cur.inst d a in ground (arith, b, e, k)
  ]

  -- A load in EX is one of the text, and the word in ID is the one behind it.
  pub record IsFollowed (text : ℕ → Option ℕ) (s : Sim S) : Type 0 where
    pub load_word :
        is_load s.ereg.cur.inst ≡ true
        → (w : ℕ) × (word_at text s.ereg.cur.pc ≡ ok w)
          × (opcode w ≡ op_load)
          × (s.ereg.cur.destreg ≡ rd w)
    pub behind :
        is_load s.ereg.cur.inst ≡ true → s.dreg.cur.inst ≢ 0 → s.dreg.cur.pc ≡ add64 s.ereg.cur.pc 4

module _ {S : Type 0} (l1 : Ops S) (IsGood : S → Type 0) (fuel : ℕ) (text : ℕ → Option ℕ)
    (s t : Sim S) (k : Steps l1 fuel s t) (p : IsPrepared IsGood text s) where
  -- The load and the jump that the hazards see.
  record Clash : Type 0 where
    load : is_load s.ereg.cur.inst ≡ true
    dest : s.ereg.cur.destreg ≢ 0
    word : s.dreg.cur.inst ≢ 0
    code : opcode s.dreg.cur.inst ≡ op_jalr
    base : rs1 s.dreg.cur.inst ≡ s.ereg.cur.destreg

  clash : jump_in_id k.after_if ≡ true → load_use k.after_if ≡ true → Clash
  unfolding jump_in_id load_use
  clash j l =
      let v = p.invariant in
      let c = steps-Carried l1 fuel s t k v in
      let f = steps-StepsFrame l1 fuel s t k v in
      let q = fetch-frame l1 k.after_id k.after_if k.if_step in
      let i = load_use-inst l1 fuel s t k v l in
      let r = id-jump_reads k.after_ex k.after_id k.id_step in
      let r' = (rw c.ex_d_cur at r) i in
      ground (arith, c.d_cur, f.e_cur, q, i, r', load-no_dest s.ereg.cur.inst, v.e_dest)

  -- The pipeline throws no jump away that the text keeps apart from its load.
  pub no_lost_jump :
      IsJumpSafe text → IsFollowed text s → jump_in_id k.after_if && load_use k.after_if ≡ false
  no_lost_jump safe b = elim (Bool-cases (jump_in_id k.after_if)) [
    | inl j ↦ elim (Bool-cases (load_use k.after_if)) [
      | inl l ↦
          let c = clash j l in
          let (w, a, o, d) = b.load_word c.load in
          absurd (
            safe.apart s.ereg.cur.pc w s.dreg.cur.inst a
              (rw (b.behind c.load c.word) at (p.of_text c.word)) o c.code (λ z. c.dest (d ∙ z))
              (c.base ∙ d))
      | inr l ↦ rw (j, l) refl
    ]
    | inr j ↦ rw j refl
  ]

  -- A load that ID hands on to EX.
  record Handed : Type 0 where
    goes : mispredicted k.after_if || load_use k.after_if ≡ false
    word : s.dreg.cur.inst ≢ 0
    code : opcode s.dreg.cur.inst ≡ op_load
    dest : t.ereg.cur.destreg ≡ rd s.dreg.cur.inst
    pc : t.ereg.cur.pc ≡ s.dreg.cur.pc

  handed : is_load t.ereg.cur.inst ≡ true → Handed
  unfolding is_load
  handed l =
      let v = p.invariant in
      let c = steps-Carried l1 fuel s t k v in
      let f = steps-StepsFrame l1 fuel s t k v in
      let e = end_cycle_lem k.after_if f.settled in
      let i = rw c.ex_d_cur at (id-load k.after_ex k.after_id k.id_step) in
      ground (arith, k.end_step, e, c.e_upd, i)

  next_word : Handed → t.dreg.cur.inst ≢ 0 → t.dreg.cur.pc ≡ add64 s.dreg.cur.pc 4
  next_word h n =
      let v = p.invariant in
      let f = steps-Flow l1 fuel s t k v in
      let w = fetch-Fetched l1 k.after_id k.after_if k.if_step in
      let g = p.guided.guessed h.word in
      ground (
        arith,
        h.goes,
        h.word,
        h.code,
        n,
        emptied l1 fuel s t k v,
        moved l1 fuel s t k v,
        w.pc,
        f.selected,
        v.flushed,
        p.guided.jump_alone,
        g.next,
        predict-plain s.branch_strat s.dreg.cur.pc s.dreg.cur.inst,
      )

  -- A cycle keeps every load of the text with the word behind it.
  pub steps-IsFollowed : IsFollowed text t
  steps-IsFollowed = record {
    load_word =
        λ l. let h = handed l in (s.dreg.cur.inst, rw h.pc (p.of_text h.word), h.code, h.dest);
    behind = λ l n. let h = handed l in rw h.pc (next_word h n);
  }

module _ {S : Type 0} (l1 : Ops S) (view : S → ℕ → Option ℕ) (fuel : ℕ) (text : ℕ → Option ℕ) where
  -- A run of the pipeline in which IF fetches no word that is 0 or overwritten.
  pub data Fetches : ℕ → Sim S → Sim S → Type 0 where
    none_yet : {s : Sim S} → Fetches zero s s
    fetched_one :
        {c : ℕ} {s t u : Sim S} (k : Steps l1 fuel s t)
        → k.after_if.dreg.upd.inst ≢ 0
        → word_at (bytes view k.after_id) (select_pc k.after_id)
          ≡ word_at text (select_pc k.after_id)
        → Fetches c t u
        → Fetches (suc c) s u

  pub Runs-Fetches : (c n : ℕ) (s t : Sim S) → Runs l1 view fuel text c n s t → Fetches c s t
  Runs-Fetches c n s t stopped = none_yet
  Runs-Fetches (suc c) n s t (waited {t = u} k w e r) =
      fetched_one k w.no_zero w.same_text (Runs-Fetches c n u t r)
  Runs-Fetches (suc c) (suc n) s t (issued_one {t = u} k w e r) =
      fetched_one k w.no_zero w.same_text (Runs-Fetches c n u t r)

module _ {S : Type 0} (l1 : Ops S) (view : S → ℕ → Option ℕ) (IsGood : S → Type 0)
    (st : IsStorage l1.handle view IsGood) (gd : IsGuarded l1.handle view IsGood)
    (bd : IsBounded l1.handle view IsGood) (fuel : ℕ) (text : ℕ → Option ℕ)
    (safe : IsJumpSafe text) where
  one_more :
      {c : ℕ} {s t u : Sim S} (k : Steps l1 fuel s t)
      → IsClean l1 view fuel text s t k
      → (b : Bool) → issues k.after_if ≡ b
      → (n : ℕ) × Runs l1 view fuel text c n t u
      → (n : ℕ) × Runs l1 view fuel text (suc c) n s u
  one_more k w true e (n, r) = (suc n, issued_one k w e r)
  one_more k w false e (n, r) = (n, waited k w e r)

  -- Of such a text the pipeline throws no jump away.
  pub Fetches-Runs :
      (c : ℕ) (s t : Sim S)
      → IsPrepared IsGood text s
      → IsFollowed text s
      → Fetches l1 view fuel text c s t
      → (n : ℕ) × Runs l1 view fuel text c n s t
  Fetches-Runs zero s t p b none_yet = (zero, stopped)
  Fetches-Runs (suc c) s t p b (fetched_one {t = u} k z e r) =
      let w : IsClean l1 view fuel text s u k = record {
        no_zero = z;
        no_lost_jump = no_lost_jump l1 IsGood fuel text s u k p safe b;
        same_text = e;
      } in
      one_more k w (issues k.after_if) refl (
        Fetches-Runs c u t (steps-IsPrepared l1 view IsGood st gd bd fuel text s u k p w)
          (steps-IsFollowed l1 IsGood fuel text s u k p) r)
