-- ===== src/Pipeline/Invariant.antt =====
-- What holds of the pipeline between two cycles, from the first state on.
use riscv_64i_simulator.Common.{
  ℕ, ◌/◌, ◌^◌, ◌<◌, ◌≡◌, refl, Bool, true, false, Result, ok, ◌>>=◌, >>=-eq-ok, arith, ◌==◌,
  Bool-cases, inl, inr,
}
use riscv_64i_simulator.Common.Bits.{bit_and-mask}
use riscv_64i_simulator.Isa.Inst.{
  InstType, bubble, beq, bne, blt, bge, bltu, bgeu, sb, sh, sw, sd, ecall, is_bubble, is_branch,
}
use riscv_64i_simulator.Isa.Fields.{rd}
use riscv_64i_simulator.Isa.Decode.{
  Decoded, decode, decode_r, decode_imm, decode_jal, decode_jalr, decode_branch, decode_load,
  decode_store, decode_upper, decode_system, decode_imm32, decode_32, type_r, type_imm, type_branch,
  type_load, type_store, type_imm32, type_32,
}
use riscv_64i_simulator.Isa.Execute.{ExResult, execute}
use riscv_64i_simulator.Pipeline.Regs.{f_region, d_region, e_region, m_region, w_region}
use riscv_64i_simulator.Pipeline.State.{Sim, Ops}
use riscv_64i_simulator.Pipeline.Decode.{id}
use riscv_64i_simulator.Pipeline.Execute.{ex, ex_done, ex_bubble, call_system}
use riscv_64i_simulator.Pipeline.Memory.{mem}
use riscv_64i_simulator.Pipeline.WriteBack.{wb}
use riscv_64i_simulator.Pipeline.Cycle.{start_cycle}
use riscv_64i_simulator.Pipeline.Forwarding.{DestsInRange}
use riscv_64i_simulator.Pipeline.Hazards.{IsSettled}
use riscv_64i_simulator.Pipeline.Frames.{mem-frame, call_system-frame}

-- The instructions that name no register to write.
unfoldable pub no_dest : InstType → Bool
no_dest bubble = true
no_dest beq = true
no_dest bne = true
no_dest blt = true
no_dest bge = true
no_dest bltu = true
no_dest bgeu = true
no_dest sb = true
no_dest sh = true
no_dest sw = true
no_dest sd = true
no_dest ecall = true
no_dest _ = false

-- Only an instruction that names a register asks for a write.
execute-no_dest :
    (t : InstType) (pc a b offset : ℕ) (r : ExResult)
    → execute t pc a b offset ≡ ok r
    → r.reg_write ≡ true
    → no_dest t ≡ false
unfolding execute no_dest
execute-no_dest bubble pc a b offset r h w = ground arith
execute-no_dest beq pc a b offset r h w = ground arith
execute-no_dest bne pc a b offset r h w = ground arith
execute-no_dest blt pc a b offset r h w = ground arith
execute-no_dest bge pc a b offset r h w = ground arith
execute-no_dest bltu pc a b offset r h w = ground arith
execute-no_dest bgeu pc a b offset r h w = ground arith
execute-no_dest sb pc a b offset r h w = ground arith
execute-no_dest sh pc a b offset r h w = ground arith
execute-no_dest sw pc a b offset r h w = ground arith
execute-no_dest sd pc a b offset r h w = ground arith
execute-no_dest ecall pc a b offset r h w = ground arith
execute-no_dest _ pc a b offset r h w = refl

rd-lt : (inst : ℕ) → rd inst < 32
unfolding rd
rd-lt inst = omega (arith, bit_and-mask 5 (inst / 2 ^ 7))

-- What the switch of ID names as the register to write is one of the 32.
abbrev NamesDest : Decoded → Type 0
NamesDest d = no_dest d.insttype ≡ false → d.dest < 32

type_branch-no_dest : (f3 : ℕ) (t : InstType) → type_branch f3 ≡ ok t → no_dest t ≡ true
unfolding type_branch no_dest
type_branch-no_dest f3 t h = ground arith

type_store-no_dest : (f3 : ℕ) (t : InstType) → type_store f3 ≡ ok t → no_dest t ≡ true
unfolding type_store no_dest
type_store-no_dest f3 t h = ground arith

decode_branch-NamesDest :
    (reg : ℕ → ℕ) (inst : ℕ) (d : Decoded) → decode_branch reg inst ≡ ok d → NamesDest d
unfolding decode_branch
decode_branch-NamesDest reg inst d h n =
    let (t, a, b) = >>=-eq-ok (type_branch _) _ h in ground (arith, type_branch-no_dest _ t a)

decode_store-NamesDest :
    (reg : ℕ → ℕ) (inst : ℕ) (d : Decoded) → decode_store reg inst ≡ ok d → NamesDest d
unfolding decode_store
decode_store-NamesDest reg inst d h n =
    let (t, a, b) = >>=-eq-ok (type_store _) _ h in ground (arith, type_store-no_dest _ t a)

decode_system-NamesDest :
    (reg : ℕ → ℕ) (inst : ℕ) (d : Decoded) → decode_system reg inst ≡ ok d → NamesDest d
unfolding decode_system no_dest
decode_system-NamesDest reg inst d h n = ground arith

-- The formats with a register to write.
decode_r-NamesDest : (reg : ℕ → ℕ) (inst : ℕ) (d : Decoded) → decode_r reg inst ≡ ok d → NamesDest d
unfolding decode_r
decode_r-NamesDest reg inst d h n =
    let (t, a, b) = >>=-eq-ok (type_r _ _) _ h in ground (arith, rd-lt inst, b)

decode_imm-NamesDest :
    (reg : ℕ → ℕ) (inst : ℕ) (d : Decoded) → decode_imm reg inst ≡ ok d → NamesDest d
unfolding decode_imm
decode_imm-NamesDest reg inst d h n =
    let (t, a, b) = >>=-eq-ok (type_imm _ _) _ h in ground (arith, rd-lt inst, b)

decode_load-NamesDest :
    (reg : ℕ → ℕ) (inst : ℕ) (d : Decoded) → decode_load reg inst ≡ ok d → NamesDest d
unfolding decode_load
decode_load-NamesDest reg inst d h n =
    let (t, a, b) = >>=-eq-ok (type_load _) _ h in ground (arith, rd-lt inst, b)

decode_imm32-NamesDest :
    (reg : ℕ → ℕ) (inst : ℕ) (d : Decoded) → decode_imm32 reg inst ≡ ok d → NamesDest d
unfolding decode_imm32
decode_imm32-NamesDest reg inst d h n =
    let (t, a, b) = >>=-eq-ok (type_imm32 _ _) _ h in ground (arith, rd-lt inst, b)

decode_32-NamesDest :
    (reg : ℕ → ℕ) (inst : ℕ) (d : Decoded) → decode_32 reg inst ≡ ok d → NamesDest d
unfolding decode_32
decode_32-NamesDest reg inst d h n =
    let (t, a, b) = >>=-eq-ok (type_32 _ _) _ h in ground (arith, rd-lt inst, b)

decode-NamesDest : (reg : ℕ → ℕ) (inst : ℕ) (d : Decoded) → decode reg inst ≡ ok d → NamesDest d
unfolding decode decode_jal decode_jalr decode_upper
decode-NamesDest reg inst d h n = ground (
  arith,
  rd-lt inst,
  decode_r-NamesDest reg inst d,
  decode_imm-NamesDest reg inst d,
  decode_branch-NamesDest reg inst d,
  decode_load-NamesDest reg inst d,
  decode_store-NamesDest reg inst d,
  decode_system-NamesDest reg inst d,
  decode_imm32-NamesDest reg inst d,
  decode_32-NamesDest reg inst d,
)

module _ {S : Type 0} where
  pub record IsInvariant (s : Sim S) : Type 0 where
    pub settled : IsSettled s
    pub zero_reg : s.reg 0 ≡ 0
    pub e_dest : no_dest s.ereg.cur.inst ≡ false → s.ereg.cur.destreg < 32
    pub m_dest : s.mreg.cur.reg_write ≡ true → s.mreg.cur.dest_reg < 32
    pub flushed :
        s.mreg.cur.m_b_wrong ≡ true → (s.ereg.cur.inst ≡ InstType.bubble) × (s.dreg.cur.inst ≡ 0)

  pub id-NamesDest :
      (s t : Sim S) → id s ≡ ok t → no_dest t.ereg.upd.inst ≡ false → t.ereg.upd.destreg < 32
  unfolding id no_dest
  id-NamesDest s t h n = elim (Bool-cases (s.dreg.cur.inst == 0)) [
    | inl e ↦ ground arith
    | inr e ↦
        let (d, a, b) = >>=-eq-ok (decode s.reg s.dreg.cur.inst) _ (simp e at h) in
        ground (arith, decode-NamesDest s.reg s.dreg.cur.inst d a)
  ]

  -- EX leaves in its signals and in the M register what the instruction asks for.
  pub record ExFrame (s t : Sim S) : Type 0 where
    pub frame : t ≡ record s {
      storage = t.storage;
      counters = t.counters;
      printed = t.printed;
      e_is_j = t.e_is_j;
      e_b_wrong = t.e_b_wrong;
      e_reg_write = t.e_reg_write;
      e_val_e = t.e_val_e;
      e_calc_pc = t.e_calc_pc;
      e_jname = t.e_jname;
      jalr_pc = t.jalr_pc;
      mreg = record (s.mreg) { upd = t.mreg.upd };
    }
    pub writes : t.e_reg_write ≡ true → no_dest s.ereg.cur.inst ≡ false
    pub wrong_branch : t.e_b_wrong ≡ true → is_branch s.ereg.cur.inst ≡ true
    pub same_wrong : t.mreg.upd.m_b_wrong ≡ t.e_b_wrong
    pub same_write : t.mreg.upd.reg_write ≡ t.e_reg_write
    pub same_dest : t.e_reg_write ≡ true → t.mreg.upd.dest_reg ≡ s.ereg.cur.destreg

module _ {S : Type 0} (l1 : Ops S) where
  pub ex-ExFrame : (fuel : ℕ) (s t : Sim S) → ex l1 fuel s ≡ ok t → ExFrame s t
  unfolding ex ex_done ex_bubble
  ex-ExFrame fuel s t h = elim (Bool-cases (is_bubble s.ereg.cur.inst)) [
    | inl e ↦ ground arith
    | inr e ↦
        let (r, a, b) = >>=-eq-ok (execute s.ereg.cur.inst _ _ _ _) _ (simp e at h) in
        let (u, c, d) = >>=-eq-ok (call_system l1 fuel s) _ b in
        ground (arith, execute-no_dest _ _ _ _ _ r a, call_system-frame l1 fuel s u c)
  ]

  -- The stages before ID, where the operands are forwarded.
  before_id : ℕ → Sim S → Result (Sim S)
  before_id fuel s = mem l1 (wb (start_cycle s)) >>= ex l1 fuel

  before_id-DestsInRange :
      (fuel : ℕ) (s t : Sim S) → IsInvariant s → before_id fuel s ≡ ok t → DestsInRange t
  unfolding before_id wb start_cycle
  before_id-DestsInRange fuel s t v h =
      let (u, a, b) = >>=-eq-ok (mem l1 (wb (start_cycle s))) _ h in
      ground (arith, mem-frame l1 _ u a, ex-ExFrame fuel u t b)

module _ {S : Type 0} where
  pub wb-zero_reg : (s : Sim S) → s.reg 0 ≡ 0 → (wb s).reg 0 ≡ 0
  unfolding wb
  wb-zero_reg s h = ground arith

  pub wb-frame : (s : Sim S) → wb s ≡ record s { reg = (wb s).reg }
  unfolding wb
  wb-frame s = ground arith
