-- ===== src/Machine/Prepared.antt =====
-- What holds between two cycles (`SIM::simulate` in simulation.cpp) of the addresses and guesses that
-- IF has left for the stages behind it.
use riscv_64i_simulator.Common.{
  ℕ, ◌≡◌, ◌≢◌, true, false, ◌||◌, ◌&&◌, Option, ok, >>=-eq-ok, arith, ◌==◌, Bool-cases, inl, inr,
  ap, ◌∙◌,
}
use riscv_64i_simulator.Storage.{read}
use riscv_64i_simulator.Isa.Inst.{Strategy, is_jump}
use riscv_64i_simulator.Isa.Decode.{decode}
use riscv_64i_simulator.Isa.Kinds.{decode-KindOf}
use riscv_64i_simulator.Pipeline.Regs.{FRegion, DRegion}
use riscv_64i_simulator.Pipeline.State.{Sim, Ops, access}
use riscv_64i_simulator.Pipeline.Fetch.{fetch, fetched, select_pc, predict}
use riscv_64i_simulator.Pipeline.Decode.{id}
use riscv_64i_simulator.Pipeline.Cycle.{start_cycle, jump_in_id, mispredicted, load_use}
use riscv_64i_simulator.Pipeline.Frames.{access-frame, mem-frame, id-frame, fetch-frame}
use riscv_64i_simulator.Pipeline.Hazards.{end_cycle_lem}
use riscv_64i_simulator.Pipeline.Invariant.{IsInvariant, ex-ExFrame, wb-frame}
use riscv_64i_simulator.Pipeline.Steps.{Steps, steps-StepsFrame}
use riscv_64i_simulator.Machine.{word_at}
use riscv_64i_simulator.Machine.Accesses.{bytes}
use riscv_64i_simulator.Machine.Stages.{HasLength}
use riscv_64i_simulator.Machine.Cycle.{end_cycle-EndFrame}

-- The word in ID was predicted by IF, and IF goes on where the prediction says.
pub record Guessed (strat : Strategy) (f : FRegion) (d : DRegion) : Type 0 where
  pub guess : d.take_branch ≡ (predict strat d.pc d.inst).take_branch
  pub other : d.pc_not_taken ≡ (predict strat d.pc d.inst).pc_not_taken
  pub next : f.pred_pc ≡ (predict strat d.pc d.inst).predicted_pc

module _ {S : Type 0} where
  pub record IsGuided (s : Sim S) : Type 0 where
    pub guessed : s.dreg.cur.inst ≢ 0 → Guessed s.branch_strat s.freg.cur s.dreg.cur
    pub jump_alone : is_jump s.ereg.cur.inst ≡ true → s.dreg.cur.inst ≡ 0

  -- A word in ID that is a jump stands behind a jump opcode.
  id-jump : (s t : Sim S) → id s ≡ ok t → is_jump t.ereg.upd.inst ≡ true → jump_in_id s ≡ true
  unfolding id jump_in_id is_jump
  id-jump s t h j = elim (Bool-cases (s.dreg.cur.inst == 0)) [
    | inl e ↦ ground arith
    | inr e ↦
        let (d, a, b) = >>=-eq-ok (decode s.reg s.dreg.cur.inst) _ (simp e at h) in
        let k = decode-KindOf s.reg s.dreg.cur.inst d a in ground (arith, b, k.jumps)
  ]

module _ {S : Type 0} (l1 : Ops S) where
  -- What IF has prepared.
  pub record Fetched (s t : Sim S) : Type 0 where
    pub pc : t.dreg.upd.pc ≡ select_pc s
    pub right : Guessed s.branch_strat t.freg.upd t.dreg.upd

  pub fetch-Fetched : (s t : Sim S) → fetch l1 s ≡ ok t → Fetched s t
  unfolding fetch fetched
  fetch-Fetched s t h =
      let (r, a, b) = >>=-eq-ok (access l1 s (select_pc s) (read 4)) _ h in
      ground (arith, b, access-frame l1 s (select_pc s) (read 4) r a)

  module _ (fuel : ℕ) (s t : Sim S) (k : Steps l1 fuel s t) (v : IsInvariant s) where
    -- What the stages see of the state that the cycle starts with.
    pub record Carried : Type 0 where
      pub f_cur : k.after_if.freg.cur ≡ s.freg.cur
      pub d_cur : k.after_if.dreg.cur ≡ s.dreg.cur
      pub ex_d_cur : k.after_ex.dreg.cur ≡ s.dreg.cur
      pub ex_e_cur : k.after_ex.ereg.cur ≡ s.ereg.cur
      pub id_m_cur : k.after_id.mreg.cur ≡ s.mreg.cur
      pub id_f_cur : k.after_id.freg.cur ≡ s.freg.cur
      pub id_strat : k.after_id.branch_strat ≡ s.branch_strat
      pub strat : t.branch_strat ≡ s.branch_strat
      pub e_upd : k.after_if.ereg.upd ≡ k.after_id.ereg.upd

    pub steps-Carried : Carried
    unfolding start_cycle
    steps-Carried = ground (
      arith,
      wb-frame (start_cycle s),
      mem-frame l1 _ k.after_mem k.mem_step,
      (ex-ExFrame l1 fuel k.after_mem k.after_ex k.ex_step).frame,
      id-frame k.after_ex k.after_id k.id_step,
      fetch-frame l1 k.after_id k.after_if k.if_step,
      end_cycle-EndFrame k.after_if,
      k.end_step,
    )

    -- Where IF and ID go on at the end of the cycle.
    pub kept :
        jump_in_id k.after_if || mispredicted k.after_if ≡ false
        → load_use k.after_if ≡ true
        → (t.dreg.cur ≡ s.dreg.cur) × (t.freg.cur ≡ s.freg.cur)
    kept e l =
        let c = steps-Carried in
        let f = steps-StepsFrame l1 fuel s t k v in
        ground (arith, c.d_cur, c.f_cur, k.end_step, end_cycle_lem k.after_if f.settled, e, l)

    pub moved :
        jump_in_id k.after_if || mispredicted k.after_if ≡ false
        → load_use k.after_if ≡ false
        → (t.dreg.cur ≡ k.after_if.dreg.upd) × (t.freg.cur ≡ k.after_if.freg.upd)
    moved e l =
        let f = steps-StepsFrame l1 fuel s t k v in
        ground (arith, k.end_step, end_cycle_lem k.after_if f.settled, e, l)

    pub emptied : jump_in_id k.after_if || mispredicted k.after_if ≡ true → t.dreg.cur.inst ≡ 0
    emptied e =
        let f = steps-StepsFrame l1 fuel s t k v in
        ground (arith, k.end_step, end_cycle_lem k.after_if f.settled, e)

    steps-Guessed : IsGuided s → t.dreg.cur.inst ≢ 0 → Guessed t.branch_strat t.freg.cur t.dreg.cur
    steps-Guessed p n =
        let c = steps-Carried in
        let w = fetch-Fetched k.after_id k.after_if k.if_step in
        elim (Bool-cases (jump_in_id k.after_if || mispredicted k.after_if)) [
          | inl e ↦ absurd (n (emptied e))
          | inr e ↦ elim (Bool-cases (load_use k.after_if)) [
            | inl l ↦
                let (x, y) = kept e l in
                rw (c.strat, y, x) (p.guessed (λ z. n (ap (λ (d : DRegion). d.inst) x ∙ z)))
            | inr l ↦ let (x, y) = moved e l in rw (c.strat, y, x) (rw c.id_strat at w.right)
          ]
        ]

    steps-jump_alone : is_jump t.ereg.cur.inst ≡ true → t.dreg.cur.inst ≡ 0
    unfolding jump_in_id is_jump
    steps-jump_alone h =
        let c = steps-Carried in
        let f = steps-StepsFrame l1 fuel s t k v in
        let j = id-jump k.after_ex k.after_id k.id_step in
        ground (
          arith,
          c.e_upd,
          c.ex_d_cur,
          c.d_cur,
          k.end_step,
          end_cycle_lem k.after_if f.settled,
          j,
          emptied,
        )

    -- A cycle that succeeds keeps the guesses.
    pub steps-IsGuided : IsGuided s → IsGuided t
    steps-IsGuided p = record { guessed = steps-Guessed p; jump_alone = steps-jump_alone }

-- What the machine asks of a state between two cycles.
pub record IsPrepared {S : Type 0} (IsGood : S → Type 0) (text : ℕ → Option ℕ) (s : Sim S)
    : Type 0 where
  pub invariant : IsInvariant s
  pub good : IsGood s.storage
  pub lengths : HasLength s.mreg.cur
  pub guided : IsGuided s
  pub of_text : s.dreg.cur.inst ≢ 0 → word_at text s.dreg.cur.pc ≡ ok s.dreg.cur.inst

-- In the cycle, IF fetches no word that is 0 and none that a program has overwritten in the text,
-- and no jump is thrown away in ID.
pub record IsClean {S : Type 0} (l1 : Ops S) (view : S → ℕ → Option ℕ) (fuel : ℕ)
    (text : ℕ → Option ℕ) (s t : Sim S) (k : Steps l1 fuel s t) : Type 0 where
  pub no_zero : k.after_if.dreg.upd.inst ≢ 0
  pub no_lost_jump : jump_in_id k.after_if && load_use k.after_if ≡ false
  pub same_text :
      word_at (bytes view k.after_id) (select_pc k.after_id) ≡ word_at text (select_pc k.after_id)
