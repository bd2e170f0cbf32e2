-- ===== src/Pipeline/Forwarding.antt =====
-- Operand forwarding in `SIM::ID`, against the register file with the forwarded values written into it.
use riscv_64i_simulator.Common.{
  ℕ, ◌<◌, ◌≡◌, ◌≢◌, Bool, true, not, ◌&&◌, Result, ok, ◌>>=◌, arith, ◌==◌, >>=_assoc, if◌then◌else◌,
  update, ne→==,
}
use riscv_64i_simulator.Isa.Inst.{InstType, no_reg, reg_zero, reg_a0, reg_a7, lui, auipc}
use riscv_64i_simulator.Isa.Decode.{
  Decoded, decode, decode_r, decode_imm, decode_jal, decode_jalr, decode_branch, decode_load,
  decode_store, decode_upper, decode_system, decode_imm32, decode_32,
}
use riscv_64i_simulator.Pipeline.State.{Sim}
use riscv_64i_simulator.Pipeline.Regs.{ERegion}
use riscv_64i_simulator.Pipeline.Decode.{forward, forward_operand, id}

-- A stage writes its register where it has one, and never register 0.
unfoldable pub commit : Bool → ℕ → ℕ → (ℕ → ℕ) → ℕ → ℕ
commit reg_write dest value reg =
    if reg_write && not (dest == reg_zero) then update reg dest value else reg

module _ {S : Type 0} where
  -- The register file with what MEM and EX forward written into it, the older one first. What EX
  -- forwards is `e_val_e`, which for a load is its address and not what it loads.
  unfoldable pub in_flight : Sim S → ℕ → ℕ
  in_flight s =
      commit s.e_reg_write s.ereg.cur.destreg s.e_val_e
        (commit s.m_reg_write s.mreg.cur.dest_reg s.m_val_m s.reg)

  -- A stage that writes names one of the 32 registers.
  pub record DestsInRange (s : Sim S) : Type 0 where
    pub ex_dest : s.e_reg_write ≡ true → s.ereg.cur.destreg < 32
    pub mem_dest : s.m_reg_write ≡ true → s.mreg.cur.dest_reg < 32

  -- Forwarding a register that was read gives what the register holds after the writes.
  forward_operand-eq-in_flight : (s : Sim S) (r : ℕ) → forward_operand s r (s.reg r) ≡ in_flight s r
  unfolding forward_operand forward in_flight commit
  forward_operand-eq-in_flight s r = ground arith

  -- What stands for no register is never forwarded to.
  forward_operand-no_reg : (s : Sim S) → DestsInRange s → (v : ℕ) → forward_operand s no_reg v ≡ v
  unfolding forward_operand forward
  forward_operand-no_reg s h v = ground (arith, h.ex_dest, h.mem_dest)

  -- The forwarding step of `SIM::ID` on what the switch has set.
  forward_decoded : Sim S → Decoded → Decoded
  forward_decoded s d = record d {
    val_a = forward_operand s d.reg1 d.val_a;
    val_b = forward_operand s d.reg2 d.val_b;
  }

  -- Decoding against a register file and then forwarding.
  abbrev forwarded : Sim S → Result Decoded → Result Decoded
  forwarded s m = m >>= λ d. ok (forward_decoded s d)

  module _ (s : Sim S) (h : DestsInRange s) where
    decode_r-in_flight :
        (inst : ℕ) → decode_r (in_flight s) inst ≡ forwarded s (decode_r s.reg inst)
    unfolding decode_r forward_decoded
    decode_r-in_flight inst = simp (>>=_assoc, forward_operand-eq-in_flight s)

    decode_imm-in_flight :
        (inst : ℕ) → decode_imm (in_flight s) inst ≡ forwarded s (decode_imm s.reg inst)
    unfolding decode_imm forward_decoded
    decode_imm-in_flight inst =
        simp (>>=_assoc, forward_operand-eq-in_flight s, forward_operand-no_reg s h)

    decode_branch-in_flight :
        (inst : ℕ) → decode_branch (in_flight s) inst ≡ forwarded s (decode_branch s.reg inst)
    unfolding decode_branch forward_decoded
    decode_branch-in_flight inst = simp (>>=_assoc, forward_operand-eq-in_flight s)

    decode_load-in_flight :
        (inst : ℕ) → decode_load (in_flight s) inst ≡ forwarded s (decode_load s.reg inst)
    unfolding decode_load forward_decoded
    decode_load-in_flight inst =
        simp (>>=_assoc, forward_operand-eq-in_flight s, forward_operand-no_reg s h)

    decode_store-in_flight :
        (inst : ℕ) → decode_store (in_flight s) inst ≡ forwarded s (decode_store s.reg inst)
    unfolding decode_store forward_decoded
    decode_store-in_flight inst = simp (>>=_assoc, forward_operand-eq-in_flight s)

    decode_system-in_flight :
        (inst : ℕ) → decode_system (in_flight s) inst ≡ forwarded s (decode_system s.reg inst)
    unfolding decode_system forward_decoded
    decode_system-in_flight inst =
        ground (arith, forward_operand-eq-in_flight s reg_a0, forward_operand-eq-in_flight s reg_a7)

    decode_imm32-in_flight :
        (inst : ℕ) → decode_imm32 (in_flight s) inst ≡ forwarded s (decode_imm32 s.reg inst)
    unfolding decode_imm32 forward_decoded
    decode_imm32-in_flight inst =
        simp (>>=_assoc, forward_operand-eq-in_flight s, forward_operand-no_reg s h)

    decode_32-in_flight :
        (inst : ℕ) → decode_32 (in_flight s) inst ≡ forwarded s (decode_32 s.reg inst)
    unfolding decode_32 forward_decoded
    decode_32-in_flight inst = simp (>>=_assoc, forward_operand-eq-in_flight s)

    decode_jalr-in_flight :
        (inst : ℕ) → decode_jalr (in_flight s) inst ≡ forward_decoded s (decode_jalr s.reg inst)
    unfolding decode_jalr forward_decoded
    decode_jalr-in_flight inst = simp (forward_operand-eq-in_flight s, forward_operand-no_reg s h)

    decode_jal-in_flight : (inst : ℕ) → decode_jal inst ≡ forward_decoded s (decode_jal inst)
    unfolding decode_jal forward_decoded
    decode_jal-in_flight inst = simp (forward_operand-no_reg s h)

    decode_upper-in_flight :
        (t : InstType) (inst : ℕ) → decode_upper t inst ≡ forward_decoded s (decode_upper t inst)
    unfolding decode_upper forward_decoded
    decode_upper-in_flight t inst = simp (forward_operand-no_reg s h)

    -- The whole switch.
    decode-in_flight : (inst : ℕ) → decode (in_flight s) inst ≡ forwarded s (decode s.reg inst)
    unfolding decode
    decode-in_flight inst = ground (
      arith,
      decode_r-in_flight inst,
      decode_imm-in_flight inst,
      decode_jal-in_flight inst,
      decode_jalr-in_flight inst,
      decode_branch-in_flight inst,
      decode_load-in_flight inst,
      decode_store-in_flight inst,
      decode_upper-in_flight lui inst,
      decode_upper-in_flight auipc inst,
      decode_system-in_flight inst,
      decode_imm32-in_flight inst,
      decode_32-in_flight inst,
    )

  -- What `SIM::ID` hands on of a decoded instruction.
  unfoldable pub issued : Sim S → Decoded → ERegion
  issued s d = record {
    pc = s.dreg.cur.pc;
    rs1 = d.reg1;
    rs2 = d.reg2;
    destreg = d.dest;
    inst = d.insttype;
    pc_not_taken = s.dreg.cur.pc_not_taken;
    val_a = d.val_a;
    val_b = d.val_b;
    offset = d.offset;
    take_branch = s.dreg.cur.take_branch;
  }

  -- When the stages that write name one of the 32 registers and the word in ID is not 0, `SIM::ID`
  -- with its operand forwarding does what decoding would do against the register file with two
  -- writes made in it: first that of the value `m_valM` which MEM forwards, then that of the value
  -- `e_valE` which EX forwards; errors of the decoder are included. (For a load in EX, `e_valE` is
  -- its address and not the value that it loads.)
  pub id-in_flight :
      (s : Sim S)
      → DestsInRange s
      → s.dreg.cur.inst ≢ 0
      → id s ≡ (
          decode (in_flight s) s.dreg.cur.inst >>= λ d. ok (record s {
            d_reg1 = d.reg1;
            d_reg2 = d.reg2;
            ereg = record (s.ereg) { upd = issued s d };
          }))
  unfolding id issued forward_decoded
  id-in_flight s h ne = rw (decode-in_flight s h, ne→== _ _ ne) (simp >>=_assoc)
