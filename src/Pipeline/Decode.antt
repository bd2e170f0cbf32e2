-- ===== src/Pipeline/Decode.antt =====
-- `SIM::ID`: the decoded instruction with its operands after forwarding goes on to EX.
use riscv_64i_simulator.Common.{ℕ, Bool, not, ◌&&◌, Result, ok, ◌>>=◌, ◌==◌, if◌then◌else◌}
use riscv_64i_simulator.Isa.Inst.{no_reg, reg_zero}
use riscv_64i_simulator.Isa.Decode.{decode}
use riscv_64i_simulator.Pipeline.Regs.{e_region}
use riscv_64i_simulator.Pipeline.State.{Sim}

-- One forwarding: where the stage will write the register `r`, its value is taken.
unfoldable pub forward : Bool → ℕ → ℕ → ℕ → ℕ → ℕ
forward reg_write dest_reg value r val =
    if reg_write && (not (dest_reg == reg_zero) && (r == dest_reg)) then value else val

module _ {S : Type 0} where
  -- MEM first, and then EX, which holds the younger instruction and so comes last.
  unfoldable pub forward_operand : Sim S → ℕ → ℕ → ℕ
  forward_operand s r val =
      forward s.e_reg_write s.ereg.cur.destreg s.e_val_e r
        (forward s.m_reg_write s.mreg.cur.dest_reg s.m_val_m r val)

  unfoldable pub id : Sim S → Result (Sim S)
  id s =
      if s.dreg.cur.inst == 0
      then ok (record s {
        d_reg1 = no_reg;
        d_reg2 = no_reg;
        ereg = record (s.ereg) { upd = e_region.zeroed };
      })
      else (decode s.reg s.dreg.cur.inst >>= λ d. ok (record s {
        d_reg1 = d.reg1;
        d_reg2 = d.reg2;
        ereg = record (s.ereg) {
          upd = record {
            pc = s.dreg.cur.pc;
            rs1 = d.reg1;
            rs2 = d.reg2;
            destreg = d.dest;
            inst = d.insttype;
            pc_not_taken = s.dreg.cur.pc_not_taken;
            val_a = forward_operand s d.reg1 d.val_a;
            val_b = forward_operand s d.reg2 d.val_b;
            offset = d.offset;
            take_branch = s.dreg.cur.take_branch;
          };
        };
      }))
