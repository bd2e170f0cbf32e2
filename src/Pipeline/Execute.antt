-- ===== src/Pipeline/Execute.antt =====
-- `SIM::EX`: the computation, the system calls, and what the outcome says about the next address.
use riscv_64i_simulator.Common.{
  ℕ, ◌+◌, ◌-◌, ◌^◌, Bool, true, false, not, ◌&&◌, Result, ok, ◌>>=◌, if◌then◌else◌,
}
use riscv_64i_simulator.Isa.Inst.{InstType, ecall, is_bubble, is_branch, is_jump}
use riscv_64i_simulator.Isa.Execute.{ExResult, execute}
use riscv_64i_simulator.Pipeline.Regs.{m_region}
use riscv_64i_simulator.Pipeline.State.{Sim, Ops}
use riscv_64i_simulator.Pipeline.Syscall.{syscall}

unfoldable pub is_ecall : InstType → Bool
is_ecall ecall = true
is_ecall _ = false

-- `take_branch == res_branch`
abbrev pub same : Bool → Bool → Bool
same a b = if a then b else not b

-- The signals that EX leaves in the simulator, and its half of the M register.
module _ {S : Type 0} where
  unfoldable pub ex_done : Sim S → ExResult → Sim S
  ex_done s r =
      let e = s.ereg.cur in
      let wrong = is_branch e.inst && not (same e.take_branch r.res_branch) in
      let right = is_branch e.inst && same e.take_branch r.res_branch in
      let calc_pc =
        if is_jump e.inst then r.calculated_pc else if wrong then e.pc_not_taken else 2 ^ 64 - 1 in
      let writes = r.reg_write && not (is_branch e.inst) in
      record s {
        e_b_wrong = wrong;
        e_is_j = is_jump e.inst;
        e_reg_write = writes;
        e_val_e = r.val_e;
        e_calc_pc = calc_pc;
        e_jname = if is_jump e.inst then e.inst else s.e_jname;
        jalr_pc = if is_jump e.inst then e.pc else s.jalr_pc;
        counters = record (s.counters) {
          correct_predict = s.counters.correct_predict + (if right then 1 else 0);
        };
        mreg = record (s.mreg) {
          upd = record {
            val_a = e.val_a;
            val_b = r.val_b;
            val_e = r.val_e;
            m_calc_pc = calc_pc;
            pc = e.pc;
            inst = e.inst;
            mem_len = r.mem_len;
            dest_reg = e.destreg;
            reg_write = writes;
            mem_write = r.mem_write;
            mem_read = r.mem_read;
            mem_signed = r.mem_signed;
            m_b_wrong = wrong;
            branch = r.res_branch;
          };
        };
      }

  -- EX on an empty register.
  unfoldable pub ex_bubble : Sim S → Sim S
  ex_bubble s = record s {
    e_b_wrong = false;
    e_is_j = false;
    e_reg_write = false;
    e_val_e = 0;
    e_calc_pc = 2 ^ 64 - 1;
    mreg = record (s.mreg) { upd = m_region.zeroed };
  }

module _ {S : Type 0} (l1 : Ops S) where
  -- `case ECALL`
  unfoldable pub call_system : ℕ → Sim S → Result (Sim S)
  call_system fuel s =
      let e = s.ereg.cur in if is_ecall e.inst then syscall l1 fuel s e.val_a e.val_b else ok s

  unfoldable pub ex : ℕ → Sim S → Result (Sim S)
  ex fuel s = if is_bubble s.ereg.cur.inst then ok (ex_bubble s) else (do
    let e = s.ereg.cur
    r ← execute e.inst e.pc e.val_a e.val_b e.offset
    called ← call_system fuel s
    ok (ex_done called r))
