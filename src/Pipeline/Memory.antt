-- ===== src/Pipeline/Memory.antt =====
-- `SIM::MEM`: the access to the storage, and the value that goes on to WB.
use riscv_64i_simulator.Common.{
  ℕ, ◌+◌, Bool, false, List, Result, ok, halt, invalid_read, ◌>>=◌, ◌==◌, if◌then◌else◌, u32,
}
use riscv_64i_simulator.Storage.{read, write}
use riscv_64i_simulator.Isa.Inst.{is_bubble}
use riscv_64i_simulator.Pipeline.Regs.{w_region}
use riscv_64i_simulator.Pipeline.State.{Sim, Ops, access, le_bytes, le_word}

-- `switch (memLen)`: the bytes read are taken as a number of their width. Both casts, with
-- `mem_signed` and without, start from the unsigned type of that width, so that neither extends
-- the sign. `val_e` stays for any other length.
unfoldable pub load_value : ℕ → Bool → List ℕ → ℕ → ℕ
load_value mem_len mem_signed bytes val_e =
    if mem_len == 8
    then (if mem_signed then le_word bytes else le_word bytes)
    else if mem_len == 4
    then (if mem_signed then le_word bytes else le_word bytes)
    else if mem_len == 2
    then (if mem_signed then le_word bytes else le_word bytes)
    else if mem_len == 1
    then (if mem_signed then le_word bytes else le_word bytes)
    else val_e

module _ {S : Type 0} (l1 : Ops S) where
  -- `if (mem_write)`
  unfoldable pub mem_store : Sim S → Result (Sim S)
  mem_store s =
      let m = s.mreg.cur in
      if m.mem_write
      then (access l1 s m.val_e (write (le_bytes m.mem_len m.val_b)) >>= λ done. ok done.0)
      else ok s

  -- `if (mem_read)`: the state, and `valM`
  unfoldable pub mem_load : Sim S → Result (Sim S × ℕ)
  mem_load s =
      let m = s.mreg.cur in
      if m.mem_read
      then if l1.is_valid s.storage (u32 m.val_e)
        then (access l1 s m.val_e (read m.mem_len) >>= λ got.
            ok (got.0, load_value m.mem_len m.mem_signed got.1 m.val_e))
        else halt (invalid_read (u32 m.val_e))
      else ok (s, m.val_e)

  -- The signals that MEM leaves, and its half of the W register.
  unfoldable pub mem_done : Sim S → ℕ → Sim S
  mem_done s val_m =
      let m = s.mreg.cur in
      record s {
        m_reg_write = m.reg_write;
        m_val_m = val_m;
        wreg = record (s.wreg) {
          upd = record (s.wreg.upd) {
            pc = m.pc;
            inst = m.inst;
            val_a = m.val_a;
            val_b = m.val_b;
            dest_reg = m.dest_reg;
            reg_write = m.reg_write;
            val_m = val_m;
          };
        };
      }

  unfoldable pub mem : Sim S → Result (Sim S)
  mem s =
      if is_bubble s.mreg.cur.inst
      then ok (record s {
        m_reg_write = false;
        m_val_m = 0;
        wreg = record (s.wreg) { upd = w_region.zeroed };
      })
      else (do
        let counted = record s {
          counters = record (s.counters) { inst_cnt = s.counters.inst_cnt + 1 };
        }
        stored ← mem_store counted
        loaded ← mem_load stored
        ok (mem_done loaded.0 loaded.1))
