-- ===== src/Machine.antt =====
-- The machine that the pipeline of simulation.cpp stands for: one instruction after another, over
-- a flat memory of bytes, with no cache, no forwarding and no prediction. It decodes and computes
-- with the code of `SIM::ID` and `SIM::EX`.
pub mod Abs
pub mod Accesses
pub mod Stages
pub mod Calls
pub mod Signals
pub mod Cycle
pub mod Prepared
pub mod Flow
pub mod Refines
pub mod Run
pub mod Drive
pub mod Progress
pub mod Figures
pub mod Printed
pub mod Exit
pub mod Start
pub mod JumpSafe
pub mod LostJump
pub mod Program
use riscv_64i_simulator.Common.{
  ℕ, zero, suc, ◌+◌, ◌-◌, ◌%◌, ◌^◌, Bool, true, false, not, ◌&&◌, ◌||◌, Option, none, some, List,
  [], ◌∷◌, ◌++◌, Result, ok, halt, undefined, no_fuel, invalid_read, exit_normally, unknown_syscall,
  Report, Event, put_char, put_int, ◌>>=◌, ltb, leb, ◌==◌, if◌then◌else◌, u32, add64, length,
  get_or,
}
use riscv_64i_simulator.Isa.Inst.{InstType, is_bubble, is_branch, is_jump}
use riscv_64i_simulator.Isa.Decode.{Decoded, decode}
use riscv_64i_simulator.Isa.Execute.{ExResult, execute}
use riscv_64i_simulator.Pipeline.Regs.{ERegion, MRegion, m_region}
use riscv_64i_simulator.Pipeline.State.{le_bytes, le_word}
use riscv_64i_simulator.Pipeline.Execute.{is_ecall, same}
use riscv_64i_simulator.Pipeline.Memory.{load_value}
use riscv_64i_simulator.Pipeline.Forwarding.{commit}
use riscv_64i_simulator.Pipeline.Branches.{branch_target}

-- Registers, bytes and output, and the address of the next instruction.
pub record Core : Type 0 where
  pub reg : ℕ → ℕ
  pub mem : ℕ → Option ℕ
  pub printed : List Event

pub record Arch : Type 0 where
  pub core : Core
  pub pc : ℕ

unfoldable pub flat_byte : (ℕ → Option ℕ) → ℕ → Result ℕ
flat_byte m a = elim (m a) [ none ↦ halt (invalid_read a) | some b ↦ ok b ]

unfoldable pub flat_read : (ℕ → Option ℕ) → ℕ → ℕ → Result (List ℕ)
flat_read m a zero = ok []
flat_read m a (suc n) = do b ← flat_byte m a; rest ← flat_read m (a + 1) n; ok (b ∷ rest)

-- Only bytes that are there can be written.
pub flat_write : (ℕ → Option ℕ) → ℕ → List ℕ → Result (ℕ → Option ℕ)
flat_write m a xs = do
  old ← flat_read m a (length xs)
  ok (λ b. if leb a b && ltb b (a + length xs) then some (get_or xs (b - a) 0) else m b)

-- The access of an instruction and its write to the register file, from what EX has found of it.
unfoldable pub flat_store : MRegion → (ℕ → Option ℕ) → Result (ℕ → Option ℕ)
flat_store m bytes =
    if m.mem_write then flat_write bytes (u32 m.val_e) (le_bytes m.mem_len m.val_b) else ok bytes

unfoldable pub flat_load : MRegion → (ℕ → Option ℕ) → Result ℕ
flat_load m bytes =
    if m.mem_read
    then (flat_read bytes (u32 m.val_e) m.mem_len >>= λ got.
        ok (load_value m.mem_len m.mem_signed got m.val_e))
    else ok m.val_e

unfoldable pub complete : MRegion → Core → Result Core
complete m c = if is_bubble m.inst then ok c else (do
  bytes ← flat_store m c.mem
  v ← flat_load m bytes
  ok (record { reg = commit m.reg_write m.dest_reg v c.reg; mem = bytes; printed = c.printed }))

-- The system calls. The exit ends the run.
pub flat_print : ℕ → Core → ℕ → Result Core
flat_print zero c a = halt no_fuel
flat_print (suc fuel) c a = do
  got ← flat_read c.mem (u32 a) 1
  let ch = get_or got 0 0
  if ch == 0
      then ok c
      else flat_print fuel (record c { printed = c.printed ++ (put_char ch ∷ []) }) (add64 a 1)

abbrev pub no_report : Report
no_report = record {
  total_cycles = 0;
  pipeline_cycles = 0;
  instructions = 0;
  loaduse_hazards = 0;
  jumps = 0;
  mispredicts = 0;
  control_hazards = 0;
  correct_predicts = 0;
  cache_accesses = 0;
  cache_misses = 0;
}

pub flat_call : ℕ → Core → ℕ → ℕ → Result Core
flat_call fuel c val_a val_b =
    if val_b == 0
    then flat_print fuel c val_a
    else if val_b == 1
    then ok (record c { printed = c.printed ++ (put_char (val_a % 2 ^ 8) ∷ []) })
    else if val_b == 2
    then ok (record c { printed = c.printed ++ (put_int (u32 val_a) ∷ []) })
    else if val_b == 93
    then halt (exit_normally no_report c.printed)
    else halt (unknown_syscall val_b)

-- What EX finds of an instruction.
unfoldable pub found : ERegion → ExResult → MRegion
found e r =
    let wrong = is_branch e.inst && not (same e.take_branch r.res_branch) in
    let writes = r.reg_write && not (is_branch e.inst) in
    record {
      val_a = e.val_a;
      val_b = r.val_b;
      val_e = r.val_e;
      m_calc_pc =
          if is_jump e.inst then r.calculated_pc else if wrong then e.pc_not_taken else 2 ^ 64 - 1;
      pc = e.pc;
      inst = e.inst;
      mem_len = r.mem_len;
      dest_reg = e.destreg;
      reg_write = writes;
      mem_write = r.mem_write;
      mem_read = r.mem_read;
      mem_signed = r.mem_signed;
      m_b_wrong = wrong;
      branch = r.res_branch;
    }

unfoldable pub enter : ℕ → ERegion → Core → Result (MRegion × Core)
enter fuel e c = if is_bubble e.inst then ok (m_region.zeroed, c) else (do
  r ← execute e.inst e.pc e.val_a e.val_b e.offset
  called ← if is_ecall e.inst then flat_call fuel c e.val_a e.val_b else ok c
  ok (found e r, called))

-- A decoded instruction at an address, with no prediction.
abbrev pub unpredicted : ℕ → Decoded → ERegion
unpredicted pc d = record {
  pc = pc;
  rs1 = d.reg1;
  rs2 = d.reg2;
  destreg = d.dest;
  inst = d.insttype;
  pc_not_taken = 0;
  val_a = d.val_a;
  val_b = d.val_b;
  offset = d.offset;
  take_branch = false;
}

pub next_pc : ℕ → ℕ → InstType → ExResult → ℕ
next_pc pc inst t r =
    if is_jump t
    then r.calculated_pc
    else if is_branch t
    then branch_target pc inst r.res_branch
    else add64 pc 4

-- One instruction, whose word is given.
pub exec : ℕ → ℕ → Arch → Result Arch
exec fuel inst a = do
  d ← decode a.core.reg inst
  r ← execute d.insttype a.pc d.val_a d.val_b d.offset
  called ← if is_ecall d.insttype then flat_call fuel a.core d.val_a d.val_b else ok a.core
  done ← complete (found (unpredicted a.pc d) r) called
  ok (record { core = done; pc = next_pc a.pc inst d.insttype r })

-- The instruction at an address of a text.
unfoldable pub word_at : (ℕ → Option ℕ) → ℕ → Result ℕ
word_at text pc = flat_read text (u32 pc) 4 >>= λ bytes. ok (le_word bytes)

-- The next instruction of a text, and so many of them.
pub step : ℕ → (ℕ → Option ℕ) → Arch → Result Arch
step fuel text a = word_at text a.pc >>= λ inst. exec fuel inst a

pub run : ℕ → (ℕ → Option ℕ) → ℕ → Arch → Result Arch
run fuel text zero a = ok a
run fuel text (suc n) a = step fuel text a >>= run fuel text n
