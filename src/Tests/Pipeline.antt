-- ===== src/Tests/Pipeline.antt =====
-- Examples for the pipeline.
pub mod Branches
pub mod LostJump
use riscv_64i_simulator.Common.{
  ℕ, ◌<◌, ◌==◌, ◌≢◌, ◌≡◌, ◌%◌, ◌^◌, ◌+◌, ◌>>=◌, ◌||◌, refl, none, some, List, [], ◌∷◌, arith,
  Option, ok, Result, true, false, if◌then◌else◌, u32,
}
use riscv_64i_simulator.Storage.Laws.{Fits, IsStorage}
use riscv_64i_simulator.Memory
use riscv_64i_simulator.Memory.{
  Memory, alloc, find_page, is_valid_addr, pde, pte, off, store_byte, write_bytes,
}
use riscv_64i_simulator.Memory.Paging.{byte_at}
use riscv_64i_simulator.Memory.Serves.{Always, memory-IsStorage}
use riscv_64i_simulator.Isa.Inst.{InstType, no_reg, is_load, op_jal}
use riscv_64i_simulator.Isa.Fields.{opcode}
use riscv_64i_simulator.Isa.Decode.{decode}
use riscv_64i_simulator.Main.{
  hierarchy_ops, empty_memory, first_state, default_options, boot, Levels,
}
use riscv_64i_simulator.Loader.{loader}
use riscv_64i_simulator.Pipeline.Regs.{clear}
use riscv_64i_simulator.Pipeline.State.{Sim, Ops, le_bytes}
use riscv_64i_simulator.Pipeline.Decode.{id}
use riscv_64i_simulator.Pipeline.Cycle.{simulate, end_cycle, jump_in_id, mispredicted, load_use}
use riscv_64i_simulator.Pipeline.Regs.{MRegion}
use riscv_64i_simulator.Pipeline.Memory.{mem_store, mem_load}
use riscv_64i_simulator.Pipeline.Forwarding.{DestsInRange, in_flight, issued, id-in_flight}
use riscv_64i_simulator.Pipeline.Hazards.{IsSettled, end_cycle_lem}
use riscv_64i_simulator.Pipeline.Invariant.{IsInvariant}
use riscv_64i_simulator.Pipeline.Accesses.{next_in_mem, mem_load-mem_store, eight_bytes}
use riscv_64i_simulator.Pipeline.Strings.{
  HoldsString, nul, char_then, Printed, print_string-Printed,
}
use riscv_64i_simulator.Tests.{page_zero, memory_ops, at_start, outcome}

-- `add a0, a0, a1` in ID, while EX is about to write a0 and MEM a1.
abbrev adding : Sim Memory
adding = record at_start {
  dreg = record (at_start.dreg) { cur = record (at_start.dreg.cur) { inst = 0x00b50533 } };
  ereg = record (at_start.ereg) { cur = record (at_start.ereg.cur) { destreg = 10 } };
  mreg = record (at_start.mreg) { cur = record (at_start.mreg.cur) { dest_reg = 11 } };
  e_reg_write = true;
  e_val_e = 7;
  m_reg_write = true;
  m_val_m = 8;
}

id-in_flight_example : id adding ≡ (
    decode (in_flight adding) adding.dreg.cur.inst >>= λ d. ok (record adding {
      d_reg1 = d.reg1;
      d_reg2 = d.reg2;
      ereg = record (adding.ereg) { upd = issued adding d };
    }))
id-in_flight_example =
    id-in_flight adding (record { ex_dest = λ h. omega arith; mem_dest = λ h. omega arith })
      (omega arith)

-- `jalr a0` in ID, while EX loads a0.
abbrev waiting : Sim Memory
waiting = record at_start {
  dreg = record (at_start.dreg) { cur = record (at_start.dreg.cur) { inst = 0x00050067 } };
  ereg = record (at_start.ereg) {
    cur = record (at_start.ereg.cur) { destreg = 10; inst = InstType.ld };
  };
  d_reg1 = 10;
}

waiting-IsSettled : IsSettled waiting
unfolding at_start first_state clear
waiting-IsSettled = record {
  f_idle = (refl, refl);
  d_idle = (refl, refl);
  e_idle = (refl, refl);
  m_idle = (refl, refl);
  w_idle = (refl, refl);
}

end_cycle_lem_example :
    ((end_cycle waiting).freg.cur ≡ (
      if jump_in_id waiting || (mispredicted waiting || load_use waiting)
      then waiting.freg.cur
      else waiting.freg.upd))
    × ((end_cycle waiting).dreg.cur ≡ (
        if jump_in_id waiting || mispredicted waiting
        then record (waiting.dreg.cur) { inst = 0 }
        else if load_use waiting
        then waiting.dreg.cur
        else waiting.dreg.upd))
    × ((end_cycle waiting).ereg.cur ≡ (
        if mispredicted waiting || load_use waiting
        then record (waiting.ereg.cur) { inst = InstType.bubble }
        else waiting.ereg.upd))
    × ((end_cycle waiting).mreg.cur ≡ waiting.mreg.upd)
    × ((end_cycle waiting).wreg.cur ≡ waiting.wreg.upd)
end_cycle_lem_example = end_cycle_lem waiting waiting-IsSettled

-- A store of eight bytes in MEM, and then a load of them.
abbrev storing : Sim Memory
storing = record at_start {
  mreg = record (at_start.mreg) {
    cur = record (at_start.mreg.cur) {
      inst = InstType.sd;
      val_e = 24;
      val_b = 0x1122334455667788;
      mem_len = 8;
      mem_write = true;
    };
  };
}

in_a_block : Fits 24 8
in_a_block = record { some_bytes = omega arith; is_addr = omega arith; in_block = omega arith }

there : byte_at page_zero 24 ≢ none
unfolding page_zero empty_memory alloc is_valid_addr byte_at find_page pde pte off
there h = cc

abbrev loading : MRegion
loading = record (storing.mreg.cur) { inst = InstType.ld; mem_write = false; mem_read = true }

shown_valid : (m : Memory) → byte_at m 24 ≢ none → is_valid_addr m 24 ≡ true
unfolding is_valid_addr find_page byte_at
shown_valid m h = ground arith

mem_load-mem_store_example :
    (r : Sim Memory × ℕ) × ((mem_store memory_ops storing >>= λ u.
    mem_load memory_ops (next_in_mem loading u))
      ≡ ok r)
    × (r.1 ≡ 0x1122334455667788 % 256 ^ 8)
    × Always r.0.storage
unfolding at_start first_state
mem_load-mem_store_example =
    mem_load-mem_store memory_ops byte_at Always memory-IsStorage storing loading tt refl in_a_block
      eight_bytes there refl refl refl (λ x g h. shown_valid x h)

-- A page of the letter a, with a NUL in cell 2.
abbrev letters : Memory
letters = record empty_memory { memory = λ i. some (λ j. some (λ k. if k == 2 then 0 else 97)) }

letters_at : (a : ℕ) → byte_at letters a ≡ some (if off a == 2 then 0 else 97)
unfolding byte_at find_page
letters_at a = refl

letters-HoldsString : HoldsString (byte_at letters) 0 (97 ∷ 97 ∷ [])
unfolding off
letters-HoldsString =
    char_then (omega arith) (letters_at 0) (omega arith)
      (char_then (omega arith) (letters_at 1) (omega arith) (nul (omega arith) (letters_at 2)))

abbrev before_print : Sim Memory
before_print = record at_start { storage = letters }

print_string-Printed_example :
    Printed memory_ops byte_at Always memory-IsStorage 3 before_print 0 (97 ∷ 97 ∷ [])
print_string-Printed_example =
    print_string-Printed memory_ops byte_at Always memory-IsStorage 3 before_print 0 (97 ∷ 97 ∷ [])
      (omega arith) tt letters-HoldsString
