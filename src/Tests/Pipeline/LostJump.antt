-- ===== src/Tests/Pipeline/LostJump.antt =====
-- Example of a JALR that is thrown away: `ld a0, 0(a1)` at 60 in EX, and `jalr zero, 0(a0)` at 64 in
-- ID.
use riscv_64i_simulator.Common.{◌+◌, ◌≡◌, refl, arith, ok, false}
use riscv_64i_simulator.Memory
use riscv_64i_simulator.Memory.{
  Memory, alloc, find_page, is_valid_addr, pde, pte, off, read_bytes, load_byte,
}
use riscv_64i_simulator.Isa.Inst.{InstType, is_branch, is_jump, is_bubble, is_load}
use riscv_64i_simulator.Isa.Fields.{opcode, imm_sb}
use riscv_64i_simulator.Isa.Execute.{execute}
use riscv_64i_simulator.Main.{empty_memory, first_state}
use riscv_64i_simulator.Pipeline.Regs.{clear, tick}
use riscv_64i_simulator.Pipeline.State.{Sim, le_word, access}
use riscv_64i_simulator.Pipeline.Fetch.{fetch, fetched, predict, select_pc, takes}
use riscv_64i_simulator.Pipeline.Decode.{id}
use riscv_64i_simulator.Pipeline.Execute.{ex, ex_done, ex_bubble, call_system, is_ecall}
use riscv_64i_simulator.Pipeline.Memory.{mem, mem_store, mem_load, mem_done}
use riscv_64i_simulator.Pipeline.WriteBack.{wb}
use riscv_64i_simulator.Pipeline.Cycle.{
  cycle, start_cycle, end_cycle, tick_all, jump_hazard, branch_hazard, load_hazard, jump_in_id,
  mispredicted, load_use,
}
use riscv_64i_simulator.Pipeline.Invariant.{IsInvariant, no_dest}
use riscv_64i_simulator.Pipeline.Steps.{Steps, cycle-Steps}
use riscv_64i_simulator.Tests.{page_zero, memory_ops, at_start, outcome}
use riscv_64i_simulator.Machine.Prepared.{IsGuided}
use riscv_64i_simulator.Machine.LostJump.{jump_lost}
use riscv_64i_simulator.Isa.Fields.{funct3, rd, rs1, imm_i}
use riscv_64i_simulator.Isa.Decode.{decode, decode_jalr}
use riscv_64i_simulator.Pipeline.Decode.{forward, forward_operand}

abbrev loading_target : Sim Memory
loading_target = record at_start {
  freg = record (at_start.freg) { cur = record (at_start.freg.cur) { pred_pc = 68 } };
  dreg = record (at_start.dreg) {
    cur = record { pc = 64; inst = 0x00050067; pc_not_taken = 68; take_branch = false };
  };
  ereg = record (at_start.ereg) {
    cur = record (at_start.ereg.cur) { pc = 60; rs1 = 11; destreg = 10; inst = InstType.ld };
  };
}

loading_target-IsInvariant : IsInvariant loading_target
unfolding at_start first_state clear no_dest
loading_target-IsInvariant = ground arith

loading_target-IsGuided : IsGuided loading_target
unfolding at_start first_state clear predict opcode is_jump
loading_target-IsGuided = record {
  guessed = λ n. record { guess = refl; other = refl; next = refl };
  jump_alone = λ j. cc;
}

first_cycle : (t : Sim Memory) × (cycle memory_ops 1 loading_target ≡ ok t)
unfolding at_start first_state clear page_zero empty_memory alloc is_valid_addr find_page pde pte
    off cycle start_cycle wb mem ex ex_done call_system is_ecall execute id fetch fetched access
    predict takes select_pc imm_sb opcode Memory.handle_request read_bytes load_byte le_word
    is_bubble is_branch is_jump decode decode_jalr forward forward_operand funct3 rd rs1 imm_i
first_cycle = outcome (cycle memory_ops 1 loading_target) refl

second_cycle : (t : Sim Memory) × (cycle memory_ops 1 first_cycle.0 ≡ ok t)
unfolding first_cycle outcome end_cycle tick_all tick jump_hazard branch_hazard load_hazard
    jump_in_id mispredicted load_use is_load ex_bubble mem_store mem_load mem_done at_start
    first_state clear page_zero empty_memory alloc is_valid_addr find_page pde pte off cycle
    start_cycle wb mem ex ex_done call_system is_ecall execute id fetch fetched access predict takes
    select_pc imm_sb opcode Memory.handle_request read_bytes load_byte le_word is_bubble is_branch
    is_jump decode decode_jalr forward forward_operand funct3 rd rs1 imm_i
second_cycle = outcome (cycle memory_ops 1 first_cycle.0) refl

second_steps : Steps memory_ops 1 first_cycle.0 second_cycle.0
second_steps = cycle-Steps memory_ops 1 first_cycle.0 second_cycle.0 second_cycle.1

jump_lost_example :
    (first_cycle.0.dreg.cur.inst ≡ 0)
    × (first_cycle.0.ereg.cur.inst ≡ InstType.bubble)
    × (select_pc second_steps.after_id ≡ 64 + 4)
unfolding opcode rs1 is_load
jump_lost_example =
    jump_lost memory_ops 1 loading_target first_cycle.0
      (cycle-Steps memory_ops 1 loading_target first_cycle.0 first_cycle.1)
      loading_target-IsInvariant refl (omega arith) refl refl second_cycle.0 loading_target-IsGuided
      second_steps
