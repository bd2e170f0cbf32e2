-- ===== src/Tests/Pipeline/Branches.antt =====
-- Examples of whole cycles: branches, jumps and the invariant.
use riscv_64i_simulator.Common.{if◌then◌else◌, ◌≡◌, ◌^◌, ◌-◌, refl, arith, ok, true, false}
use riscv_64i_simulator.Memory
use riscv_64i_simulator.Memory.{
  Memory, alloc, find_page, is_valid_addr, pde, pte, off, read_bytes, load_byte,
}
use riscv_64i_simulator.Isa.Inst.{
  InstType, always_taken, not_taken, is_branch, is_jump, is_bubble, is_load,
}
use riscv_64i_simulator.Isa.Fields.{opcode, imm_sb}
use riscv_64i_simulator.Isa.Execute.{ExResult, execute, no_result}
use riscv_64i_simulator.Main.{empty_memory, first_state}
use riscv_64i_simulator.Pipeline.Regs.{clear, tick}
use riscv_64i_simulator.Pipeline.State.{Sim, le_word, access}
use riscv_64i_simulator.Pipeline.Fetch.{fetch, fetched, predict, select_pc, takes}
use riscv_64i_simulator.Pipeline.Decode.{id}
use riscv_64i_simulator.Pipeline.Execute.{ex, ex_done, ex_bubble, call_system, is_ecall}
use riscv_64i_simulator.Pipeline.Memory.{mem, mem_store, mem_load, mem_done}
use riscv_64i_simulator.Pipeline.WriteBack.{wb}
use riscv_64i_simulator.Pipeline.Cycle.{
  simulate, simulate, cycle, start_cycle, end_cycle, tick_all, jump_hazard, branch_hazard,
  load_hazard, jump_in_id, mispredicted, load_use,
}
use riscv_64i_simulator.Pipeline.Invariant.{IsInvariant, no_dest}
use riscv_64i_simulator.Pipeline.Steps.{Steps, cycle-Steps, cycle-IsInvariant}
use riscv_64i_simulator.Pipeline.Branches.{
  IsPredicted, branch_target, branch_right, branch_wrong, jump_resolves,
}
use riscv_64i_simulator.Main.Start.{start-IsInvariant, start-IsTally}
use riscv_64i_simulator.Pipeline.Tally.{IsTally}
use riscv_64i_simulator.Tests.{page_zero, memory_ops, at_start, outcome}

-- `bne a5, a4, -28` at 64 in EX, with different operands, predicted as not taken.
abbrev branching : Sim Memory
branching = record at_start {
  ereg = record (at_start.ereg) {
    cur = record {
      pc = 64;
      rs1 = 15;
      rs2 = 14;
      destreg = 0;
      inst = InstType.bne;
      pc_not_taken = 36;
      val_a = 1;
      val_b = 2;
      offset = 2 ^ 64 - 28;
      take_branch = false;
    };
  };
}

branching-IsInvariant : IsInvariant branching
unfolding at_start first_state clear no_dest
branching-IsInvariant = ground arith

branching-IsPredicted : IsPredicted not_taken 0xfee792e3 branching.ereg.cur
unfolding is_branch opcode predict takes imm_sb
branching-IsPredicted = record { branch = refl; word = refl; guess = refl; other = refl }

-- What EX finds of it: it is taken.
abbrev taken : ExResult
taken = record {
  val_e = 36;
  val_b = 2;
  calculated_pc = 0;
  reg_write = false;
  mem_write = false;
  mem_read = false;
  mem_signed = false;
  mem_len = 0;
  res_branch = true;
}

runs : execute InstType.bne 64 1 2 (2 ^ 64 - 28) ≡ ok taken
unfolding execute
runs = refl

one_cycle : (t : Sim Memory) × (cycle memory_ops 1 branching ≡ ok t)
unfolding at_start first_state clear page_zero empty_memory alloc is_valid_addr find_page pde pte
    off cycle start_cycle wb mem ex ex_done call_system is_ecall execute id fetch fetched access
    predict takes select_pc imm_sb opcode Memory.handle_request read_bytes load_byte le_word
    is_bubble is_branch is_jump
one_cycle = outcome (cycle memory_ops 1 branching) refl

cycle-IsInvariant_example : IsInvariant one_cycle.0
cycle-IsInvariant_example =
    cycle-IsInvariant memory_ops 1 branching one_cycle.0 branching-IsInvariant one_cycle.1

two_cycles : (t : Sim Memory) × (cycle memory_ops 1 one_cycle.0 ≡ ok t)
unfolding one_cycle outcome end_cycle tick_all tick jump_hazard branch_hazard load_hazard jump_in_id
    mispredicted load_use is_load ex_bubble mem_store mem_load mem_done at_start first_state clear
    page_zero empty_memory alloc is_valid_addr find_page pde pte off cycle start_cycle wb mem ex
    ex_done call_system is_ecall execute id fetch fetched access predict takes select_pc imm_sb
    opcode Memory.handle_request read_bytes load_byte le_word is_bubble is_branch is_jump
two_cycles = outcome (cycle memory_ops 1 one_cycle.0) refl

branch_wrong_example :
    (one_cycle.0.dreg.cur.inst ≡ 0)
    × (one_cycle.0.ereg.cur.inst ≡ InstType.bubble)
    × (select_pc (cycle-Steps memory_ops 1 one_cycle.0 two_cycles.0 two_cycles.1).after_id
        ≡ branch_target 64 0xfee792e3 true)
branch_wrong_example =
    branch_wrong memory_ops 1 branching one_cycle.0 two_cycles.0 not_taken 0xfee792e3 taken
      branching-IsInvariant branching-IsPredicted runs refl one_cycle.1
      (cycle-Steps memory_ops 1 one_cycle.0 two_cycles.0 two_cycles.1)

-- The same branch with equal operands is not taken, as predicted.
abbrev falling : Sim Memory
falling = record branching {
  ereg = record (branching.ereg) { cur = record (branching.ereg.cur) { val_b = 1 } };
}

falling-IsInvariant : IsInvariant falling
unfolding at_start first_state clear no_dest
falling-IsInvariant = ground arith

runs_on : execute InstType.bne 64 1 1 (2 ^ 64 - 28) ≡ ok (no_result 1)
unfolding execute
runs_on = refl

falling_cycle : (t : Sim Memory) × (cycle memory_ops 1 falling ≡ ok t)
unfolding at_start first_state clear page_zero empty_memory alloc is_valid_addr find_page pde pte
    off cycle start_cycle wb mem ex ex_done call_system is_ecall execute id fetch fetched access
    predict takes select_pc imm_sb opcode Memory.handle_request read_bytes load_byte le_word
    is_bubble is_branch is_jump
falling_cycle = outcome (cycle memory_ops 1 falling) refl

falling_steps : Steps memory_ops 1 falling falling_cycle.0
falling_steps = cycle-Steps memory_ops 1 falling falling_cycle.0 falling_cycle.1

branch_right_example :
    (select_pc falling_steps.after_id ≡ falling.freg.cur.pred_pc)
    × (falling_cycle.0.ereg.cur ≡ falling_steps.after_id.ereg.upd)
    × (falling_cycle.0.dreg.cur.inst
        ≡ (if jump_in_id falling_steps.after_if then 0 else falling_steps.after_if.dreg.upd.inst))
    × (falling_cycle.0.counters.mispredict ≡ falling.counters.mispredict)
    × (falling_cycle.0.counters.loaduse_cnt ≡ falling.counters.loaduse_cnt)
branch_right_example =
    branch_right memory_ops 1 falling falling_cycle.0 (no_result 1) falling-IsInvariant
      branching-IsPredicted.branch runs_on refl falling_steps

-- `jal zero, 16` at 64 in EX.
abbrev jumping : Sim Memory
jumping = record branching {
  ereg = record (branching.ereg) {
    cur = record (branching.ereg.cur) { inst = InstType.jal; val_a = 16; val_b = 0; offset = 0 };
  };
}

jumping-IsInvariant : IsInvariant jumping
unfolding at_start first_state clear no_dest
jumping-IsInvariant = ground arith

abbrev linked : ExResult
linked = record (no_result 0) { reg_write = true; val_e = 68; calculated_pc = 80 }

runs_to : execute InstType.jal 64 16 0 0 ≡ ok linked
unfolding execute
runs_to = refl

jumping_cycle : (t : Sim Memory) × (cycle memory_ops 1 jumping ≡ ok t)
unfolding at_start first_state clear page_zero empty_memory alloc is_valid_addr find_page pde pte
    off cycle start_cycle wb mem ex ex_done call_system is_ecall execute id fetch fetched access
    predict takes select_pc imm_sb opcode Memory.handle_request read_bytes load_byte le_word
    is_bubble is_branch is_jump
jumping_cycle = outcome (cycle memory_ops 1 jumping) refl

jump_resolves_example :
    select_pc (cycle-Steps memory_ops 1 jumping jumping_cycle.0 jumping_cycle.1).after_id ≡ 80
unfolding is_jump
jump_resolves_example =
    jump_resolves memory_ops 1 jumping jumping_cycle.0 linked jumping-IsInvariant refl runs_to
      (cycle-Steps memory_ops 1 jumping jumping_cycle.0 jumping_cycle.1)

-- Two rounds of the loop from the first state.
two_rounds :
    (t : Sim Memory) × (simulate memory_ops 1 2 (first_state always_taken page_zero 64) ≡ ok t)
unfolding simulate end_cycle tick_all tick jump_hazard branch_hazard load_hazard jump_in_id
    mispredicted load_use is_load ex_bubble mem_store mem_load mem_done at_start first_state clear
    page_zero empty_memory alloc is_valid_addr find_page pde pte off cycle start_cycle wb mem ex
    ex_done call_system is_ecall execute id fetch fetched access predict takes select_pc imm_sb
    opcode Memory.handle_request read_bytes load_byte le_word is_bubble is_branch is_jump
two_rounds = outcome (simulate memory_ops 1 2 (first_state always_taken page_zero 64)) refl

start-IsInvariant_example : IsInvariant two_rounds.0
start-IsInvariant_example =
    start-IsInvariant memory_ops 1 2 always_taken page_zero 64 two_rounds.0 two_rounds.1

start-IsTally_example : IsTally two_rounds.0.counters
start-IsTally_example =
    start-IsTally memory_ops 1 2 always_taken page_zero 64 two_rounds.0 two_rounds.1
