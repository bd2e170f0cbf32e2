-- ===== src/Tests/Machine.antt =====
-- Examples for the pipeline and the machine: a program that exits, through the three caches.
use riscv_64i_simulator.Common.{
  ◌≤◌, ◌*◌, ◌+◌, Bool, copy_in, copy_out, ℕ, Result, ◌≡◌, refl, ok, halt, exit_normally, ◌>>=◌,
  if◌then◌else◌, [], ◌∷◌, get_or, some,
}
use riscv_64i_simulator.Memory
use riscv_64i_simulator.Memory.{
  find_page, is_valid_addr, pde, pte, off, read_bytes, write_bytes, load_byte, store_byte, Memory,
}
use riscv_64i_simulator.Memory.Paging.{byte_at}
use riscv_64i_simulator.Cache
use riscv_64i_simulator.Cache.{
  ceil_log2_from, ceil_log2, low_mask, block_offset, set_index, tag_of, block_addr, kick_addr,
  find_way, pick_way, set_config, replace_decision, replace_algorithm, age, count_access,
  count_time, count_miss, send_through, on_hit, write_back, fetch_block, on_miss,
}
use riscv_64i_simulator.Cache.View.{view, find_block}
use riscv_64i_simulator.Isa.Inst.{is_bubble, is_branch, is_jump, is_load, always_taken}
use riscv_64i_simulator.Isa.Fields.{opcode, funct3, funct6, funct7, rd, rs1, rs2, imm_i, imm_sb}
use riscv_64i_simulator.Isa.Decode.{decode, decode_imm, type_imm, decode_system}
use riscv_64i_simulator.Isa.Execute.{execute}
use riscv_64i_simulator.Pipeline.Regs.{clear, tick}
use riscv_64i_simulator.Pipeline.State.{access, le_word, Sim}
use riscv_64i_simulator.Pipeline.Fetch.{fetch, fetched, predict, select_pc, takes}
use riscv_64i_simulator.Pipeline.Decode.{id, forward, forward_operand}
use riscv_64i_simulator.Pipeline.Syscall.{report}
use riscv_64i_simulator.Pipeline.Execute.{ex, ex_done, ex_bubble, call_system, is_ecall}
use riscv_64i_simulator.Pipeline.Memory.{mem, mem_store, mem_load, mem_done}
use riscv_64i_simulator.Pipeline.WriteBack.{wb}
use riscv_64i_simulator.Pipeline.Cycle.{
  start_cycle, end_cycle, tick_all, jump_hazard, branch_hazard, load_hazard, jump_in_id,
  mispredicted, load_use, cycle, simulate,
}
use riscv_64i_simulator.Main.{
  hierarchy_ops, new_hierarchy, new_cache, empty_memory, first_state, config_of, Levels,
}
use riscv_64i_simulator.Machine.Figures.{uncounted, id_waits}
use riscv_64i_simulator.Machine.Printed.{start-figures}
use riscv_64i_simulator.Main.Start.{start-report}
use riscv_64i_simulator.Main.Time.{access_bound, start-time}
use riscv_64i_simulator.Main.Guards.{hierarchy-IsGuarded, hierarchy-IsBounded}
use riscv_64i_simulator.Pipeline.Steps.{Steps}
use riscv_64i_simulator.Machine.Prepared.{IsPrepared, IsClean}
use riscv_64i_simulator.Main.Hierarchy.{
  hierarchy-IsStorage, new_hierarchy-AllCoherent, shown, AllCoherent,
}
use riscv_64i_simulator.Machine.{
  Arch, complete, enter, found, flat_store, flat_load, word_at, flat_read, flat_byte, step, run,
  no_report,
}
use riscv_64i_simulator.Machine.Abs.{flat, abs, drained, retire, pc_after, fall_through}
use riscv_64i_simulator.Machine.Run.{issues, cycle-step}
use riscv_64i_simulator.Machine.Drive.{drive, checked_cycle, drive-Runs, checked_cycle-IsClean}
use riscv_64i_simulator.Machine.Exit.{IsExit}
use riscv_64i_simulator.Machine.Progress.{Runs-progress}
use riscv_64i_simulator.Machine.Start.{
  power_on, first_state-IsPrepared, RunsFromStart, start-run, start-exit,
}
use riscv_64i_simulator.Pipeline.Forwarding.{commit}
use riscv_64i_simulator.Tests.{outcome}

-- `addi a7, zero, 93` and `ecall`, at the start of every page.
abbrev exiting : Memory
exiting = record empty_memory {
  memory =
      λ i. some (λ j. some (λ k. get_or (0x93 ∷ 0x08 ∷ 0xd0 ∷ 0x05 ∷ 0x73 ∷ 0 ∷ 0 ∷ 0 ∷ []) k 1));
}

abbrev no_garbage : ℕ → ℕ → ℕ → ℕ
no_garbage i j k = 0

abbrev begin : Sim Levels
begin = first_state always_taken (new_hierarchy no_garbage exiting) 0

abbrev driven : Result (ℕ × Sim Levels)
driven = drive hierarchy_ops shown 1 (flat (byte_at exiting)) 3 begin

abbrev first_cycle : Result (Bool × Sim Levels)
first_cycle = checked_cycle hierarchy_ops shown 1 (flat (byte_at exiting)) begin

-- What the first cycle and the first three come to: the ECALL is in EX, and MEM succeeds. After two
-- the ADDI is in EX.
record Exiting (r : ℕ × Sim Levels) : Type 0 where
  first : (q : Bool × Sim Levels) × (first_cycle ≡ ok q)
  runs : driven ≡ ok r
  exits : IsExit r.1.ereg.cur
  two : (q : ℕ × Sim Levels) × (drive hierarchy_ops shown 1 (flat (byte_at exiting)) 2 begin ≡ ok q)
  stands : (a : Arch) × (abs shown 1 two.0.1 ≡ ok a)
  mem_works : (u : Sim Levels) × (mem hierarchy_ops (wb (start_cycle r.1)) ≡ ok u)

three_cycles : (r : ℕ × Sim Levels) × Exiting r
unfolding copy_in copy_out find_page is_valid_addr pde pte off read_bytes write_bytes load_byte
    store_byte Memory.handle_request byte_at view find_block is_bubble is_branch is_jump is_load
    opcode funct3 funct6 funct7 rd rs1 rs2 imm_i imm_sb decode decode_imm type_imm decode_system
    execute clear tick access le_word fetch fetched predict select_pc takes id forward
    forward_operand ex ex_done ex_bubble call_system is_ecall mem mem_store mem_load mem_done wb
    start_cycle end_cycle tick_all jump_hazard branch_hazard load_hazard jump_in_id mispredicted
    load_use hierarchy_ops new_hierarchy new_cache empty_memory first_state config_of word_at
    flat_read flat_byte flat issues drive checked_cycle outcome ceil_log2_from ceil_log2 low_mask
    block_offset set_index tag_of block_addr kick_addr find_way pick_way set_config replace_decision
    replace_algorithm age count_access count_time count_miss send_through on_hit write_back
    fetch_block on_miss Cache.handle_request abs drained complete enter found retire pc_after
    fall_through commit flat_store flat_load
three_cycles =
    let d = outcome driven refl in
    let both = outcome (drive hierarchy_ops shown 1 (flat (byte_at exiting)) 2 begin) refl in
    (
      d.0,
      record {
        first = outcome first_cycle refl;
        runs = d.1;
        exits = record { call = refl; number = refl };
        two = both;
        stands = outcome (abs shown 1 both.0.1) refl;
        mem_works = outcome (mem hierarchy_ops (wb (start_cycle d.0.1))) refl;
      },
    )

abbrev after_three : Sim Levels
after_three = three_cycles.0.1

runs : RunsFromStart 1 no_garbage exiting always_taken 0 3 three_cycles.0.0 after_three
runs =
    drive-Runs hierarchy_ops shown 1 (flat (byte_at exiting)) 3 begin three_cycles.0
      three_cycles.1.runs

start-run_example :
    (simulate hierarchy_ops 1 3 begin ≡ ok after_three)
    × (abs shown 1 after_three
        ≡ run 1 (flat (byte_at exiting)) three_cycles.0.0 (power_on (flat (byte_at exiting)) 0))
start-run_example =
    start-run 1 no_garbage exiting always_taken 0 3 three_cycles.0.0 after_three runs

start-exit_example :
    (cycle hierarchy_ops 1 after_three
      ≡ halt (exit_normally (report three_cycles.1.mem_works.0.counters) after_three.printed))
    × (run 1 (flat (byte_at exiting)) three_cycles.0.0 (power_on (flat (byte_at exiting)) 0)
        ≡ halt (exit_normally no_report after_three.printed))
start-exit_example =
    start-exit 1 no_garbage exiting always_taken 0 3 three_cycles.0.0 after_three
      three_cycles.1.mem_works.0 runs three_cycles.1.exits three_cycles.1.mem_works.1

-- The first cycle, which hands no instruction on.
first_clean :
    (k : Steps hierarchy_ops 1 begin three_cycles.1.first.0.1) × IsClean hierarchy_ops shown 1
      (flat (byte_at exiting))
      begin
      three_cycles.1.first.0.1
      k
    × (issues k.after_if ≡ three_cycles.1.first.0.0)
first_clean =
    checked_cycle-IsClean hierarchy_ops shown 1 (flat (byte_at exiting)) begin
      three_cycles.1.first.0 three_cycles.1.first.1

begin-IsPrepared : IsPrepared AllCoherent (flat (byte_at exiting)) begin
begin-IsPrepared =
    first_state-IsPrepared shown always_taken (new_hierarchy no_garbage exiting) 0 AllCoherent
      (flat (byte_at exiting)) (new_hierarchy-AllCoherent no_garbage exiting)

cycle-step_example : abs shown 1 three_cycles.1.first.0.1 ≡ (
    if issues first_clean.0.after_if
    then abs shown 1 begin >>= step 1 (flat (byte_at exiting))
    else abs shown 1 begin)
cycle-step_example =
    cycle-step hierarchy_ops shown AllCoherent hierarchy-IsStorage hierarchy-IsGuarded
      hierarchy-IsBounded 1 (flat (byte_at exiting)) begin three_cycles.1.first.0.1 first_clean.0
      begin-IsPrepared first_clean.1

Runs-progress_example : 3 ≤ three_cycles.0.0 * 3 + 2
Runs-progress_example =
    Runs-progress hierarchy_ops shown AllCoherent hierarchy-IsStorage hierarchy-IsGuarded
      hierarchy-IsBounded 1 (flat (byte_at exiting)) 3 three_cycles.0.0 begin after_three
      begin-IsPrepared runs

start-figures_example :
    ((report after_three.counters).pipeline_cycles ≡ 3)
    × ((report after_three.counters).instructions + uncounted after_three ≡ three_cycles.0.0)
    × (three_cycles.0.0
          + (report after_three.counters).loaduse_hazards
          + (report after_three.counters).control_hazards
          + 1
        ≤ 3 + id_waits after_three)
    × (3 + id_waits after_three
        ≤ three_cycles.0.0
          + (report after_three.counters).loaduse_hazards
          + (report after_three.counters).control_hazards
          + (report after_three.counters).mispredicts
          + 1)
start-figures_example =
    start-figures 1 no_garbage exiting always_taken 0 3 three_cycles.0.0 after_three runs

start-report_example :
    ((report after_three.counters).cache_accesses ≡ after_three.storage.stats.access_counter)
    × ((report after_three.counters).cache_misses ≡ after_three.storage.stats.miss_num)
start-report_example =
    start-report 1 3 no_garbage exiting always_taken 0 after_three start-run_example.0

start-time_example :
    (after_three.counters.cache_cnt ≤ after_three.counters.cache_cycle_cnt)
    × (after_three.counters.cache_cycle_cnt ≤ access_bound exiting * after_three.counters.cache_cnt)
start-time_example =
    start-time 1 3 no_garbage exiting always_taken 0 after_three start-run_example.0
