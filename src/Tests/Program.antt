-- ===== src/Tests/Program.antt =====
-- Examples for `main` from its arguments on: a program of one segment that exits.
use riscv_64i_simulator.Common.{
  ℕ, zero, suc, ◌+◌, ◌-◌, ◌*◌, ◌%◌, ◌≤◌, ◌≡◌, ◌≢◌, Bool, true, not, ◌&&◌, ◌==◌, halt, exit_normally,
  u32, >>=-eq-ok, sym, ◌∙◌, refl, arith, Option, some, List, [], ◌∷◌, Result, ok, get_or, copy_in,
  copy_out,
}
use riscv_64i_simulator.Memory
use riscv_64i_simulator.Memory.{
  Memory, find_page, is_valid_addr, alloc, pde, pte, off, read_bytes, write_bytes, load_byte,
  store_byte,
}
use riscv_64i_simulator.Memory.Paging.{byte_at}
use riscv_64i_simulator.Cache
use riscv_64i_simulator.Cache.{
  ceil_log2_from, ceil_log2, low_mask, block_offset, set_index, tag_of, block_addr, kick_addr,
  find_way, pick_way, set_config, replace_decision, replace_algorithm, age, count_access,
  count_time, count_miss, send_through, on_hit, write_back, fetch_block, on_miss,
}
use riscv_64i_simulator.Cache.View.{view, find_block}
use riscv_64i_simulator.Isa.Inst.{is_bubble, is_branch, is_jump, is_load}
use riscv_64i_simulator.Isa.Fields.{opcode, funct3, funct6, funct7, rd, rs1, rs2, imm_i, imm_sb}
use riscv_64i_simulator.Isa.Decode.{decode, decode_imm, type_imm, decode_system}
use riscv_64i_simulator.Isa.Execute.{execute}
use riscv_64i_simulator.Pipeline.Regs.{clear, tick}
use riscv_64i_simulator.Pipeline.State.{access, le_word, Sim}
use riscv_64i_simulator.Pipeline.Fetch.{fetch, fetched, predict, select_pc, takes}
use riscv_64i_simulator.Pipeline.Decode.{id, forward, forward_operand}
use riscv_64i_simulator.Pipeline.Execute.{ex, ex_done, ex_bubble, call_system, is_ecall}
use riscv_64i_simulator.Pipeline.Memory.{mem, mem_store, mem_load, mem_done}
use riscv_64i_simulator.Pipeline.WriteBack.{wb}
use riscv_64i_simulator.Pipeline.Cycle.{
  start_cycle, end_cycle, tick_all, jump_hazard, branch_hazard, load_hazard, jump_in_id,
  mispredicted, load_use,
}
use riscv_64i_simulator.Loader.{
  Segment, ensure_page, alloc_range, store_range, load_segment, loader, map_pages, map_stack,
}
use riscv_64i_simulator.Loader.Image.{image, with_segments, AllLoadable}
use riscv_64i_simulator.Main.{
  Levels, Arg, Options, Program, hierarchy_ops, new_hierarchy, new_cache, empty_memory, first_state,
  config_of, boot, main, parse_args, default_options, set_flag, strategy_of, same_text,
}
use riscv_64i_simulator.Main.Hierarchy.{shown}
use riscv_64i_simulator.Machine.{run, no_report, word_at, flat_read, flat_byte}
use riscv_64i_simulator.Machine.Abs.{abs, flat}
use riscv_64i_simulator.Machine.Run.{issues}
use riscv_64i_simulator.Machine.Drive.{drive, checked_cycle, drive-Runs}
use riscv_64i_simulator.Machine.Start.{power_on}
use riscv_64i_simulator.Machine.Program.{program_image, boot-image, main-run, main-exit}
use riscv_64i_simulator.Machine.JumpSafe.{IsJumpSafe, Fetches, Runs-Fetches}
use riscv_64i_simulator.Machine.Exit.{IsExit}
use riscv_64i_simulator.Pipeline.Syscall.{report}
use riscv_64i_simulator.Common.Bits.{bit_and-mask}
use riscv_64i_simulator.Tests.{outcome}

-- `addi a7, zero, 93`, `ecall` and two `nop`s.
abbrev exit_bytes : List ℕ
exit_bytes = 0x93 ∷ 0x08 ∷ 0xd0 ∷ 0x05 ∷ 0x73 ∷ 0 ∷ 0 ∷ 0 ∷ 0x13 ∷ 0 ∷ 0 ∷ 0 ∷ 0x13 ∷ 0 ∷ 0 ∷ 0 ∷ []

abbrev exit_segment : Segment
exit_segment = record {
  file_size = 16;
  memory_size = 64;
  virtual_address = 0x10000;
  bytes = λ i. get_or exit_bytes i 0;
}

abbrev exit_program : Program
exit_program = record { segments = exit_segment ∷ []; entry = 0x10000 }

exit_program-AllLoadable : AllLoadable 70 exit_program.segments
exit_program-AllLoadable =
    (record { aligned = refl; file_fits = omega arith; below = omega arith }, omega arith, tt)

-- `-b NT a`
abbrev arguments : List Arg
arguments = (b'-' ∷ b'b' ∷ []) ∷ (b'N' ∷ b'T' ∷ []) ∷ (b'a' ∷ []) ∷ []

abbrev options : Options
options = parse_args default_options arguments

abbrev garbage : ℕ → ℕ → ℕ → ℕ
garbage i j k = k

abbrev booted : Result (Sim Levels)
booted = boot 70 garbage options exit_program.segments exit_program.entry

-- After three cycles the ECALL is in EX, and MEM succeeds.
record Begun (r : ℕ × Sim Levels) : Type 0 where
  first : Sim Levels
  boots : booted ≡ ok first
  runs : drive hierarchy_ops shown 70 (program_image exit_program) 3 first ≡ ok r
  exits : IsExit r.1.ereg.cur
  mem_works : (u : Sim Levels) × (mem hierarchy_ops (wb (start_cycle r.1)) ≡ ok u)

three_cycles : (r : ℕ × Sim Levels) × Begun r
unfolding copy_in copy_out find_page is_valid_addr alloc pde pte off read_bytes write_bytes
    load_byte store_byte Memory.handle_request byte_at view find_block is_bubble is_branch is_jump
    is_load opcode funct3 funct6 funct7 rd rs1 rs2 imm_i imm_sb decode decode_imm type_imm
    decode_system execute clear tick access le_word fetch fetched predict select_pc takes id forward
    forward_operand ex ex_done ex_bubble call_system is_ecall mem mem_store mem_load mem_done wb
    start_cycle end_cycle tick_all jump_hazard branch_hazard load_hazard jump_in_id mispredicted
    load_use hierarchy_ops new_hierarchy new_cache empty_memory first_state config_of word_at
    flat_read flat_byte flat issues drive checked_cycle outcome ceil_log2_from ceil_log2 low_mask
    block_offset set_index tag_of block_addr kick_addr find_way pick_way set_config replace_decision
    replace_algorithm age count_access count_time count_miss send_through on_hit write_back
    fetch_block on_miss Cache.handle_request boot parse_args set_flag strategy_of same_text
    ensure_page alloc_range store_range load_segment loader map_pages map_stack image with_segments
three_cycles =
    let b = outcome booted refl in
    let d = outcome (drive hierarchy_ops shown 70 (program_image exit_program) 3 b.0) refl in
    (
      d.0,
      record {
        first = b.0;
        boots = b.1;
        runs = d.1;
        exits = record { call = refl; number = refl };
        mem_works = outcome (mem hierarchy_ops (wb (start_cycle d.0.1))) refl;
      },
    )

abbrev booted_state : Sim Levels
booted_state = three_cycles.1.first

abbrev reached : Sim Levels
reached = three_cycles.0.1

fetches : Fetches hierarchy_ops shown 70 (program_image exit_program) 3 booted_state reached
fetches =
    Runs-Fetches hierarchy_ops shown 70 (program_image exit_program) 3 three_cycles.0.0 booted_state
      reached
      (drive-Runs hierarchy_ops shown 70 (program_image exit_program) 3 booted_state three_cycles.0
        three_cycles.1.runs)

-- No byte of the program begins a load.
no_load_code : List ℕ → Bool
no_load_code [] = true
no_load_code (v ∷ vs) = not (v % 128 == 3) && no_load_code vs

get_or-no_load : (vs : List ℕ) (i : ℕ) → no_load_code vs ≡ true → get_or vs i 0 % 128 ≢ 3
unfolding no_load_code
get_or-no_load [] i h e = omega arith
get_or-no_load (v ∷ vs) zero h e = ground arith
get_or-no_load (v ∷ vs) (suc i) h e = ground (arith, get_or-no_load vs i)

exit_bytes-no_load : no_load_code exit_bytes ≡ true
unfolding no_load_code
exit_bytes-no_load = refl

byte-no_load : (a v : ℕ) → program_image exit_program a ≡ some v → v % 128 ≢ 3
unfolding flat image with_segments
byte-no_load a v h e = ground (arith, get_or-no_load exit_bytes (a - 0x10000) exit_bytes-no_load)

flat_byte-some : (text : ℕ → Option ℕ) (a v : ℕ) → flat_byte text a ≡ ok v → text a ≡ some v
unfolding flat_byte
flat_byte-some text a v h = ground arith

-- The opcode of a word is in its first byte.
word_at-first :
    (text : ℕ → Option ℕ) (pc w : ℕ)
    → word_at text pc ≡ ok w
    → (v : ℕ) × (text (u32 pc) ≡ some v) × (opcode w ≡ v % 128)
unfolding word_at flat_read le_word opcode
word_at-first text pc w h =
    let (bytes, a, b) = >>=-eq-ok (flat_read text (u32 pc) 4) _ h in
    let (v, c, d) = >>=-eq-ok (flat_byte text (u32 pc)) _ a in
    let (rest, e, f) = >>=-eq-ok (flat_read text (u32 pc + 1) 3) _ d in
    (v, flat_byte-some text (u32 pc) v c, ground (arith, b, f, bit_and-mask 7 w))

exit_program-IsJumpSafe : IsJumpSafe (program_image exit_program)
exit_program-IsJumpSafe = record {
  apart = λ pc w v a b c d e.
      let (first, f, g) = word_at-first (program_image exit_program) pc w a in
      absurd (byte-no_load (u32 pc) first f (sym g ∙ c));
}

main-run_example :
    (n : ℕ) × (main (λ name. some exit_program) 70 garbage 3 arguments ≡ ok reached)
    × (abs shown 70 reached
        ≡ run 70 (program_image exit_program) n (power_on (program_image exit_program) 0x10000))
    × (3 ≤ n * 3 + 2)
main-run_example =
    main-run (λ name. some exit_program) 70 garbage arguments exit_program booted_state reached 3
      refl exit_program-AllLoadable exit_program-IsJumpSafe three_cycles.1.boots fetches

main-exit_example :
    (n : ℕ) × (main (λ name. some exit_program) 70 garbage 4 arguments
      ≡ halt (exit_normally (report three_cycles.1.mem_works.0.counters) reached.printed))
    × (run 70 (program_image exit_program) n (power_on (program_image exit_program) 0x10000)
        ≡ halt (exit_normally no_report reached.printed))
    × ((report three_cycles.1.mem_works.0.counters).pipeline_cycles ≡ 3 + 1)
    × ((report three_cycles.1.mem_works.0.counters).instructions + 1 ≡ n)
main-exit_example =
    main-exit (λ name. some exit_program) 70 garbage arguments exit_program booted_state reached 3
      refl exit_program-AllLoadable exit_program-IsJumpSafe three_cycles.1.boots fetches
      three_cycles.1.mem_works.0 three_cycles.1.exits three_cycles.1.mem_works.1

boot-image_example :
    (m : Memory) × (boot 70 garbage options exit_program.segments 0x10000
      ≡ ok (first_state options.branch_strat (new_hierarchy garbage m) 0x10000))
    × (flat (byte_at m) ≡ program_image exit_program)
boot-image_example = boot-image 70 garbage options exit_program exit_program-AllLoadable
