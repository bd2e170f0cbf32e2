-- ===== src/Main.antt =====
-- `main` (simulation.cpp): the options, the three caches over the memory, and the first state.
pub mod Hierarchy
pub mod Guards
pub mod Start
pub mod Time
use riscv_64i_simulator.Common.{
  ℕ, ◌*◌, ◌/◌, Bool, true, false, ◌&&◌, none, List, [], ◌∷◌, Result, ok, ◌>>=◌, ◌==◌, if◌then◌else◌,
  not, update, get_or, Option, some, halt, no_elf_file,
}
use riscv_64i_simulator.Storage.{StorageStats, StorageLatency}
use riscv_64i_simulator.Memory
use riscv_64i_simulator.Memory.{Memory, is_valid_addr}
use riscv_64i_simulator.Cache
use riscv_64i_simulator.Cache.{Cache, CacheConfig, set_config}
use riscv_64i_simulator.Isa.Inst.{
  InstType, Strategy, always_taken, not_taken, btfnt, reg_sp, no_reg, stack_start,
}
use riscv_64i_simulator.Pipeline.Regs.{
  PipeReg, clear, f_region, d_region, e_region, m_region, w_region,
}
use riscv_64i_simulator.Pipeline.State.{Sim, Ops, Counters}
use riscv_64i_simulator.Pipeline.Cycle.{simulate}
use riscv_64i_simulator.Loader.{Segment, loader, map_stack}

-- An argument is its bytes.
abbrev pub Arg : Type 0
Arg = List ℕ

-- `strcmp(a, b) == 0`
unfoldable pub same_text : Arg → Arg → Bool
same_text [] [] = true
same_text [] (b ∷ bs) = false
same_text (a ∷ as') [] = false
same_text (a ∷ as') (b ∷ bs) = (a == b) && same_text as' bs

pub record Options : Type 0 where
  pub file : Arg
  pub verbose : Bool
  pub single_step : Bool
  pub dump_mem : Bool
  pub branch_strat : Strategy

abbrev pub default_options : Options
default_options = record {
  file = [];
  verbose = false;
  single_step = false;
  dump_mem = false;
  branch_strat = always_taken;
}

-- The argument of `-b`.
unfoldable pub strategy_of : Arg → Strategy
strategy_of arg =
    if same_text arg (b'B' ∷ b'T' ∷ b'F' ∷ b'N' ∷ b'T' ∷ [])
    then btfnt
    else if same_text arg (b'N' ∷ b'T' ∷ [])
    then not_taken
    else always_taken

-- The switches that stand alone.
unfoldable pub set_flag : ℕ → Options → Options
set_flag c o =
    if c == b's'
    then record o { single_step = true; verbose = true }
    else if c == b'm'
    then record o { dump_mem = true }
    else if c == b'v'
    then record o { verbose = true }
    else o

-- The loop over `argv[1]` and on; `-b` takes the argument behind it, where there is one.
unfoldable pub parse_args : Options → List Arg → Options
parse_args o [] = o
parse_args o (arg ∷ []) =
    if not (get_or arg 0 0 == b'-') then record o { file = arg } else set_flag (get_or arg 1 0) o
parse_args o (arg ∷ next ∷ rest) =
    let skip = parse_args (record o { branch_strat = strategy_of next }) rest in
    let flag = parse_args (set_flag (get_or arg 1 0) o) (next ∷ rest) in
    let named = parse_args (record o { file = arg }) (next ∷ rest) in
    if not (get_or arg 0 0 == b'-') then named else if get_or arg 1 0 == b'b' then skip else flag

-- The three caches over the memory.
abbrev pub Levels : Type 0
Levels = Cache (Cache (Cache Memory))

abbrev pub memory_of : Levels → Memory
memory_of l1 = l1.lower.lower.lower

-- `l1.HandleRequest` down to the memory, and `memory.isValidAddr`.
unfoldable pub hierarchy_ops : Ops Levels
hierarchy_ops = record {
  handle = Cache.handle_request (Cache.handle_request (Cache.handle_request Memory.handle_request));
  is_valid = λ l1 addr. is_valid_addr (memory_of l1) addr;
}

-- `memset(&s, 0, sizeof(s))`
abbrev pub no_stats : StorageStats
no_stats = record {
  access_counter = 0;
  miss_num = 0;
  access_time = 0;
  replace_num = 0;
  fetch_num = 0;
  prefetch_num = 0;
}

abbrev pub hit_cost : ℕ → StorageLatency
hit_cost n = record { hit_latency = n; bus_latency = 0 }

-- The configurations `config1`, `config2` and `config3`, by their size.
unfoldable pub config_of : ℕ → CacheConfig
config_of size = record {
  size = size;
  associativity = 8;
  set_num = size / (64 * 8);
  write_through = false;
  write_allocate = true;
  block_size = 64;
  off_bits = 0;
  tag_bits = 0;
  set_bits = 0;
}

-- A cache of that size and latency over a lower level, with what its blocks happen to hold.
unfoldable pub new_cache : {L : Type 0} → (ℕ → ℕ → ℕ → ℕ) → ℕ → ℕ → L → Cache L
new_cache garbage size latency lower = set_config garbage (config_of size) (record {
  set = λ i j. Cache.new_blk (λ k. 0);
  config = config_of size;
  lower = lower;
  stats = no_stats;
  latency = hit_cost latency;
})

unfoldable pub empty_memory : Memory
empty_memory = record { memory = λ i. none; stats = no_stats; latency = hit_cost 100 }

unfoldable pub new_hierarchy : (ℕ → ℕ → ℕ → ℕ) → Memory → Levels
new_hierarchy garbage m =
    new_cache garbage (32 * 1024) 1
      (new_cache garbage (256 * 1024) 8 (new_cache garbage (8 * 1024 * 1024) 20 m))

abbrev pub no_counts : Counters
no_counts = record {
  inst_cnt = 0;
  pipeline_cycle_cnt = 0;
  cache_cycle_cnt = 0;
  correct_predict = 0;
  mispredict = 0;
  cnt_j = 0;
  control_cnt = 0;
  loaduse_cnt = 0;
  cache_cnt = 0;
  cachehit_cnt = 0;
}

abbrev empty_reg : {R : Type 0} → R → PipeReg R
empty_reg z = record { bubble = false; stall = false; cur = z; upd = z }

-- The state that `main` hands to `simulate`: all zero but the entry point and the stack pointer.
unfoldable pub first_state : {S : Type 0} → Strategy → S → ℕ → Sim S
first_state strat storage entry = record {
  reg = update (λ i. 0) reg_sp stack_start;
  freg = record {
    bubble = false;
    stall = false;
    cur = record { pred_pc = entry; inst = 0 };
    upd = f_region.zeroed;
  };
  dreg = clear (empty_reg d_region.zeroed);
  ereg = clear (empty_reg e_region.zeroed);
  mreg = clear (empty_reg m_region.zeroed);
  wreg = clear (empty_reg w_region.zeroed);
  e_is_j = false;
  e_b_wrong = false;
  e_reg_write = false;
  m_reg_write = false;
  e_val_e = 0;
  m_val_m = 0;
  e_calc_pc = 0;
  d_reg1 = no_reg;
  d_reg2 = no_reg;
  e_jname = InstType.bubble;
  jalr_pc = 0;
  branch_strat = strat;
  counters = no_counts;
  storage = storage;
  printed = [];
}

-- `main` up to `sim.simulate()`, for a program that the ELF reader has read: the segments, and the
-- entry point. The caches are empty while the memory is loaded.
unfoldable pub boot : ℕ → (ℕ → ℕ → ℕ → ℕ) → Options → List Segment → ℕ → Result (Sim Levels)
boot fuel garbage o segments entry = do
  loaded ← loader fuel empty_memory segments
  ok (first_state o.branch_strat (new_hierarchy garbage (map_stack loaded)) entry)

-- What the ELF reader gives of a file: `reader.segments` and `reader.get_entry()`.
pub record Program : Type 0 where
  pub segments : List Segment
  pub entry : ℕ

-- `main` with so many rounds of the loop of `simulate`, over `reader.load` of the ELF reader.
unfoldable pub main :
    (Arg → Option Program) → ℕ → (ℕ → ℕ → ℕ → ℕ) → ℕ → List Arg → Result (Sim Levels)
main read_elf fuel garbage rounds args =
    let o = parse_args default_options args in
    elim (read_elf o.file) [
      | none ↦ halt (no_elf_file o.file)
      | some p ↦ boot fuel garbage o p.segments p.entry >>= simulate hierarchy_ops fuel rounds
    ]
