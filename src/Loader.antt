-- ===== src/Loader.antt =====
-- `loader` of Read_Elf.cpp, and the loop of `main` that maps the stack (simulation.cpp).
pub mod Pages
pub mod Stack
pub mod Image
use riscv_64i_simulator.Common.{
  ℕ, zero, suc, ◌+◌, ◌-◌, ◌%◌, ◌^◌, List, [], ◌∷◌, Result, ok, halt, no_fuel, ◌>>=◌, u8, u32, ltb,
  if◌then◌else◌, Bool, true, false,
}
use riscv_64i_simulator.Memory.{Memory, is_valid_addr, alloc, store_byte}
use riscv_64i_simulator.Isa.Inst.{stack_start, stack_size}

-- What `loader` asks of a segment of the ELF reader: `get_file_size`, `get_memory_size`,
-- `get_virtual_address` and `get_data`.
pub record Segment : Type 0 where
  pub file_size : ℕ
  pub memory_size : ℕ
  pub virtual_address : ℕ
  pub bytes : ℕ → ℕ

-- `if (!memory.isValidAddr(p)) memory.alloc(p);`
unfoldable pub ensure_page : Memory → ℕ → Memory
ensure_page m p = if is_valid_addr m p then m else alloc m p

-- `for (p = ...; p < end; p += 4096)`, with fuel for the rounds.
unfoldable pub alloc_range : ℕ → Memory → ℕ → ℕ → Result Memory
alloc_range zero m p end = halt no_fuel
alloc_range (suc fuel) m p end =
    let rest = alloc_range fuel (ensure_page m p) (u32 (p + 4096)) end in
    if ltb p end then rest else ok m

-- `for (p = ...; p < end; p++) memory.store_byte(p, data[p - seg_start]);`, with fuel.
unfoldable pub store_range : ℕ → Memory → (ℕ → ℕ) → ℕ → ℕ → ℕ → Result Memory
store_range zero m bytes start p end = halt no_fuel
store_range (suc fuel) m bytes start p end = elim (ltb p end) [
  | true ↦ store_byte m p (u8 (bytes (p - start))) >>= λ m'.
      store_range fuel m' bytes start (u32 (p + 1)) end
  | false ↦ ok m
]

-- One round of the loop over the segments. The sizes and the address become `uint32_t`.
unfoldable pub load_segment : ℕ → Memory → Segment → Result Memory
load_segment fuel m seg = do
  let start = u32 seg.virtual_address
  m' ← alloc_range fuel m start (u32 (start + u32 seg.memory_size))
  store_range fuel m' seg.bytes start start (u32 (start + u32 seg.file_size))

unfoldable pub loader : ℕ → Memory → List Segment → Result Memory
loader fuel m [] = ok m
loader fuel m (seg ∷ segs) = do m' ← load_segment fuel m seg; loader fuel m' segs

-- `for (addr = stack_start; addr > stack_start - stack_size; addr -= 4096)`: the stack is 1024
-- pages, counted by the rounds that are left.
unfoldable pub map_pages : ℕ → Memory → ℕ → Memory
map_pages zero m addr = m
map_pages (suc n) m addr =
    let rest = map_pages n (ensure_page m addr) (addr - 4096) in
    if ltb (stack_start - stack_size) addr then rest else m

unfoldable pub map_stack : Memory → Memory
map_stack m = map_pages 1025 m stack_start
