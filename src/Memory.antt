-- ===== src/Memory.antt =====
-- The class `Memory` of Simulation.h: 32-bit addresses, two levels of tables, pages of 4096 bytes
-- that are allocated on demand. A table or page that is not there (`NULL`) is `none`.
pub mod Paging
pub mod Bytes
pub mod Serves
pub mod Guards
pub mod Values
pub mod Time
use riscv_64i_simulator.Common.{
  ℕ, zero, suc, ◌+◌, ◌*◌, ◌%◌, ◌^◌, Bool, true, false, Option, none, some, List, [], ◌∷◌, Result,
  ok, halt, if◌then◌else◌, invalid_read, invalid_write, ◌>>=◌, bit_and, ◌>>>◌, u8, u32, u64, shl64,
  update,
}
use riscv_64i_simulator.Storage.{StorageStats, StorageLatency, Request, read, write, Reply, Handler}

abbrev pub Page : Type 0
Page = ℕ → ℕ

abbrev pub PageTable : Type 0
PageTable = ℕ → Option Page

pub record Memory : Type 0 where
  pub memory : ℕ → Option PageTable
  pub stats : StorageStats
  pub latency : StorageLatency

-- The macros `PDE`, `PTE` and `OFF`.
unfoldable pub pde : ℕ → ℕ
pde addr = bit_and (addr >>> 22) 0x3FF

unfoldable pub pte : ℕ → ℕ
pte addr = bit_and (addr >>> 12) 0x3FF

unfoldable pub off : ℕ → ℕ
off addr = bit_and addr 0xFFF

-- `memory[PDE(addr)] && memory[PDE(addr)][PTE(addr)]`, with the page that it finds
unfoldable pub find_page : Memory → ℕ → Option Page
find_page m addr = elim (m.memory (pde addr)) [ none ↦ none | some table ↦ table (pte addr) ]

unfoldable pub is_valid_addr : Memory → ℕ → Bool
is_valid_addr m addr = elim (find_page m addr) [ none ↦ false | some page ↦ true ]

unfoldable pub load_byte : Memory → ℕ → Result ℕ
load_byte m addr = elim (find_page m addr) [
  | none ↦ halt (invalid_read addr)
  | some page ↦ ok (page (off addr))
]

-- A byte is written to a page that is there; any other address ends the process.
unfoldable pub store_byte : Memory → ℕ → ℕ → Result Memory
store_byte m addr val = elim (m.memory (pde addr)) [
  | none ↦ halt (invalid_write addr)
  | some table ↦ elim (table (pte addr)) [
    | none ↦ halt (invalid_write addr)
    | some page ↦
        let page' = update page (off addr) val in
        let table' = update table (pte addr) (some page') in
        ok (record m { memory = update m.memory (pde addr) (some table') })
  ]
]

-- The loop of `load` from byte `i` on, with the rounds that are left.
pub load_from : Memory → ℕ → ℕ → ℕ → ℕ → Result ℕ
load_from m addr i zero res = ok res
load_from m addr i (suc n) res = do
  b ← load_byte m (u32 (addr + i))
  load_from m addr (i + 1) n (u64 (res + shl64 b (i * 8)))

pub load : Memory → ℕ → ℕ → Result ℕ
load m addr bytes = load_from m addr 0 bytes 0

-- The loop of `store` from byte `i` on.
pub store_from : Memory → ℕ → ℕ → ℕ → ℕ → Result Memory
store_from m addr val i zero = ok m
store_from m addr val i (suc n) = do
  m' ← store_byte m (u32 (addr + i)) (bit_and (val >>> (8 * i)) 0xFF)
  store_from m' addr val (i + 1) n

pub store : Memory → ℕ → ℕ → ℕ → Result Memory
store m addr val bytes = store_from m addr val 0 bytes

-- `alloc`: an address that is valid already is only reported. A table that is not there is made
-- empty, and then the page, which is made of zeros.
unfoldable pub alloc : Memory → ℕ → Memory
alloc m addr = if is_valid_addr m addr then m else record m {
  memory = update m.memory (pde addr) (some (update table (pte addr) (some (λ k. 0))));
}
  where
    table : PageTable
    table = elim (m.memory (pde addr)) [ none ↦ λ j. none | some t ↦ t ]

-- The two loops of `HandleRequest`, from byte `i` on. A `char` is its pattern below 256, which the
-- casts from and to `uint8_t` leave as it is.
unfoldable pub read_bytes : Memory → ℕ → ℕ → ℕ → Result (List ℕ)
read_bytes m addr i zero = ok []
read_bytes m addr i (suc n) = do
  b ← load_byte m (u32 (addr + i))
  rest ← read_bytes m addr (i + 1) n
  ok (b ∷ rest)

unfoldable pub write_bytes : Memory → ℕ → ℕ → List ℕ → Result Memory
write_bytes m addr i [] = ok m
write_bytes m addr i (x ∷ xs) = do
  m' ← store_byte m (u32 (addr + i)) x
  write_bytes m' addr (i + 1) xs

-- `Memory::HandleRequest`: always a hit, which costs both latencies.
unfoldable pub handle_request : Handler Memory
handle_request m addr req = respond req
  where
    time : ℕ
    time = m.latency.hit_latency + m.latency.bus_latency

    counted : Memory
    counted = record m { stats = record (m.stats) { access_time = m.stats.access_time + time } }

    respond : Request → Result (Memory × Reply)
    respond (read bytes) = do
      content ← read_bytes counted addr 0 bytes
      ok (counted, record { content = content; hit = true; time = time })
    respond (write content) = do
      m' ← write_bytes counted addr 0 content
      ok (m', record { content = []; hit = true; time = time })
