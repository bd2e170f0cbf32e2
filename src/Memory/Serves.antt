-- ===== src/Memory/Serves.antt =====
-- `Memory::HandleRequest` (Simulation.h) as a storage level.
use riscv_64i_simulator.Common.{
  ℕ, ◌+◌, ◌*◌, ◌/◌, ◌%◌, ◌^◌, ◌≤◌, ◌<◌, ◌≡◌, ◌≢◌, refl, none, List, arith, length, ap, true, [],
  ◌∙◌,
}
use riscv_64i_simulator.Storage.Laws.{Fits, Reads, Writes, IsStorage}
use riscv_64i_simulator.Memory.{Memory, find_page, pde, pte, handle_request}
use riscv_64i_simulator.Memory.Paging.{byte_at, pde_lem, pte_lem}
use riscv_64i_simulator.Memory.Bytes.{
  Mapped, BytesRead, read_bytes-BytesRead, BytesWritten, write_bytes-BytesWritten,
}

-- A memory has no state that could be wrong.
abbrev pub Always : Memory → Type 0
Always m = Unit {0}

-- The addresses of a block lie in one page.
block-same_page :
    (b k : ℕ) → k < 64 → (pde (b / 64 * 64 + k) ≡ pde b) × (pte (b / 64 * 64 + k) ≡ pte b)
block-same_page b k h =
    omega (arith, pde_lem b, pte_lem b, pde_lem (b / 64 * 64 + k), pte_lem (b / 64 * 64 + k))

byte_at-whole :
    (m : Memory) (b k : ℕ) → k < 64 → byte_at m b ≢ none → byte_at m (b / 64 * 64 + k) ≢ none
unfolding byte_at find_page
byte_at-whole m b k h p = ground (arith, block-same_page b k h)

Mapped-whole : (m : Memory) (a n : ℕ) → a % 64 + n ≤ 64 → byte_at m a ≢ none → Mapped m a 0 n
unfolding Mapped
Mapped-whole m a n f p j q =
    let e : a / 64 * 64 + (a % 64 + j) ≡ a + (0 + j) = omega arith in
    rw (← e) (byte_at-whole m a (a % 64 + j) (omega arith) p)

-- The counting of the time does not touch the bytes.
abbrev counted : Memory → Memory
counted m = record m {
  stats = record (m.stats) {
    access_time = m.stats.access_time + (m.latency.hit_latency + m.latency.bus_latency);
  };
}

byte_at-counted : (m : Memory) (b : ℕ) → byte_at (counted m) b ≡ byte_at m b
unfolding byte_at find_page
byte_at-counted m b = refl

abbrev cost : Memory → ℕ
cost m = m.latency.hit_latency + m.latency.bus_latency

module _ (m : Memory) (a : ℕ) where
  BytesRead-Reads :
      (n : ℕ) → BytesRead (counted m) a 0 n → Reads handle_request byte_at Always m a n
  unfolding handle_request
  BytesRead-Reads n r = record {
    after = counted m;
    reply = record { content = r.content; hit = true; time = cost m };
    returns = rw r.returns;
    good = tt;
    unchanged = λ b q. byte_at-counted m b;
    count = r.count;
    bytes = λ i q.
        ground (arith, r.bytes i, ap (byte_at m) (start_index i), byte_at-counted m (a + (0 + i)));
  }
    where
      start_index : (i : ℕ) → a + (0 + i) ≡ a + i
      start_index i = omega arith

  BytesWritten-Writes :
      (xs : List ℕ) → BytesWritten (counted m) a 0 xs → Writes handle_request byte_at Always m a xs
  unfolding handle_request
  BytesWritten-Writes xs r = record {
    after = r.after;
    reply = record { content = []; hit = true; time = cost m };
    returns = rw r.returns;
    good = tt;
    written = λ i q. ground (arith, r.written i, ap (byte_at r.after) (start_index i));
    others = λ b q o. r.others b q (omega arith) ∙ byte_at-counted m b;
  }
    where
      start_index : (i : ℕ) → a + (0 + i) ≡ a + i
      start_index i = omega arith

-- `Memory::HandleRequest` keeps the promises of a storage level: a request within a block of 64
-- bytes that is mapped is answered, a read gives the bytes of the pages and changes none, a write
-- changes just the bytes written, and a block is mapped as a whole or not at all.
pub memory-IsStorage : IsStorage handle_request byte_at Always
memory-IsStorage = record {
  whole = λ m b k g q h p. byte_at-whole m b k h p;
  reads = λ m a n g f p. BytesRead-Reads m a n (
      read_bytes-BytesRead (counted m) a 0 n (in_range a n f)
        (Mapped-whole (counted m) a n f.in_block (mapped m a p)));
  writes = λ m a xs g f p. BytesWritten-Writes m a xs (
      write_bytes-BytesWritten (counted m) a 0 xs (in_range a (length xs) f)
        (Mapped-whole (counted m) a (length xs) f.in_block (mapped m a p)));
}
  where
    in_range : (a n : ℕ) → Fits a n → a + (0 + n) ≤ 2 ^ 32
    in_range a n f = omega arith

    mapped : (m : Memory) (a : ℕ) → byte_at m a ≢ none → byte_at (counted m) a ≢ none
    mapped m a p = rw (byte_at-counted m a) p
