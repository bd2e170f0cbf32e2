-- ===== src/Memory/Guards.antt =====
-- `Memory::HandleRequest` (Simulation.h) answers no request outside the pages that are there.
use riscv_64i_simulator.Common.{
  ℕ, suc, zero, ◌+◌, ◌^◌, ◌<◌, ◌≡◌, ◌≢◌, none, [], ◌∷◌, ok, >>=-eq-ok, arith, u32,
}
use riscv_64i_simulator.Storage.{read, write}
use riscv_64i_simulator.Storage.Guards.{IsGuarded}
use riscv_64i_simulator.Memory.{
  Memory, find_page, load_byte, store_byte, read_bytes, write_bytes, handle_request,
}
use riscv_64i_simulator.Memory.Paging.{byte_at}
use riscv_64i_simulator.Memory.Serves.{Always}

load_byte-ok : (m : Memory) (a b : ℕ) → load_byte m a ≡ ok b → byte_at m a ≢ none
unfolding load_byte byte_at
load_byte-ok m a b h = ground arith

store_byte-ok : (m n : Memory) (a b : ℕ) → store_byte m a b ≡ ok n → byte_at m a ≢ none
unfolding store_byte byte_at find_page
store_byte-ok m n a b h = ground arith

first_addr : (a : ℕ) → a < 2 ^ 32 → u32 (a + 0) ≡ a
first_addr a h = omega arith

byte_at-same : (m n : Memory) (a : ℕ) → m.memory ≡ n.memory → byte_at m a ≡ byte_at n a
unfolding byte_at find_page
byte_at-same m n a e = rw e

-- `Memory::HandleRequest` answers a request of at least one byte only where its first byte is in a
-- page that is there.
pub memory-IsGuarded : IsGuarded handle_request byte_at Always
unfolding handle_request read_bytes write_bytes byte_at find_page
memory-IsGuarded m a (read zero) p g h n e = absurd (omega arith)
memory-IsGuarded m a (read (suc k)) p g h n e =
    let (bytes, b, c) = >>=-eq-ok (read_bytes _ a 0 (suc k)) _ e in
    let (x, d, f) = >>=-eq-ok (load_byte _ (u32 (a + 0))) _ b in
    rw (first_addr a h) at (load_byte-ok _ (u32 (a + 0)) x d)
memory-IsGuarded m a (write []) p g h n e = absurd (omega arith)
memory-IsGuarded m a (write (x ∷ xs)) p g h n e =
    let (m', b, c) = >>=-eq-ok (write_bytes _ a 0 (x ∷ xs)) _ e in
    let (y, d, f) = >>=-eq-ok (store_byte _ (u32 (a + 0)) x) _ b in
    rw (first_addr a h) at (store_byte-ok _ y (u32 (a + 0)) x d)
