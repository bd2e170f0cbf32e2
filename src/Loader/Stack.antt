-- ===== src/Loader/Stack.antt =====
-- The loop of `main` that maps the stack.
use riscv_64i_simulator.Common.{
  ℕ, zero, suc, ◌+◌, ◌-◌, ◌*◌, ◌/◌, ◌%◌, ◌^◌, ◌<◌, ◌≤◌, ◌≡◌, ◌≢◌, refl, none, arith,
}
use riscv_64i_simulator.Isa.Inst.{stack_start, stack_size}
use riscv_64i_simulator.Memory.{Memory}
use riscv_64i_simulator.Memory.Paging.{byte_at}
use riscv_64i_simulator.Loader.{ensure_page, map_pages, map_stack}
use riscv_64i_simulator.Loader.Pages.{ensure_page-keeps, ensure_page-maps}

map_pages-keeps :
    (n : ℕ) (m : Memory) (addr b : ℕ)
    → addr < 2 ^ 32
    → b < 2 ^ 32
    → byte_at m b ≢ none
    → byte_at (map_pages n m addr) b ≡ byte_at m b
unfolding map_pages
map_pages-keeps zero m addr b h g t = refl
map_pages-keeps (suc n) m addr b h g t =
    ground
      (arith, ensure_page-keeps m addr b, map_pages-keeps n (ensure_page m addr) (addr - 4096) b)

map_pages-maps :
    (n : ℕ) (m : Memory) (addr b : ℕ)
    → addr % 4096 ≡ 0
    → addr < 2 ^ 32
    → b < 2 ^ 32
    → stack_start - stack_size + 4096 ≤ b
    → b < addr + 4096
    → addr < b / 4096 * 4096 + n * 4096
    → byte_at (map_pages n m addr) b ≢ none
unfolding map_pages
map_pages-maps zero m addr b a h g low high t = absurd (omega arith)
map_pages-maps (suc n) m addr b a h g low high t = ground (
  arith,
  ensure_page-maps m addr b,
  map_pages-keeps n (ensure_page m addr) (addr - 4096) b,
  map_pages-maps n (ensure_page m addr) (addr - 4096) b,
)

-- The loop of `main` that maps the stack keeps every byte of memory that is there, and leaves every
-- address mapped from one page above the end of the stack up to the end of the page on which the
-- stack pointer starts.
pub map_stack_lem :
    (m : Memory) (b : ℕ)
    → b < 2 ^ 32
    → (byte_at m b ≢ none → byte_at (map_stack m) b ≡ byte_at m b)
      × (stack_start - stack_size + 4096 ≤ b
          → b < stack_start + 4096
          → byte_at (map_stack m) b ≢ none)
unfolding map_stack
map_stack_lem m b h = (
  map_pages-keeps 1025 m stack_start b (omega arith) h,
  λ p q. map_pages-maps 1025 m stack_start b (omega arith) (omega arith) h p q (omega arith),
)
