-- ===== src/Memory/Paging.antt =====
-- Addresses of the class `Memory` as arithmetic, and what one byte access does to the bytes.
use riscv_64i_simulator.Common.{
  ℕ, ◌/◌, ◌%◌, ◌^◌, ◌<◌, ◌≡◌, Option, none, some, ok, arith, ◌==◌, if◌then◌else◌,
}
use riscv_64i_simulator.Common.Bits.{bit_and-mask}
use riscv_64i_simulator.Memory.{Memory, pde, pte, off, find_page, store_byte}

pub pde_lem : (a : ℕ) → pde a ≡ a / 2 ^ 22 % 2 ^ 10
unfolding pde
pde_lem a = bit_and-mask 10 (a / 2 ^ 22)

pub pte_lem : (a : ℕ) → pte a ≡ a / 2 ^ 12 % 2 ^ 10
unfolding pte
pte_lem a = bit_and-mask 10 (a / 2 ^ 12)

off_lem : (a : ℕ) → off a ≡ a % 2 ^ 12
unfolding off
off_lem a = bit_and-mask 12 a

-- The byte at an address, `none` where no page is there.
unfoldable pub byte_at : Memory → ℕ → Option ℕ
byte_at m a = elim (find_page m a) [ none ↦ none | some page ↦ some (page (off a)) ]

-- Two addresses of 32 bits with the same table, page and offset are one.
addr_ext :
    (a b : ℕ) → a < 2 ^ 32 → b < 2 ^ 32 → pde a ≡ pde b → pte a ≡ pte b → off a ≡ off b → a ≡ b
addr_ext a b ha hb p q r =
    omega (arith, pde_lem a, pde_lem b, pte_lem a, pte_lem b, off_lem a, off_lem b)

-- When `store_byte` succeeds at a 32-bit address, every 32-bit address afterwards shows the byte
-- stored if it is that address, and otherwise what it showed before.
pub byte_at-store_byte :
    (m m' : Memory) (a b val : ℕ)
    → a < 2 ^ 32
    → b < 2 ^ 32
    → store_byte m a val ≡ ok m'
    → byte_at m' b ≡ (if b == a then some val else byte_at m b)
unfolding byte_at store_byte find_page
byte_at-store_byte m m' a b val ha hb h = ground (arith, addr_ext a b)
