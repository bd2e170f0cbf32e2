-- ===== src/Storage/Guards.antt =====
-- What a level of the memory hierarchy does not answer.
use riscv_64i_simulator.Common.{ℕ, ◌+◌, ◌%◌, ◌^◌, ◌<◌, ◌≤◌, ◌≡◌, ◌≢◌, Option, none, ok}
use riscv_64i_simulator.Storage.{Request, Reply, bytes_of, Handler}

module _ {S : Type 0} (handle : Handler S) (view : S → ℕ → Option ℕ) (IsGood : S → Type 0) where
  -- Where a request is answered, its address is one of those that the level shows.
  abbrev pub IsGuarded : Type 0
  IsGuarded =
      (s : S) (a : ℕ) (req : Request) (p : S × Reply)
      → IsGood s
      → a < 2 ^ 32
      → 0 < bytes_of req
      → handle s a req ≡ ok p
      → view s a ≢ none

  -- Where a request is answered, it stays within a block.
  abbrev pub IsBounded : Type 0
  IsBounded =
      (s : S) (a : ℕ) (req : Request) (p : S × Reply)
      → IsGood s
      → a < 2 ^ 32
      → handle s a req ≡ ok p
      → a % 64 + bytes_of req ≤ 64
