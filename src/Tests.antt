-- ===== src/Tests.antt =====
-- The states and memories that the examples of the theorems stand on, and the examples.
pub mod Storage
pub mod Loader
pub mod Isa
pub mod Pipeline
pub mod Machine
pub mod Program
use mathlib.Core.Bool.{false≢true}
use riscv_64i_simulator.Common.{ℕ, Result, ok, halt, Halt, ◌≡◌, refl, true, false, Bool, arith}
use riscv_64i_simulator.Memory
use riscv_64i_simulator.Memory.{Memory, alloc, is_valid_addr}
use riscv_64i_simulator.Main.{empty_memory, first_state}
use riscv_64i_simulator.Pipeline.State.{Sim, Ops}
use riscv_64i_simulator.Isa.Inst.{always_taken}

-- A memory with one page, that of address 0.
pub page_zero : Memory
page_zero = alloc empty_memory 0

-- The pipeline straight over the memory.
abbrev pub memory_ops : Ops Memory
memory_ops = record { handle = Memory.handle_request; is_valid = is_valid_addr }

-- The first state, with the entry point 64.
pub at_start : Sim Memory
at_start = first_state always_taken page_zero 64

abbrev pub is_ok {ℓ} : {A : Type ℓ} → Result A → Bool
is_ok (ok a) = true
is_ok (halt e) = false

-- What a run that succeeds gives.
pub outcome {ℓ} : {A : Type ℓ} (r : Result A) → is_ok r ≡ true → (a : A) × (r ≡ ok a)
outcome (ok a) h = (a, refl)
outcome (halt e) h = absurd (false≢true h)
