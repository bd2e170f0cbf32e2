-- ===== src/Common/Results.antt =====
-- What a part of the simulator gives back: a value, or the end of the process.
use Prim.Native.Nat.{ℕ}
use mathlib.Core.Path.{◌≡◌, refl}
use mathlib.Core.List.{List}
use mathlib.Core.Logic.{◌⊎◌, inl, inr}

-- What a guest program has printed through the system calls: `printf("%c", c)` and
-- `printf("%d", arg1)`.
pub data Event : Type 0 where
  put_char : ℕ → Event
  put_int : ℕ → Event

-- The figures that the exit system call prints.
pub record Report : Type 0 where
  pub total_cycles : ℕ
  pub pipeline_cycles : ℕ
  pub instructions : ℕ
  pub loaduse_hazards : ℕ
  pub jumps : ℕ
  pub mispredicts : ℕ
  pub control_hazards : ℕ
  pub correct_predicts : ℕ
  pub cache_accesses : ℕ
  pub cache_misses : ℕ

-- Why the process ends. `undefined` stands for behaviour that C++ leaves undefined.
pub data Halt : Type 0 where
  exit_normally : Report → List Event → Halt
  invalid_write : ℕ → Halt
  invalid_read : ℕ → Halt
  misaligned_pc : ℕ → Halt
  unknown_opcode : ℕ → Halt
  unknown_funct3 : ℕ → Halt
  unknown_funct7 : ℕ → ℕ → Halt
  unknown_system : ℕ → ℕ → Halt
  unknown_syscall : ℕ → Halt
  no_elf_file : List ℕ → Halt
  undefined : Halt
  no_fuel : Halt

pub data Result {ℓ} (A : Type ℓ) : Type ℓ where
  ok : A → Result A
  halt : Halt → Result A

infixl 5 ◌>>=◌
abbrev pub ◌>>=◌ {ℓ κ} : {A : Type ℓ} {B : Type κ} → Result A → (A → Result B) → Result B
halt reason >>= next = halt reason
ok value >>= next = next value

pub >>=_assoc {ℓ κ μ} :
    {A : Type ℓ} {B : Type κ} {C : Type μ} (m : Result A) (f : A → Result B) (g : B → Result C)
    → (m >>= f >>= g) ≡ (m >>= λ a. f a >>= g)
>>=_assoc (ok a) f g = refl
>>=_assoc (halt e) f g = refl

pub >>=_ok {ℓ} : {A : Type ℓ} (m : Result A) → (m >>= ok) ≡ m
>>=_ok (ok a) = refl
>>=_ok (halt e) = refl

pub Result-cases {ℓ} :
    {A : Type ℓ} (r : Result A) → ((a : A) × (r ≡ ok a)) ⊎ ((e : Halt) × (r ≡ halt e))
Result-cases (ok a) = inl (a, refl)
Result-cases (halt e) = inr (e, refl)

-- A bind that succeeds came from a value.
pub >>=-eq-ok {ℓ κ} :
    {B : Type κ} {result : B} {A : Type ℓ} (first : Result A) (next : A → Result B)
    → (first >>= next) ≡ ok result
    → (value : A) × (first ≡ ok value) × (next value ≡ ok result)
>>=-eq-ok (halt reason) next h = cc
>>=-eq-ok (ok value) next h = (value, refl, h)
