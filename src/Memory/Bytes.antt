-- ===== src/Memory/Bytes.antt =====
-- The byte loops of `Memory::HandleRequest` (Simulation.h).
use riscv_64i_simulator.Common.{
  ℕ, zero, suc, ◌+◌, ◌^◌, ◌≤◌, ◌<◌, ◌≡◌, ◌≢◌, ◌⊎◌, inl, inr, refl, none, some, List, [], ◌∷◌, ok,
  halt, Halt, Result-cases, arith, ◌==◌, if◌then◌else◌, u32, ap, ne_none, each_suc, length, get_or,
}
use riscv_64i_simulator.Memory.{Memory, find_page, load_byte, store_byte, read_bytes, write_bytes}
use riscv_64i_simulator.Memory.Paging.{byte_at, byte_at-store_byte}

pub load_byte-eq : (m : Memory) (a b : ℕ) → byte_at m a ≡ some b → load_byte m a ≡ ok b
unfolding byte_at load_byte
load_byte-eq m a b h = ground arith

store_byte-halt : (m : Memory) (a v : ℕ) (e : Halt) → store_byte m a v ≡ halt e → byte_at m a ≡ none
unfolding byte_at find_page store_byte
store_byte-halt m a v e h = ground arith

pub store_byte-total :
    (m : Memory) (a v : ℕ) → byte_at m a ≢ none → (m' : Memory) × (store_byte m a v ≡ ok m')
store_byte-total m a v h = elim (Result-cases (store_byte m a v)) [
  | inl r ↦ r
  | inr e ↦ absurd (h (store_byte-halt m a v e.0 e.1))
]

shift_index : (a i j : ℕ) → a + (i + 1 + j) ≡ a + (i + suc j)
shift_index a i j = omega arith

-- The read loop gives the bytes from `a + i` on.
pub record BytesRead (m : Memory) (a i n : ℕ) : Type 0 where
  pub content : List ℕ
  pub returns : read_bytes m a i n ≡ ok content
  pub count : length content ≡ n
  pub bytes : (j : ℕ) → j < n → byte_at m (a + (i + j)) ≡ some (get_or content j 0)

unfoldable pub Mapped : Memory → ℕ → ℕ → ℕ → Type 0
Mapped m a i n = (j : ℕ) → j < n → byte_at m (a + (i + j)) ≢ none

BytesRead-cons :
    (m : Memory) (a i n b : ℕ)
    → a + (i + suc n) ≤ 2 ^ 32
    → byte_at m (a + (i + 0)) ≡ some b
    → BytesRead m a (i + 1) n
    → BytesRead m a i (suc n)
unfolding read_bytes
BytesRead-cons m a i n b h e rest = record {
  content = b ∷ rest.content;
  returns = returned;
  count = ap suc rest.count;
  bytes =
      each_suc (λ j. byte_at m (a + (i + j)) ≡ some (get_or (b ∷ rest.content) j 0)) n e
        (λ j q. rw (← shift_index a i j) (rest.bytes j q));
}
  where
    here : u32 (a + i) ≡ a + (i + 0)
    here = omega arith

    returned : read_bytes m a i (suc n) ≡ ok (b ∷ rest.content)
    returned = rw (here, load_byte-eq m (a + (i + 0)) b e, rest.returns)

pub read_bytes-BytesRead :
    (m : Memory) (a i n : ℕ) → a + (i + n) ≤ 2 ^ 32 → Mapped m a i n → BytesRead m a i n
unfolding read_bytes Mapped
read_bytes-BytesRead m a i zero h p = record {
  content = [];
  returns = refl;
  count = refl;
  bytes = λ j q. absurd (omega arith);
}
read_bytes-BytesRead m a i (suc n) h p =
    let (b, e) = ne_none (byte_at m (a + (i + 0))) (p 0 (omega arith)) in
    BytesRead-cons m a i n b h e (
      read_bytes-BytesRead m a (i + 1) n (omega arith)
        (λ j q. rw (shift_index a i j) (p (suc j) (omega arith))))

-- The write loop changes the bytes from `a + i` on, and no other.
pub record BytesWritten (m : Memory) (a i : ℕ) (xs : List ℕ) : Type 0 where
  pub after : Memory
  pub returns : write_bytes m a i xs ≡ ok after
  pub written : (j : ℕ) → j < length xs → byte_at after (a + (i + j)) ≡ some (get_or xs j 0)
  pub others :
      (b : ℕ) → b < 2 ^ 32 → (b < a + i) ⊎ (a + (i + length xs) ≤ b) → byte_at after b ≡ byte_at m b

module _ (m m' : Memory) (a i x : ℕ) (xs : List ℕ) (h : a + (i + suc (length xs)) ≤ 2 ^ 32)
    (e : store_byte m (a + (i + 0)) x ≡ ok m') where
  byte_at-stored :
      (b : ℕ) → b < 2 ^ 32 → byte_at m' b ≡ (if b == a + (i + 0) then some x else byte_at m b)
  byte_at-stored b q = byte_at-store_byte m m' (a + (i + 0)) b x (omega arith) q e

  Mapped-stored : Mapped m a i (suc (length xs)) → Mapped m' a (i + 1) (length xs)
  unfolding Mapped
  Mapped-stored p j q =
      ground
        (arith, byte_at-stored (a + (i + 1 + j)), ap (byte_at m) (shift_index a i j), p (suc j))

  BytesWritten-cons : BytesWritten m' a (i + 1) xs → BytesWritten m a i (x ∷ xs)
  unfolding write_bytes
  BytesWritten-cons rest = record {
    after = rest.after;
    returns = returned;
    written =
        each_suc (λ j. byte_at rest.after (a + (i + j)) ≡ some (get_or (x ∷ xs) j 0)) (length xs)
          (ground (arith, rest.others (a + (i + 0)), byte_at-stored (a + (i + 0))))
          (λ j q. rw (← shift_index a i j) (rest.written j q));
    others = λ b q r. ground (arith, rest.others b, byte_at-stored b);
  }
    where
      here : u32 (a + i) ≡ a + (i + 0)
      here = omega arith

      returned : write_bytes m a i (x ∷ xs) ≡ ok rest.after
      returned = rw (here, e, rest.returns)

pub write_bytes-BytesWritten :
    (m : Memory) (a i : ℕ) (xs : List ℕ)
    → a + (i + length xs) ≤ 2 ^ 32
    → Mapped m a i (length xs)
    → BytesWritten m a i xs
unfolding write_bytes
write_bytes-BytesWritten m a i [] h p = record {
  after = m;
  returns = refl;
  written = λ j q. absurd (omega arith);
  others = λ b q r. refl;
}
write_bytes-BytesWritten m a i (x ∷ xs) h p =
    let (m', e) = store_byte-total m (a + (i + 0)) x (unfold Mapped in p 0 (omega arith)) in
    BytesWritten-cons m m' a i x xs h e
      (write_bytes-BytesWritten m' a (i + 1) xs (omega arith) (Mapped-stored m m' a i x xs h e p))
