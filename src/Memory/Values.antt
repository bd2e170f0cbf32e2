-- ===== src/Memory/Values.antt =====
-- The methods `store` and `load` of `Memory`: a number in little-endian bytes.
use native.Mathlib.Nat.{
  pow-suc, one-le-pow, mul-add-mod_self_left, mod-eq_of_lt, mod-lt, div-add-mod, mul-le-mul_left,
  pow-le-pow_right,
}
use native.Mathlib.Numerals.{towards_suc}
use riscv_64i_simulator.Common.{
  ℕ, zero, suc, ◌+◌, ◌*◌, ◌/◌, ◌%◌, ◌^◌, ◌≤◌, ◌<◌, ◌≡◌, ◌≢◌, ◌⊎◌, refl, sym, ap, ◌∙◌, none, some,
  List, [], ◌∷◌, ok, ◌>>=◌, arith, u32, u64, shl64, ◌>>>◌, bit_and, length, get_or, fun_ext,
}
use riscv_64i_simulator.Common.Bits.{bit_and-mask}
use riscv_64i_simulator.Memory.{Memory, store_byte, load_from, load, store_from, store, write_bytes}
use riscv_64i_simulator.Memory.Paging.{byte_at}
use riscv_64i_simulator.Memory.Bytes.{Mapped, load_byte-eq, BytesWritten, write_bytes-BytesWritten}

-- The bytes `i`, `i + 1`, ... of a number, as `store` takes them.
value_bytes : ℕ → ℕ → ℕ → List ℕ
value_bytes val i zero = []
value_bytes val i (suc n) = bit_and (val >>> (8 * i)) 0xFF ∷ value_bytes val (i + 1) n

store_from-eq-write_bytes :
    (m : Memory) (addr val i n : ℕ)
    → store_from m addr val i n ≡ write_bytes m addr i (value_bytes val i n)
unfolding store_from write_bytes value_bytes
store_from-eq-write_bytes m addr val i zero = refl
store_from-eq-write_bytes m addr val i (suc n) =
    ap (λ k. store_byte m (u32 (addr + i)) (bit_and (val >>> (8 * i)) 0xFF) >>= k)
      (fun_ext (λ m'. store_from-eq-write_bytes m' addr val (i + 1) n))

length-value_bytes : (val i n : ℕ) → length (value_bytes val i n) ≡ n
unfolding value_bytes
length-value_bytes val i zero = refl
length-value_bytes val i (suc n) = ap suc (length-value_bytes val (i + 1) n)

get_or-value_bytes :
    (val i n j : ℕ) → j < n → get_or (value_bytes val i n) j 0 ≡ val / 2 ^ (8 * (i + j)) % 256
unfolding value_bytes
get_or-value_bytes val i zero j h = absurd (omega arith)
get_or-value_bytes val i (suc n) zero h =
    bit_and-mask 8 (val / 2 ^ (8 * i)) ∙ ap (λ k. val / 2 ^ (8 * k) % 256) start
  where
    start : i ≡ i + 0
    start = omega arith
get_or-value_bytes val i (suc n) (suc j) h =
    get_or-value_bytes val (i + 1) n j (omega arith) ∙ ap (λ k. val / 2 ^ (8 * k) % 256) next
  where
    next : i + 1 + j ≡ i + suc j
    next = omega arith

-- A remainder grows by one byte.
mod_byte : (t v : ℕ) → 0 < t → v % (t * 256) ≡ v % t + v / t % 256 * t
mod_byte t v h =
    ap (λ n. n % (t * 256)) regroup
    ∙ mul-add-mod_self_left (t * 256) (v / t / 256) (v % t + v / t % 256 * t)
    ∙ mod-eq_of_lt (omega (arith, mod-lt v h, mul-le-mul_left t below))
  where
    below : v / t % 256 ≤ 255
    below = omega arith

    regroup : v ≡ t * 256 * (v / t / 256) + (v % t + v / t % 256 * t)
    regroup = omega (arith, div-add-mod v t, ap (λ z. t * z) (div-add-mod (v / t) 256))

eight_more : (k : ℕ) → 2 ^ (k + 8) ≡ 2 ^ k * 256
eight_more k = simp towards_suc (
    omega (
      arith,
      pow-suc 2 k,
      pow-suc 2 (suc k),
      pow-suc 2 (suc (suc k)),
      pow-suc 2 (suc (suc (suc k))),
      pow-suc 2 (suc (suc (suc (suc k)))),
      pow-suc 2 (suc (suc (suc (suc (suc k))))),
      pow-suc 2 (suc (suc (suc (suc (suc (suc k)))))),
      pow-suc 2 (suc (suc (suc (suc (suc (suc (suc k))))))),
    ))

-- The sum of `load` after `i` bytes, and one byte more.
step_at :
    (t k val : ℕ)
    → 2 ^ k ≡ t
    → 0 < t
    → t ≤ 2 ^ 56
    → u64 (val % t + shl64 (val / t % 256) k) ≡ val % (t * 256)
step_at t k val e h g =
    rw e (omega (arith, mod_byte t val h, mod-lt val h, mul-le-mul_left t below))
  where
    below : val / t % 256 ≤ 255
    below = omega arith

load_step :
    (val i : ℕ)
    → i < 8
    → u64 (val % 2 ^ (8 * i) + shl64 (val / 2 ^ (8 * i) % 256) (i * 8)) ≡ val % 2 ^ (8 * (i + 1))
load_step val i h =
    step_at (2 ^ (8 * i)) (i * 8) val (ap (λ k. 2 ^ k) (omega arith))
      (one-le-pow (8 * i) 2 (omega arith)) (pow-le-pow_right (omega arith) {j = 56} (omega arith))
    ∙ ap (λ k. val % k) (sym (eight_more (8 * i)) ∙ ap (λ k. 2 ^ k) (omega arith))

load_from-value :
    (m : Memory) (addr val i n : ℕ)
    → i + n ≤ 8
    → addr + (i + n) ≤ 2 ^ 32
    → ((j : ℕ) → j < n → byte_at m (addr + (i + j)) ≡ some (val / 2 ^ (8 * (i + j)) % 256))
    → load_from m addr i n (val % 2 ^ (8 * i)) ≡ ok (val % 2 ^ (8 * (i + n)))
unfolding load_from
load_from-value m addr val i zero h g b = ap (λ k. ok (val % 2 ^ (8 * k))) (omega arith)
load_from-value m addr val i (suc n) h g b =
    let rest = load_from-value m addr val (i + 1) n (omega arith) (omega arith) (λ j h'.
      rw (ap (λ k. addr + k) (shift j))
        (b (suc j) (omega arith) ∙ ap (λ k. some (val / 2 ^ (8 * k) % 256)) (sym (shift j)))) in
    rw
      (
        here,
        load_byte-eq m (addr + (i + 0)) _ (b 0 (omega arith)),
        first,
        load_step val i (omega arith),
      )
      (rest ∙ ap (λ k. ok (val % 2 ^ (8 * k))) (shift_end))
  where
    here : u32 (addr + i) ≡ addr + (i + 0)
    here = omega arith

    first : val / 2 ^ (8 * (i + 0)) % 256 ≡ val / 2 ^ (8 * i) % 256
    first = ap (λ k. val / 2 ^ (8 * k) % 256) (omega arith)

    shift : (j : ℕ) → i + 1 + j ≡ i + suc j
    shift j = omega arith

    shift_end : i + 1 + n ≡ i + suc n
    shift_end = omega arith

pub record StoreLoad (m : Memory) (addr val n : ℕ) : Type 0 where
  pub after : Memory
  pub stores : store m addr val n ≡ ok after
  pub loads : load after addr n ≡ ok (val % 2 ^ (8 * n))
  pub others : (b : ℕ) → b < 2 ^ 32 → (b < addr) ⊎ (addr + n ≤ b) → byte_at after b ≡ byte_at m b

-- For at most 8 bytes from an address on that does not run past 2 ^ 32, all of them mapped, whether
-- or not in one page: `store` succeeds, `load` of the same bytes afterwards gives the value modulo
-- 2 to the stored bits, and no other byte is changed.
pub store-StoreLoad :
    (m : Memory) (addr val n : ℕ)
    → n ≤ 8
    → addr + n ≤ 2 ^ 32
    → ((j : ℕ) → j < n → byte_at m (addr + j) ≢ none)
    → StoreLoad m addr val n
unfolding store load Mapped
store-StoreLoad m addr val n h g p = record {
  after = w.after;
  stores = store_from-eq-write_bytes m addr val 0 n ∙ w.returns;
  loads =
      ap (load_from w.after addr 0 n) start
      ∙ load_from-value w.after addr val 0 n (omega arith) (omega arith) (λ j q.
        w.written j (omega (arith, count)) ∙ ap (λ k. some k) (get_or-value_bytes val 0 n j q))
      ∙ ap (λ k. ok (val % 2 ^ (8 * k))) whole;
  others = λ b q o. w.others b q (omega (arith, count));
}
  where
    count : length (value_bytes val 0 n) ≡ n
    count = length-value_bytes val 0 n

    whole : 0 + n ≡ n
    whole = omega arith

    start : 0 ≡ val % 2 ^ (8 * 0)
    start = omega arith

    at_start : (j : ℕ) → addr + j ≡ addr + (0 + j)
    at_start j = omega arith

    w : BytesWritten m addr 0 (value_bytes val 0 n)
    w =
        write_bytes-BytesWritten m addr 0 (value_bytes val 0 n) (omega (arith, count))
          (λ j q. rw (← at_start j) (p j (omega (arith, count))))
