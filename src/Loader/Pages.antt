-- ===== src/Loader/Pages.antt =====
-- The loops of `loader` (Read_Elf.cpp) over the pages and the bytes of a segment.
use riscv_64i_simulator.Common.{
  ℕ, zero, suc, ◌+◌, ◌-◌, ◌*◌, ◌/◌, ◌%◌, ◌^◌, ◌<◌, ◌≤◌, ◌≡◌, ◌≢◌, ◌↔◌, ◌∙◌, ap, ◌⊎◌, inl, inr, refl,
  none, some, arith, ◌==◌, if◌then◌else◌, Bool-cases, ok, u8, u32, ltb, lt→ltb,
}
use riscv_64i_simulator.Memory.{Memory, find_page, is_valid_addr, alloc, pde, pte, store_byte}
use riscv_64i_simulator.Memory.Paging.{byte_at, pde_lem, pte_lem, byte_at-store_byte}
use riscv_64i_simulator.Memory.Bytes.{store_byte-total}
use riscv_64i_simulator.Loader.{Segment, ensure_page, alloc_range, store_range, load_segment}

same_page :
    (a b : ℕ)
    → a < 2 ^ 32
    → b < 2 ^ 32
    → ((pde a ≡ pde b) × (pte a ≡ pte b)) ↔ (a / 4096 ≡ b / 4096)
same_page a b p q = (
  λ e. omega (arith, pde_lem a, pde_lem b, pte_lem a, pte_lem b, e.0, e.1),
  λ e. omega (arith, pde_lem a, pde_lem b, pte_lem a, pte_lem b),
)

-- A page that is made is full of zeros, and the bytes that were there stay.
pub byte_at-ensure_page :
    (m : Memory) (a b : ℕ)
    → a < 2 ^ 32
    → b < 2 ^ 32
    → byte_at (ensure_page m a) b
      ≡ (if is_valid_addr m b then byte_at m b else if a / 4096 == b / 4096 then some 0 else none)
unfolding ensure_page byte_at is_valid_addr find_page alloc
byte_at-ensure_page m a b p q = ground (arith, same_page a b p q)

pub ensure_page-keeps :
    (m : Memory) (a b : ℕ)
    → a < 2 ^ 32
    → b < 2 ^ 32
    → byte_at m b ≢ none
    → byte_at (ensure_page m a) b ≡ byte_at m b
unfolding is_valid_addr byte_at
ensure_page-keeps m a b p q r = ground (arith, byte_at-ensure_page m a b p q)

pub ensure_page-maps :
    (m : Memory) (a b : ℕ)
    → a < 2 ^ 32
    → b < 2 ^ 32
    → a / 4096 ≡ b / 4096
    → byte_at (ensure_page m a) b ≢ none
unfolding is_valid_addr byte_at
ensure_page-maps m a b p q r = ground (arith, byte_at-ensure_page m a b p q)

-- The pages from `p` to `end` are there, and what was there stays.
pub record Allocated (fuel : ℕ) (m : Memory) (p end : ℕ) : Type 0 where
  pub after : Memory
  pub returns : alloc_range fuel m p end ≡ ok after
  pub keeps : (b : ℕ) → b < 2 ^ 32 → byte_at m b ≢ none → byte_at after b ≡ byte_at m b
  pub maps : (b : ℕ) → p ≤ b → b < end → byte_at after b ≢ none

alloc_range-next :
    (fuel : ℕ) (m m' : Memory) (p end : ℕ)
    → p < end
    → p + 4096 < 2 ^ 32
    → alloc_range fuel (ensure_page m p) (p + 4096) end ≡ ok m'
    → alloc_range (suc fuel) m p end ≡ ok m'
unfolding alloc_range
alloc_range-next fuel m m' p end h g e = rw (lt→ltb p end h, onwards) e
  where
    onwards : u32 (p + 4096) ≡ p + 4096
    onwards = omega arith

pub alloc_range-Allocated :
    (fuel : ℕ) (m : Memory) (p end : ℕ)
    → p % 4096 ≡ 0
    → end ≤ 2 ^ 32 - 4096
    → p < end + 4096
    → end + 4096 ≤ p + fuel * 4096
    → Allocated fuel m p end
unfolding alloc_range
alloc_range-Allocated zero m p end a h q f = absurd (omega arith)
alloc_range-Allocated (suc fuel) m p end a h q f = elim (Bool-cases (ltb p end)) [
  | inl e ↦
      let below : p < end = ground arith in
      let r =
        alloc_range-Allocated fuel (ensure_page m p) (p + 4096) end (omega arith) h (omega arith)
          (omega arith) in
      record {
        after = r.after;
        returns = alloc_range-next fuel m r.after p end below (omega arith) r.returns;
        keeps = λ b g t. ground (arith, r.keeps b, ensure_page-keeps m p b);
        maps = λ b g t. ground (arith, r.maps b, r.keeps b, ensure_page-maps m p b);
      }
  | inr e ↦ record {
    after = m;
    returns = rw e refl;
    keeps = λ b g t. refl;
    maps = λ b g t. absurd (ground arith);
  }
]

-- The bytes from `p` to `end` are those of the segment.
pub record Copied (fuel : ℕ) (m : Memory) (bytes : ℕ → ℕ) (start p end : ℕ) : Type 0 where
  pub after : Memory
  pub returns : store_range fuel m bytes start p end ≡ ok after
  pub inside : (b : ℕ) → p ≤ b → b < end → byte_at after b ≡ some (u8 (bytes (b - start)))
  pub outside : (b : ℕ) → b < 2 ^ 32 → (b < p) ⊎ (end ≤ b) → byte_at after b ≡ byte_at m b

module _ (bytes : ℕ → ℕ) (start end : ℕ) (h : end < 2 ^ 32) where
  store_range-next :
      (fuel : ℕ) (m m' m'' : Memory) (p : ℕ)
      → p < end
      → store_byte m p (u8 (bytes (p - start))) ≡ ok m'
      → store_range fuel m' bytes start (p + 1) end ≡ ok m''
      → store_range (suc fuel) m bytes start p end ≡ ok m''
  unfolding store_range
  store_range-next fuel m m' m'' p g s e = rw (lt→ltb p end g, store_range, s, onwards) e
    where
      onwards : u32 (p + 1) ≡ p + 1
      onwards = omega arith

  pub store_range-Copied :
      (fuel : ℕ) (m : Memory) (p : ℕ)
      → p ≤ end
      → end < p + fuel
      → ((b : ℕ) → p ≤ b → b < end → byte_at m b ≢ none)
      → Copied fuel m bytes start p end
  unfolding store_range
  store_range-Copied zero m p q f t = absurd (omega arith)
  store_range-Copied (suc fuel) m p q f t = elim (Bool-cases (ltb p end)) [
    | inl e ↦
        let below : p < end = ground arith in
        let (m', s) = store_byte-total m p (u8 (bytes (p - start))) (t p (omega arith) below) in
        let stored = λ (b : ℕ) (g : b < 2 ^ 32).
          byte_at-store_byte m m' p b (u8 (bytes (p - start))) (omega arith) g s in
        let r =
          store_range-Copied fuel m' (p + 1) (omega arith) (omega arith)
            (λ b g k. ground (arith, stored b, t b)) in
        record {
          after = r.after;
          returns = store_range-next fuel m m' r.after p below s r.returns;
          inside = λ b g k. ground (arith, r.inside b, r.outside b, stored b);
          outside = λ b g k. ground (arith, r.outside b, stored b);
        }
    | inr e ↦ record {
      after = m;
      returns = rw (e, store_range) refl;
      inside = λ b g k. absurd (ground arith);
      outside = λ b g k. refl;
    }
  ]

-- A segment that starts on a page is there after the load: the bytes of the file, and behind them
-- the rest of its pages.
pub record SegmentLoaded (fuel : ℕ) (m : Memory) (seg : Segment) : Type 0 where
  pub after : Memory
  pub returns : load_segment fuel m seg ≡ ok after
  pub contents :
      (i : ℕ)
      → i < seg.file_size
      → byte_at after (seg.virtual_address + i) ≡ some (u8 (seg.bytes i))
  pub mapped : (i : ℕ) → i < seg.memory_size → byte_at after (seg.virtual_address + i) ≢ none
  pub others :
      (b : ℕ)
      → b < 2 ^ 32
      → (b < seg.virtual_address) ⊎ (seg.virtual_address + seg.file_size ≤ b)
      → byte_at m b ≢ none
      → byte_at after b ≡ byte_at m b

pub load_segment-parts :
    (fuel : ℕ) (m m' m'' : Memory) (seg : Segment)
    → seg.file_size ≤ seg.memory_size
    → seg.virtual_address + seg.memory_size ≤ 2 ^ 32 - 4096
    → alloc_range fuel m seg.virtual_address (seg.virtual_address + seg.memory_size) ≡ ok m'
    → store_range fuel m' seg.bytes seg.virtual_address seg.virtual_address
        (seg.virtual_address + seg.file_size)
      ≡ ok m''
    → load_segment fuel m seg ≡ ok m''
unfolding load_segment
load_segment-parts fuel m m' m'' seg f h a s = rw (same_end, same_file, same_start, a, s) refl
  where
    same_start : u32 seg.virtual_address ≡ seg.virtual_address
    same_start = omega arith

    same_end :
        u32 (u32 seg.virtual_address + u32 seg.memory_size) ≡ seg.virtual_address + seg.memory_size
    same_end = omega arith

    same_file :
        u32 (u32 seg.virtual_address + u32 seg.file_size) ≡ seg.virtual_address + seg.file_size
    same_file = omega arith

-- A segment that starts on a page boundary, whose file size is at most its memory size and which
-- ends at least a page below 2 ^ 32, is loaded with enough fuel: the load succeeds, the bytes of
-- the file stand at the segment's address, its whole memory size is mapped, and every other byte
-- that was there is as it was.
pub load_segment-SegmentLoaded :
    (fuel : ℕ) (m : Memory) (seg : Segment)
    → seg.virtual_address % 4096 ≡ 0
    → seg.file_size ≤ seg.memory_size
    → seg.virtual_address + seg.memory_size ≤ 2 ^ 32 - 4096
    → seg.memory_size + 1 < fuel
    → SegmentLoaded fuel m seg
unfolding load_segment
load_segment-SegmentLoaded fuel m seg a f h q =
    let start = seg.virtual_address in
    let al =
      alloc_range-Allocated fuel m start (start + seg.memory_size) a h (omega arith)
        (omega arith) in
    let co =
      store_range-Copied seg.bytes start (start + seg.file_size) (omega arith) fuel al.after start
        (omega arith) (omega arith) (λ b g k. al.maps b g (omega arith)) in
    let there =
      λ (i : ℕ) (g : i < seg.memory_size). al.maps (start + i) (omega arith) (omega arith) in
    record {
      after = co.after;
      returns = load_segment-parts fuel m al.after co.after seg f h al.returns co.returns;
      contents = λ i g.
          co.inside (start + i) (omega arith) (omega arith)
          ∙ ap (λ k. some (u8 (seg.bytes k))) (omega arith);
      mapped = λ i g. ground (arith, there i, co.inside (start + i), co.outside (start + i));
      others = λ b g k t. co.outside b g k ∙ al.keeps b g t;
    }
