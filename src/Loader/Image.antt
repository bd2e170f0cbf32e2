-- ===== src/Loader/Image.antt =====
-- What the memory holds once `loader` (Read_Elf.cpp) and the stack loop of `main` (simulation.cpp)
-- are done, read off the program alone.
use riscv_64i_simulator.Common.{
  ℕ, zero, suc, ◌+◌, ◌-◌, ◌*◌, ◌/◌, ◌%◌, ◌^◌, ◌<◌, ◌≤◌, ◌≡◌, refl, ◌∙◌, ap, Option, none, some,
  List, [], ◌∷◌, ◌&&◌, arith, ok, Bool-cases, inl, inr, u8, u32, ltb, leb, if◌then◌else◌,
}
use riscv_64i_simulator.Isa.Inst.{stack_start, stack_size}
use riscv_64i_simulator.Memory.{Memory, is_valid_addr}
use riscv_64i_simulator.Memory.Paging.{byte_at}
use riscv_64i_simulator.Loader.{
  Segment, ensure_page, alloc_range, load_segment, loader, map_pages, map_stack,
}
use riscv_64i_simulator.Loader.Pages.{
  byte_at-ensure_page, alloc_range-Allocated, store_range-Copied, load_segment-parts,
}

-- A page that is made is full of zeros.
abbrev pub fresh : Option ℕ → Option ℕ
fresh none = some 0
fresh (some v) = some v

abbrev pub page_of : ℕ → ℕ
page_of b = b / 4096 * 4096

-- A byte after the pages that start between `low` and `high` have been made.
abbrev pub with_pages : ℕ → ℕ → Option ℕ → ℕ → Option ℕ
with_pages low high prev b =
    if leb low (page_of b) && ltb (page_of b) high then fresh prev else prev

-- A byte after a segment has been loaded, given the one before.
abbrev pub with_segment : Segment → Option ℕ → ℕ → Option ℕ
with_segment seg prev b =
    let start = seg.virtual_address in
    if leb start b && ltb b (start + seg.file_size)
    then some (u8 (seg.bytes (b - start)))
    else with_pages start (start + seg.memory_size) prev b

-- Later segments come over earlier ones.
unfoldable pub with_segments : List Segment → Option ℕ → ℕ → Option ℕ
with_segments [] prev b = prev
with_segments (seg ∷ segs) prev b = with_segments segs (with_segment seg prev b) b

-- The image of a program: its segments, and the pages of the stack.
unfoldable pub image : List Segment → ℕ → Option ℕ
image segs b =
    with_pages (stack_start - stack_size + 4096) (stack_start + 1) (with_segments segs none b) b

-- A segment that the loader takes: on a page boundary, with no more bytes in the file than in the
-- memory, and at least a page below 2 ^ 32.
pub record IsLoadable (seg : Segment) : Type 0 where
  pub aligned : seg.virtual_address % 4096 ≡ 0
  pub file_fits : seg.file_size ≤ seg.memory_size
  pub below : seg.virtual_address + seg.memory_size ≤ 2 ^ 32 - 4096

one_page :
    (m : Memory) (p end b : ℕ)
    → p % 4096 ≡ 0
    → p < 2 ^ 32
    → b < 2 ^ 32
    → p < end
    → with_pages (p + 4096) end (byte_at (ensure_page m p) b) b ≡ with_pages p end (byte_at m b) b
unfolding is_valid_addr byte_at
one_page m p end b a h q t = ground (arith, byte_at-ensure_page m p b h q)

alloc_range-with_pages :
    (fuel : ℕ) (m m' : Memory) (p end b : ℕ)
    → p % 4096 ≡ 0
    → p < 2 ^ 32
    → end ≤ 2 ^ 32 - 4096
    → b < 2 ^ 32
    → alloc_range fuel m p end ≡ ok m'
    → byte_at m' b ≡ with_pages p end (byte_at m b) b
unfolding alloc_range
alloc_range-with_pages zero m m' p end b a h e q r = ground arith
alloc_range-with_pages (suc fuel) m m' p end b a h e q r = elim (Bool-cases (ltb p end)) [
  | inl t ↦
      let next : u32 (p + 4096) ≡ p + 4096 = ground arith in
      let later =
        alloc_range-with_pages fuel (ensure_page m p) m' (p + 4096) end b (omega arith)
          (ground arith) e q (rw next at (simp t at r)) in
      later ∙ one_page m p end b a h q (ground arith)
  | inr t ↦ ground arith
]

-- A segment is loaded as its place in the image says.
load_segment-with_segment :
    (fuel : ℕ) (m : Memory) (seg : Segment)
    → IsLoadable seg
    → seg.memory_size + 1 < fuel
    → (after : Memory) × (load_segment fuel m seg ≡ ok after)
      × ((b : ℕ) → b < 2 ^ 32 → byte_at after b ≡ with_segment seg (byte_at m b) b)
load_segment-with_segment fuel m seg l q =
    let start = seg.virtual_address in
    let below = l.below in
    let al =
      alloc_range-Allocated fuel m start (start + seg.memory_size) l.aligned below (omega arith)
        (omega arith) in
    let co =
      store_range-Copied seg.bytes start (start + seg.file_size) (omega (arith, l.file_fits)) fuel
        al.after start (omega arith) (omega (arith, l.file_fits))
        (λ b g k. al.maps b g (omega (arith, l.file_fits))) in
    (
      co.after,
      load_segment-parts fuel m al.after co.after seg l.file_fits below al.returns co.returns,
      λ b g. ground (
        arith,
        co.inside b,
        co.outside b,
        alloc_range-with_pages fuel m al.after start (start + seg.memory_size) b l.aligned
            (omega arith) below g al.returns,
      ),
    )

-- Every segment of a program can be loaded, with so much fuel.
abbrev pub AllLoadable : ℕ → List Segment → Type 0
AllLoadable fuel [] = Unit {0}
AllLoadable fuel (seg ∷ segs) =
    IsLoadable seg × (seg.memory_size + 1 < fuel) × AllLoadable fuel segs

loader-with_segments :
    (fuel : ℕ) (m : Memory) (segs : List Segment)
    → AllLoadable fuel segs
    → (after : Memory) × (loader fuel m segs ≡ ok after)
      × ((b : ℕ) → b < 2 ^ 32 → byte_at after b ≡ with_segments segs (byte_at m b) b)
unfolding loader with_segments
loader-with_segments fuel m [] l = (m, refl, λ b g. refl)
loader-with_segments fuel m (seg ∷ segs) l =
    let (first, a, x) = load_segment-with_segment fuel m seg l.0 l.1 in
    let (after, c, y) = loader-with_segments fuel first segs l.2 in
    (after, rw a c, λ b g. y b g ∙ ap (λ prev. with_segments segs prev b) (x b g))

stack_page :
    (m : Memory) (addr b : ℕ)
    → addr % 4096 ≡ 0
    → addr < 2 ^ 32
    → b < 2 ^ 32
    → stack_start - stack_size < addr
    → with_pages
        (stack_start - stack_size + 4096)
        (addr - 4096 + 1)
        (byte_at (ensure_page m addr) b)
        b
      ≡ with_pages (stack_start - stack_size + 4096) (addr + 1) (byte_at m b) b
unfolding is_valid_addr byte_at
stack_page m addr b a h g t = ground (arith, byte_at-ensure_page m addr b h g)

map_pages-with_pages :
    (n : ℕ) (m : Memory) (addr b : ℕ)
    → addr % 4096 ≡ 0
    → addr < 2 ^ 32
    → b < 2 ^ 32
    → addr ≤ stack_start - stack_size + n * 4096
    → byte_at (map_pages n m addr) b
      ≡ with_pages (stack_start - stack_size + 4096) (addr + 1) (byte_at m b) b
unfolding map_pages
map_pages-with_pages zero m addr b a h g f = ground arith
map_pages-with_pages (suc n) m addr b a h g f =
    elim (Bool-cases (ltb (stack_start - stack_size) addr)) [
      | inl t ↦ rw t (
          map_pages-with_pages n (ensure_page m addr) (addr - 4096) b (ground arith) (omega arith) g
            (omega arith)
          ∙ stack_page m addr b a h g (ground arith))
      | inr t ↦ ground arith
    ]

-- What `main` has loaded before the simulation begins is the image of the program.
pub loaded-image :
    (fuel : ℕ) (m : Memory) (segs : List Segment)
    → ((b : ℕ) → byte_at m b ≡ none)
    → AllLoadable fuel segs
    → (after : Memory) × (loader fuel m segs ≡ ok after)
      × ((b : ℕ) → b < 2 ^ 32 → byte_at (map_stack after) b ≡ image segs b)
unfolding map_stack image
loaded-image fuel m segs e l =
    let (after, a, x) = loader-with_segments fuel m segs l in
    (
      after,
      a,
      λ b g.
          map_pages-with_pages 1025 after stack_start b (omega arith) (omega arith) g (omega arith)
          ∙ ap (λ prev. with_pages (stack_start - stack_size + 4096) (stack_start + 1) prev b)
              (x b g ∙ ap (λ prev. with_segments segs prev b) (e b)),
    )
