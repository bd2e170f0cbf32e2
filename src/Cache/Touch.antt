-- ===== src/Cache/Touch.antt =====
-- A hit: the block that is found changes in place.
use riscv_64i_simulator.Common.{
  ℕ, ◌+◌, ◌*◌, ◌/◌, ◌%◌, ◌^◌, ◌≤◌, ◌<◌, ◌≡◌, ◌⊎◌, inl, inr, refl, sym, ap, ◌∙◌, false, Option, some,
  List, arith, ◌==◌, Bool-cases, copy_in, copy_out, copy_in-inside, copy_in-outside,
  get_or-copy_out, length, get_or,
}
use riscv_64i_simulator.Cache.{Cache, Blk}
use riscv_64i_simulator.Cache.View.{Cached, block_in, IsCoherent, block_ext, view, view-Cached}
use riscv_64i_simulator.Cache.Fill.{
  filled, Evicted, CanFill, filled-IsCoherent, view-filled_new, view-filled_old,
}
use riscv_64i_simulator.Storage.Laws.{Fits}

module _ {L : Type 0} (lower_view : L → ℕ → Option ℕ) (LowerGood : L → Type 0) where
  -- A new version of a block that is held.
  pub record Touched (old b : Blk) : Type 0 where
    pub valid : b.valid ≡ old.valid
    pub tag : b.tag ≡ old.tag
    pub clean : b.dirty ≡ false → (old.dirty ≡ false) × (b.blk ≡ old.blk)

  pub touch-CanFill :
      (c : Cache L) (n way : ℕ) (b : Blk)
      → IsCoherent lower_view LowerGood c
      → Cached c n way
      → Touched (block_in c n way) b
      → CanFill lower_view LowerGood c n way b c.lower
  touch-CanFill c n way b g t o = record {
    is_block = g.in_range n way t;
    is_way = t.below;
    b_valid = o.valid ∙ t.held.is_valid;
    b_tag = o.tag ∙ t.held.same_tag;
    only_way = λ w u. g.unique n w way u t;
    evicted_kept = λ m k e h. absurd (e.other (same m e));
    rest_kept = λ x h e. refl;
    b_backed = λ k h. g.backed n way k t h;
    b_clean = λ k d h.
        g.clean n way k t (o.clean d).0 h ∙ ap (λ (f : ℕ → ℕ). some (f k)) (sym (o.clean d).1);
    low_good = g.lower_good;
  }
    where
      same : (m : ℕ) → Evicted lower_view LowerGood c n way m → m ≡ n
      same m e = block_ext c.config.set_bits m n e.same_set (
          sym e.cached.held.same_tag
          ∙ ap (λ (i : ℕ). (c.set i way).tag) e.same_set
          ∙ t.held.same_tag)

  -- The block has the bytes that the cache shows for block `n`.
  abbrev pub Shows : Cache L → ℕ → Blk → Type 0
  Shows c n b = (k : ℕ) → k < 64 → view lower_view c (n * 64 + k) ≡ some (b.blk k)

  pub held-Shows :
      (c : Cache L) (n way : ℕ)
      → IsCoherent lower_view LowerGood c
      → Cached c n way
      → Shows c n (block_in c n way)
  held-Shows c n way g t k h =
      view-Cached lower_view LowerGood c (n * 64 + k) way g (rw block_no t)
      ∙ ap (λ (m : ℕ). some ((block_in c m way).blk ((n * 64 + k) % 64))) block_no
      ∙ ap (λ (j : ℕ). some ((block_in c n way).blk j)) offset
    where
      block_no : (n * 64 + k) / 64 ≡ n
      block_no = omega arith

      offset : (n * 64 + k) % 64 ≡ k
      offset = omega arith

  -- Putting in what is shown anyway changes nothing that is shown.
  pub filled-unchanged :
      (c : Cache L) (n way : ℕ) (b : Blk) (low : L)
      → IsCoherent lower_view LowerGood c
      → CanFill lower_view LowerGood c n way b low
      → Shows c n b
      → (x : ℕ) → x < 2 ^ 32
      → view lower_view (filled lower_view LowerGood c n way b low) x ≡ view lower_view c x
  filled-unchanged c n way b low g f sh x h = elim (Bool-cases (x / 64 == n)) [
    | inl e ↦
        let same_block : x / 64 ≡ n = ground arith in
        let address : n * 64 + x % 64 ≡ x = omega arith in
        view-filled_new lower_view LowerGood c n way b low g f x same_block
        ∙ sym (sh (x % 64) (omega arith))
        ∙ ap (view lower_view c) address
    | inr e ↦ view-filled_old lower_view LowerGood c n way b low g f x h (ground arith)
  ]

  -- What a read copies out of the block is what is shown.
  pub copy_out-Shows :
      (c : Cache L) (a m : ℕ) (b : Blk)
      → Fits a m
      → Shows c (a / 64) b
      → (i : ℕ) → i < m
      → view lower_view c (a + i) ≡ some (get_or (copy_out b.blk (a % 64) m) i 0)
  copy_out-Shows c a m b f sh i h =
      ap (view lower_view c) address
      ∙ sh (a % 64 + i) (omega (arith, f.in_block))
      ∙ ap (λ (v : ℕ). some v) (sym (get_or-copy_out b.blk (a % 64) m i h))
    where
      address : a + i ≡ a / 64 * 64 + (a % 64 + i)
      address = omega arith

  -- A write into a block that is held.
  module _ (c : Cache L) (a way : ℕ) (content : List ℕ) (b : Blk)
      (g : IsCoherent lower_view LowerGood c) (t : Cached c (a / 64) way)
      (o : Touched (block_in c (a / 64) way) b) (f : Fits a (length content))
      (e : b.blk ≡ copy_in (block_in c (a / 64) way).blk (a % 64) content) where
    abbrev after : Cache L
    after = filled lower_view LowerGood c (a / 64) way b c.lower

    can : CanFill lower_view LowerGood c (a / 64) way b c.lower
    can = touch-CanFill c (a / 64) way b g t o

    pub touch-IsCoherent : IsCoherent lower_view LowerGood after
    touch-IsCoherent = filled-IsCoherent lower_view LowerGood c (a / 64) way b c.lower g can

    pub touch-written :
        (i : ℕ) → i < length content → view lower_view after (a + i) ≡ some (get_or content i 0)
    touch-written i h =
        view-filled_new lower_view LowerGood c (a / 64) way b c.lower g can (a + i) block_no
        ∙ ap (λ (j : ℕ). some (b.blk j)) offset
        ∙ ap (λ (y : ℕ → ℕ). some (y (a % 64 + i))) e
        ∙ ap (λ (v : ℕ). some v) (copy_in-inside (block_in c (a / 64) way).blk (a % 64) content i h)
      where
        block_no : (a + i) / 64 ≡ a / 64
        block_no = omega (arith, f.in_block)

        offset : (a + i) % 64 ≡ a % 64 + i
        offset = omega (arith, f.in_block)

    pub touch-others :
        (x : ℕ)
        → x < 2 ^ 32
        → (x < a) ⊎ (a + length content ≤ x)
        → view lower_view after x ≡ view lower_view c x
    touch-others x h p = elim (Bool-cases (x / 64 == a / 64)) [
      | inl q ↦
          let block_no : x / 64 ≡ a / 64 = ground arith in
          let beside : (x % 64 < a % 64) ⊎ (a % 64 + length content ≤ x % 64) = omega arith in
          view-filled_new lower_view LowerGood c (a / 64) way b c.lower g can x block_no
          ∙ ap (λ (y : ℕ → ℕ). some (y (x % 64))) e
          ∙ ap (λ (v : ℕ). some v)
              (copy_in-outside (block_in c (a / 64) way).blk (a % 64) content (x % 64) beside)
          ∙ ap (λ (m : ℕ). some ((block_in c m way).blk (x % 64))) (sym block_no)
          ∙ sym (view-Cached lower_view LowerGood c x way g (rw block_no t))
      | inr q ↦
          view-filled_old lower_view LowerGood c (a / 64) way b c.lower g can x h (ground arith)
    ]
