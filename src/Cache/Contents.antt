-- ===== src/Cache/Contents.antt =====
-- The parts of `HandleRequest` (cache.cpp) that only count accesses or let blocks grow older.
use riscv_64i_simulator.Common.{
  ℕ, ◌+◌, ◌*◌, ◌/◌, ◌%◌, ◌^◌, ◌≡◌, inl, inr, refl, sym, ap, ◌∙◌, Option, arith, some,
}
use riscv_64i_simulator.Cache.{Cache, CacheConfig, age, count_access, count_time, count_miss}
use riscv_64i_simulator.Cache.View.{
  Cached, block_in, Cached-cases, view, IsCoherent, view-Cached, view-Uncached,
}

-- Two caches with the same blocks, but for how long ago they were visited.
pub record SameContents {L : Type 0} (c d : Cache L) : Type 0 where
  pub config : d.config ≡ c.config
  pub lower : d.lower ≡ c.lower
  pub blk : (i j : ℕ) → (d.set i j).blk ≡ (c.set i j).blk
  pub tag : (i j : ℕ) → (d.set i j).tag ≡ (c.set i j).tag
  pub valid : (i j : ℕ) → (d.set i j).valid ≡ (c.set i j).valid
  pub dirty : (i j : ℕ) → (d.set i j).dirty ≡ (c.set i j).dirty

module _ {L : Type 0} where
  -- The head of `HandleRequest`.
  abbrev pub started : Cache L → Cache L
  started c = count_time (age (count_access c))

  pub started-SameContents : (c : Cache L) → SameContents c (started c)
  unfolding count_time age count_access
  started-SameContents c = record {
    config = refl;
    lower = refl;
    blk = λ i j. ground arith;
    tag = λ i j. ground arith;
    valid = λ i j. ground arith;
    dirty = λ i j. ground arith;
  }

  pub count_miss-SameContents : (c : Cache L) → SameContents c (count_miss c)
  unfolding count_miss
  count_miss-SameContents c = record {
    config = refl;
    lower = refl;
    blk = λ i j. refl;
    tag = λ i j. refl;
    valid = λ i j. refl;
    dirty = λ i j. refl;
  }

  SameContents-sym : {c d : Cache L} → SameContents c d → SameContents d c
  SameContents-sym s = record {
    config = sym s.config;
    lower = sym s.lower;
    blk = λ i j. sym (s.blk i j);
    tag = λ i j. sym (s.tag i j);
    valid = λ i j. sym (s.valid i j);
    dirty = λ i j. sym (s.dirty i j);
  }

  module _ {c d : Cache L} (s : SameContents c d) where
    config_bits : d.config.set_bits ≡ c.config.set_bits
    config_bits = ap (λ (k : CacheConfig). k.set_bits) s.config

    pub Cached-back : (n w : ℕ) → Cached d n w → Cached c n w
    Cached-back n w t = record {
      below = rw s.config at t.below;
      held = record {
        is_valid =
            ap (λ (k : ℕ). (c.set (n % 2 ^ k) w).valid) (sym config_bits)
            ∙ sym (s.valid (n % 2 ^ d.config.set_bits) w)
            ∙ t.held.is_valid;
        same_tag =
            ap (λ (k : ℕ). (c.set (n % 2 ^ k) w).tag) (sym config_bits)
            ∙ sym (s.tag (n % 2 ^ d.config.set_bits) w)
            ∙ t.held.same_tag
            ∙ ap (λ (k : ℕ). n / 2 ^ k) config_bits;
      };
    }

    blk_same : (n w : ℕ) → (block_in d n w).blk ≡ (block_in c n w).blk
    blk_same n w =
        s.blk (n % 2 ^ d.config.set_bits) w ∙ ap (λ (k : ℕ). (c.set (n % 2 ^ k) w).blk) config_bits

    dirty_same : (n w : ℕ) → (block_in d n w).dirty ≡ (block_in c n w).dirty
    dirty_same n w =
        s.dirty (n % 2 ^ d.config.set_bits) w
        ∙ ap (λ (k : ℕ). (c.set (n % 2 ^ k) w).dirty) config_bits

  module _ (lower_view : L → ℕ → Option ℕ) (LowerGood : L → Type 0) {c d : Cache L}
      (s : SameContents c d) (g : IsCoherent lower_view LowerGood c) where
    pub SameContents-IsCoherent : IsCoherent lower_view LowerGood d
    SameContents-IsCoherent = record {
      config_ok = rw s.config g.config_ok;
      unique = λ n v w p q. g.unique n v w (Cached-back s n v p) (Cached-back s n w q);
      in_range = λ n w t. g.in_range n w (Cached-back s n w t);
      backed = λ n w k t h. rw s.lower (g.backed n w k (Cached-back s n w t) h);
      clean = λ n w k t e h.
          ap (λ (l : L). lower_view l (n * 64 + k)) s.lower
          ∙ g.clean n w k (Cached-back s n w t) (sym (dirty_same s n w) ∙ e) h
          ∙ ap (λ (f : ℕ → ℕ). some (f k)) (sym (blk_same s n w));
      lower_good = rw s.lower g.lower_good;
    }

    pub SameContents-view : (x : ℕ) → view lower_view d x ≡ view lower_view c x
    SameContents-view x = elim (Cached-cases d (x / 64)) [
      | inl t ↦
          view-Cached lower_view LowerGood d x t.0 SameContents-IsCoherent t.1
          ∙ ap (λ (f : ℕ → ℕ). some (f (x % 64))) (blk_same s (x / 64) t.0)
          ∙ sym (view-Cached lower_view LowerGood c x t.0 g (Cached-back s (x / 64) t.0 t.1))
      | inr u ↦
          view-Uncached lower_view d x u
          ∙ ap (λ (l : L). lower_view l x) s.lower
          ∙ sym (
              view-Uncached lower_view c x
                (λ w t. u w (Cached-back (SameContents-sym s) (x / 64) w t)))
    ]
