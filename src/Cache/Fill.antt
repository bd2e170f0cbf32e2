-- ===== src/Cache/Fill.antt =====
-- Putting a block into a way of its set, which may evict another: what the cache shows afterwards.
use riscv_64i_simulator.Common.{
  ℕ, ◌+◌, ◌*◌, ◌/◌, ◌%◌, ◌^◌, ◌<◌, ◌≡◌, ◌≢◌, ◌⊎◌, inl, inr, refl, sym, ap, ◌∙◌, true, false, Option,
  none, some, arith, ◌==◌, Bool-cases, eq→==,
}
use riscv_64i_simulator.Cache.{Cache, Blk, put_block}
use riscv_64i_simulator.Cache.View.{
  Cached, Uncached, block_in, set_of, tag_no, Cached-cases, view, IsCoherent, view-Cached,
  view-Uncached, block_ext,
}

module _ {L : Type 0} (lower_view : L → ℕ → Option ℕ) (LowerGood : L → Type 0) where
  -- `set[index].Block[way] = b`, over the lower level `low`.
  abbrev pub filled : Cache L → ℕ → ℕ → Blk → L → Cache L
  filled c n way b low = record (put_block c (set_of c n) way b) { lower = low }

  -- Block `m` is the one that leaves the way.
  pub record Evicted (c : Cache L) (n way m : ℕ) : Type 0 where
    pub cached : Cached c m way
    pub same_set : set_of c m ≡ set_of c n
    pub other : m ≢ n

  -- The block `b` fits block number `n`, and the lower level has what is evicted.
  pub record CanFill (c : Cache L) (n way : ℕ) (b : Blk) (low : L) : Type 0 where
    pub is_block : n < 2 ^ 26
    pub is_way : way < c.config.associativity
    pub b_valid : b.valid ≡ true
    pub b_tag : b.tag ≡ tag_no c n
    pub only_way : (w : ℕ) → Cached c n w → w ≡ way
    pub evicted_kept :
        (m k : ℕ)
        → Evicted c n way m
        → k < 64
        → lower_view low (m * 64 + k) ≡ some ((block_in c m way).blk k)
    pub rest_kept :
        (x : ℕ)
        → x < 2 ^ 32
        → (Evicted c n way (x / 64) → ⊥)
        → lower_view low x ≡ lower_view c.lower x
    pub b_backed : (k : ℕ) → k < 64 → lower_view low (n * 64 + k) ≢ none
    pub b_clean : (k : ℕ) → b.dirty ≡ false → k < 64 → lower_view low (n * 64 + k) ≡ some (b.blk k)
    pub low_good : LowerGood low

  module _ (c : Cache L) (n way : ℕ) (b : Blk) (low : L) (g : IsCoherent lower_view LowerGood c)
      (f : CanFill c n way b low) where
    abbrev c' : Cache L
    c' = filled c n way b low

    pub new-block : block_in c' n way ≡ b
    new-block = ground (arith, eq→== (set_of c n) (set_of c n) refl, eq→== way way refl)

    pub new-Cached : Cached c' n way
    new-Cached = record {
      below = f.is_way;
      held = record {
        is_valid = ap (λ (x : Blk). x.valid) new-block ∙ f.b_valid;
        same_tag = ap (λ (x : Blk). x.tag) new-block ∙ f.b_tag;
      };
    }

    Apart : ℕ → ℕ → Type 0
    Apart m w = (set_of c m ≢ set_of c n) ⊎ (w ≢ way)

    old-block : (m w : ℕ) → Apart m w → block_in c' m w ≡ block_in c m w
    unfolding Apart
    old-block m w a = elim (Bool-cases (set_of c m == set_of c n)) [
      | inl e ↦ elim (Bool-cases (w == way)) [
        | inl d ↦ absurd (ground arith)
        | inr d ↦ ground arith
      ]
      | inr e ↦ ground arith
    ]

    old-Cached : (m w : ℕ) → Apart m w → Cached c m w → Cached c' m w
    old-Cached m w a t = record {
      below = t.below;
      held = record {
        is_valid = ap (λ (x : Blk). x.valid) (old-block m w a) ∙ t.held.is_valid;
        same_tag = ap (λ (x : Blk). x.tag) (old-block m w a) ∙ t.held.same_tag;
      };
    }

    same_slot : (m w : ℕ) → ((set_of c m ≡ set_of c n) × (w ≡ way)) ⊎ Apart m w
    unfolding Apart
    same_slot m w = ground arith

    slot-block : (m w : ℕ) → set_of c m ≡ set_of c n → w ≡ way → block_in c' m w ≡ b
    slot-block m w e d = ground (arith, eq→== (set_of c m) (set_of c n) e, eq→== w way d)

    same_block : (m w : ℕ) → Cached c' m w → set_of c m ≡ set_of c n → w ≡ way → m ≡ n
    same_block m w t e d =
        block_ext c.config.set_bits m n e
          (sym t.held.same_tag ∙ ap (λ (x : Blk). x.tag) (slot-block m w e d) ∙ f.b_tag)

    Cached-split : (m w : ℕ) → Cached c' m w → ((m ≡ n) × (w ≡ way)) ⊎ (Cached c m w × Apart m w)
    Cached-split m w t = elim (same_slot m w) [
      | inl e ↦ inl (same_block m w t e.0 e.1, e.1)
      | inr a ↦ inr (
        record {
          below = t.below;
          held = record {
            is_valid = ap (λ (x : Blk). x.valid) (sym (old-block m w a)) ∙ t.held.is_valid;
            same_tag = ap (λ (x : Blk). x.tag) (sym (old-block m w a)) ∙ t.held.same_tag;
          };
        },
        a,
      )
    ]

    -- A block that stays is not the one that is evicted.
    kept : (m w : ℕ) → Cached c m w → Apart m w → Evicted c n way m → ⊥
    unfolding Apart
    kept m w t a v = ground (arith, g.unique m w way t v.cached, v.same_set)

    -- Addresses of block `m`.
    lower_kept :
        (m k : ℕ)
        → m < 2 ^ 26
        → k < 64
        → (Evicted c n way m → ⊥)
        → lower_view low (m * 64 + k) ≡ lower_view c.lower (m * 64 + k)
    lower_kept m k h p v = f.rest_kept (m * 64 + k) (omega arith) (λ e. v (rw (← block_no) e))
      where
        block_no : (m * 64 + k) / 64 ≡ m
        block_no = omega arith

    clean_new :
        (m w k : ℕ)
        → m ≡ n
        → w ≡ way
        → (block_in c' m w).dirty ≡ false
        → k < 64
        → lower_view low (m * 64 + k) ≡ some ((block_in c' m w).blk k)
    clean_new m w k e d q h =
        let s = slot-block m w (ap (set_of c) e) d in
        ap (λ x. lower_view low (x * 64 + k)) e
        ∙ f.b_clean k (ap (λ (x : Blk). x.dirty) (sym s) ∙ q) h
        ∙ ap (λ (x : Blk). some (x.blk k)) (sym s)

    clean_old :
        (m w k : ℕ)
        → Cached c m w
        → Apart m w
        → (block_in c' m w).dirty ≡ false
        → k < 64
        → lower_view low (m * 64 + k) ≡ some ((block_in c' m w).blk k)
    clean_old m w k t a q h =
        let s = old-block m w a in
        lower_kept m k (g.in_range m w t) h (kept m w t a)
        ∙ g.clean m w k t (ap (λ (x : Blk). x.dirty) (sym s) ∙ q) h
        ∙ ap (λ (x : Blk). some (x.blk k)) (sym s)

    -- The cache is coherent again.
    pub filled-IsCoherent : IsCoherent lower_view LowerGood c'
    filled-IsCoherent = record {
      config_ok = g.config_ok;
      unique = λ m v w p q. one_way m v w (Cached-split m v p) (Cached-split m w q);
      in_range = λ m w t. elim (Cached-split m w t) [
        | inl e ↦ ground (arith, f.is_block)
        | inr o ↦ g.in_range m w o.0
      ];
      backed = λ m w k t h. elim (Cached-split m w t) [
        | inl e ↦ rw e.0 (f.b_backed k h)
        | inr o ↦
            rw (lower_kept m k (g.in_range m w o.0) h (kept m w o.0 o.1)) (g.backed m w k o.0 h)
      ];
      clean = λ m w k t d h. elim (Cached-split m w t) [
        | inl e ↦ clean_new m w k e.0 e.1 d h
        | inr o ↦ clean_old m w k o.0 o.1 d h
      ];
      lower_good = f.low_good;
    }
      where
        one_way :
            (m v w : ℕ)
            → ((m ≡ n) × (v ≡ way)) ⊎ (Cached c m v × Apart m v)
            → ((m ≡ n) × (w ≡ way)) ⊎ (Cached c m w × Apart m w)
            → v ≡ w
        one_way m v w (inl p) (inl q) = cc
        one_way m v w (inl p) (inr q) = p.1 ∙ sym (f.only_way w (rw p.0 at q.0))
        one_way m v w (inr p) (inl q) = f.only_way v (rw q.0 at p.0) ∙ sym q.1
        one_way m v w (inr p) (inr q) = g.unique m v w p.0 q.0

    -- The block shows its bytes, and every other address shows what it showed.
    pub view-filled_new : (x : ℕ) → x / 64 ≡ n → view lower_view c' x ≡ some (b.blk (x % 64))
    view-filled_new x e =
        view-Cached lower_view LowerGood c' x way filled-IsCoherent (rw e new-Cached)
        ∙ ap (λ (y : Blk). some (y.blk (x % 64))) (slot-block (x / 64) way (ap (set_of c) e) refl)

    -- What is evicted shows from the lower level.
    evicted :
        (x : ℕ) → x < 2 ^ 32 → Evicted c n way (x / 64) → view lower_view c' x ≡ view lower_view c x
    evicted x h ev =
        view-Uncached lower_view c' x (λ v q. gone v (Cached-split (x / 64) v q))
        ∙ ap (lower_view low) address
        ∙ f.evicted_kept (x / 64) (x % 64) ev (omega arith)
        ∙ sym (view-Cached lower_view LowerGood c x way g ev.cached)
      where
        gone : (v : ℕ) → ((x / 64 ≡ n) × (v ≡ way)) ⊎ (Cached c (x / 64) v × Apart (x / 64) v) → ⊥
        gone v (inl z) = ev.other z.0
        gone v (inr z) = kept (x / 64) v z.0 z.1 ev

        address : x ≡ x / 64 * 64 + x % 64
        address = omega arith

    pub view-filled_old :
        (x : ℕ) → x < 2 ^ 32 → x / 64 ≢ n → view lower_view c' x ≡ view lower_view c x
    view-filled_old x h ne = elim (Cached-cases c (x / 64)) [
      | inl t ↦ elim (same_slot (x / 64) t.0) [
        | inl e ↦ evicted x h (record { cached = rw e.1 at t.1; same_set = e.0; other = ne })
        | inr a ↦
            view-Cached lower_view LowerGood c' x t.0 filled-IsCoherent
              (old-Cached (x / 64) t.0 a t.1)
            ∙ ap (λ (y : Blk). some (y.blk (x % 64))) (old-block (x / 64) t.0 a)
            ∙ sym (view-Cached lower_view LowerGood c x t.0 g t.1)
      ]
      | inr u ↦
          view-Uncached lower_view c' x (λ v q. gone v (λ w. u w) (Cached-split (x / 64) v q))
          ∙ f.rest_kept x h (λ ev. u way ev.cached)
          ∙ sym (view-Uncached lower_view c x u)
    ]
      where
        gone :
            (v : ℕ)
            → Uncached c (x / 64)
            → ((x / 64 ≡ n) × (v ≡ way)) ⊎ (Cached c (x / 64) v × Apart (x / 64) v)
            → ⊥
        gone v u (inl z) = ne z.0
        gone v u (inr z) = u v z.0
