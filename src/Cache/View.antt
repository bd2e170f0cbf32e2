-- ===== src/Cache/View.antt =====
-- What a cache shows: the bytes of its valid blocks, and those of the lower level elsewhere. And
-- when it is coherent with the lower level.
use native.Mathlib.Nat.{div-add-mod', div-eq_of_lt-le, mul-add-mod_self_right, mod-eq_of_lt}
use riscv_64i_simulator.Common.{
  ℕ, ◌+◌, ◌*◌, ◌/◌, ◌%◌, ◌^◌, ◌<◌, ◌≡◌, ◌≢◌, ◌⊎◌, inl, inr, refl, ap, ◌∙◌, false, Option, none,
  some, arith,
}
use riscv_64i_simulator.Cache.{Cache, Blk, replace_decision}
use riscv_64i_simulator.Cache.Geometry.{IsConfig}
use riscv_64i_simulator.Cache.Replacement.{HasTag, find_way-some, find_way-none}

module _ {L : Type 0} where
  -- Where block `n` belongs.
  abbrev pub set_of : Cache L → ℕ → ℕ
  set_of c n = n % 2 ^ c.config.set_bits

  abbrev pub tag_no : Cache L → ℕ → ℕ
  tag_no c n = n / 2 ^ c.config.set_bits

  -- Way `w` holds block `n`.
  pub record Cached (c : Cache L) (n w : ℕ) : Type 0 where
    pub below : w < c.config.associativity
    pub held : HasTag (c.set (set_of c n)) (tag_no c n) w

  abbrev pub block_in : Cache L → ℕ → ℕ → Blk
  block_in c n w = c.set (set_of c n) w

  abbrev pub Uncached : Cache L → ℕ → Type 0
  Uncached c n = (w : ℕ) → Cached c n w → ⊥

  unfoldable pub find_block : Cache L → ℕ → Option ℕ
  find_block c n = replace_decision c (set_of c n) (tag_no c n)

  pub find_block-some : (c : Cache L) (n w : ℕ) → find_block c n ≡ some w → Cached c n w
  unfolding find_block replace_decision
  find_block-some c n w h =
      let (p, q, t) =
        find_way-some (c.set (set_of c n)) (tag_no c n) 0 c.config.associativity w h in
      record { below = omega arith; held = t }

  pub find_block-none : (c : Cache L) (n : ℕ) → find_block c n ≡ none → Uncached c n
  unfolding find_block replace_decision
  find_block-none c n h w t =
      find_way-none (c.set (set_of c n)) (tag_no c n) 0 c.config.associativity w h (omega arith)
        (omega (arith, t.below)) t.held

  pub Cached-cases : (c : Cache L) (n : ℕ) → ((w : ℕ) × Cached c n w) ⊎ Uncached c n
  Cached-cases c n = go (find_block c n) refl
    where
      go : (o : Option ℕ) → find_block c n ≡ o → ((w : ℕ) × Cached c n w) ⊎ Uncached c n
      go none e = inr (find_block-none c n e)
      go (some w) e = inl (w, find_block-some c n w e)

module _ {L : Type 0} (lower_view : L → ℕ → Option ℕ) where
  -- The byte that a read of an address finds.
  unfoldable pub view : Cache L → ℕ → Option ℕ
  view c b = elim (find_block c (b / 64)) [
    | some w ↦ some ((block_in c (b / 64) w).blk (b % 64))
    | none ↦ lower_view c.lower b
  ]

  pub view-Uncached : (c : Cache L) (b : ℕ) → Uncached c (b / 64) → view c b ≡ lower_view c.lower b
  unfolding view
  view-Uncached c b t = go (find_block c (b / 64)) refl
    where
      go : (o : Option ℕ) → find_block c (b / 64) ≡ o → view c b ≡ lower_view c.lower b
      go none e = rw (e, view)
      go (some v) e = absurd (t v (find_block-some c (b / 64) v e))

module _ {L : Type 0} (lower_view : L → ℕ → Option ℕ) (LowerGood : L → Type 0) where
  -- No block is held twice, every block held is one of memory's, and one that is clean holds what
  -- the lower level has.
  pub record IsCoherent (c : Cache L) : Type 0 where
    pub config_ok : IsConfig c.config
    pub unique : (n v w : ℕ) → Cached c n v → Cached c n w → v ≡ w
    pub in_range : (n w : ℕ) → Cached c n w → n < 2 ^ 26
    pub backed : (n w k : ℕ) → Cached c n w → k < 64 → lower_view c.lower (n * 64 + k) ≢ none
    pub clean :
        (n w k : ℕ)
        → Cached c n w
        → (block_in c n w).dirty ≡ false
        → k < 64
        → lower_view c.lower (n * 64 + k) ≡ some ((block_in c n w).blk k)
    pub lower_good : LowerGood c.lower

  pub view-Cached :
      (c : Cache L) (b w : ℕ)
      → IsCoherent c
      → Cached c (b / 64) w
      → view lower_view c b ≡ some ((block_in c (b / 64) w).blk (b % 64))
  unfolding view
  view-Cached c b w g t = go (find_block c (b / 64)) refl
    where
      go :
          (o : Option ℕ)
          → find_block c (b / 64) ≡ o
          → view lower_view c b ≡ some ((block_in c (b / 64) w).blk (b % 64))
      go none e = absurd (find_block-none c (b / 64) e w t)
      go (some v) e =
          let same = g.unique (b / 64) v w (find_block-some c (b / 64) v e) t in
          rw (e, view) (ap (λ x. some ((block_in c (b / 64) x).blk (b % 64))) same)

-- A block number, from its set and tag, and back.
pub block_parts :
    (k tag index : ℕ)
    → index < 2 ^ k
    → ((tag * 2 ^ k + index) % 2 ^ k ≡ index) × ((tag * 2 ^ k + index) / 2 ^ k ≡ tag)
block_parts k tag index h = (
  mul-add-mod_self_right tag (2 ^ k) index ∙ mod-eq_of_lt h,
  div-eq_of_lt-le (2 ^ k) (omega arith) (omega arith),
)

pub block_ext : (k m n : ℕ) → m % 2 ^ k ≡ n % 2 ^ k → m / 2 ^ k ≡ n / 2 ^ k → m ≡ n
block_ext k m n p q =
    omega (arith, div-add-mod' m (2 ^ k), div-add-mod' n (2 ^ k), ap (λ (t : ℕ). t * 2 ^ k) q)
