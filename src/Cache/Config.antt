-- ===== src/Cache/Config.antt =====
-- `SetConfig`: the widths that it works out, and the cache that it leaves.
use native.Mathlib.Nat.{pow-suc, one-le-pow, pow-le-pow_right}
use riscv_64i_simulator.Common.{
  ℕ, zero, suc, ◌+◌, ◌/◌, ◌^◌, ◌≤◌, ◌<◌, ◌≡◌, true, false, sym, ap, ◌∙◌, arith, Option,
}
use riscv_64i_simulator.Cache.{Cache, CacheConfig, ceil_log2, ceil_log2_from, set_config}
use riscv_64i_simulator.Cache.Geometry.{IsConfig}
use riscv_64i_simulator.Cache.View.{IsCoherent, Cached, view, view-Uncached}

pow_mono : (j k : ℕ) → j < k → 2 ^ j < 2 ^ k
pow_mono j k h =
    let step : 2 ^ suc j ≤ 2 ^ k = pow-le-pow_right (omega arith) h in
    omega (arith, pow-suc 2 j, one-le-pow j 2 (omega arith))

lt-pow : (k : ℕ) → k < 2 ^ k
lt-pow zero = omega arith
lt-pow (suc k) = omega (arith, pow-suc 2 k, lt-pow k)

-- The least `k` from `j` on with `n ≤ 2 ^ k`.
ceil_log2_from-pow : (fuel j k : ℕ) → j ≤ k → k < j + fuel → ceil_log2_from fuel j (2 ^ k) ≡ k
unfolding ceil_log2_from
ceil_log2_from-pow zero j k p q = absurd (omega arith)
ceil_log2_from-pow (suc fuel) j k p q =
    ground (arith, pow_mono j k, ceil_log2_from-pow fuel (j + 1) k)

ceil_log2-pow : (k : ℕ) → ceil_log2 (2 ^ k) ≡ k
unfolding ceil_log2
ceil_log2-pow k = ceil_log2_from-pow (2 ^ k) 0 k (omega arith) (omega (arith, lt-pow k))

-- What a configuration must say for `SetConfig` to make an `IsConfig` of it.
pub record IsRequested (cc : CacheConfig) (k : ℕ) : Type 0 where
  pub few_sets : k ≤ 25
  pub set_count : cc.set_num ≡ 2 ^ k
  pub some_ways : 0 < cc.associativity
  pub block_bytes : cc.block_size ≡ 64
  pub writes_back : cc.write_through ≡ false
  pub allocates : cc.write_allocate ≡ true

module _ {L : Type 0} (garbage : ℕ → ℕ → ℕ → ℕ) (cc : CacheConfig) (c : Cache L) where
  set_config-IsConfig : (k : ℕ) → IsRequested cc k → IsConfig (set_config garbage cc c).config
  unfolding set_config
  set_config-IsConfig k r = record {
    off_six = offset;
    set_small = omega (arith, sets, r.few_sets);
    tag_rest = omega (arith, offset, sets);
    sets = r.set_count ∙ ap (λ (i : ℕ). 2 ^ i) (sym sets);
    ways = r.some_ways;
    block = r.block_bytes;
    back = r.writes_back;
    allocate = r.allocates;
  }
    where
      offset : ceil_log2 cc.block_size ≡ 6
      offset = ap ceil_log2 r.block_bytes ∙ ceil_log2-pow 6

      sets : ceil_log2 cc.set_num ≡ k
      sets = ap ceil_log2 r.set_count ∙ ceil_log2-pow k

  none_Cached : (n w : ℕ) → Cached (set_config garbage cc c) n w → ⊥
  unfolding set_config
  none_Cached n w t = cc_false (t.held.is_valid)
    where
      cc_false : false ≡ true → ⊥
      cc_false e = ground arith

  -- `SetConfig` with at most 2 ^ 25 sets, a power of two, at least one way, blocks of 64 bytes,
  -- write-back and write-allocate leaves a cache that is coherent with any good lower level, its
  -- address widths included.
  pub set_config-IsCoherent :
      (lower_view : L → ℕ → Option ℕ) (LowerGood : L → Type 0) (k : ℕ)
      → IsRequested cc k
      → LowerGood c.lower
      → IsCoherent lower_view LowerGood (set_config garbage cc c)
  unfolding set_config
  set_config-IsCoherent lower_view LowerGood k r good = record {
    config_ok = set_config-IsConfig k r;
    unique = λ n v w p q. absurd (none_Cached n v p);
    in_range = λ n w t. absurd (none_Cached n w t);
    backed = λ n w i t h. absurd (none_Cached n w t);
    clean = λ n w i t d h. absurd (none_Cached n w t);
    lower_good = good;
  }

  -- It shows what the lower level shows.
  pub set_config-view :
      (lower_view : L → ℕ → Option ℕ) (b : ℕ)
      → view lower_view (set_config garbage cc c) b ≡ lower_view c.lower b
  unfolding set_config
  set_config-view lower_view b =
      view-Uncached lower_view (set_config garbage cc c) b (λ w t. none_Cached (b / 64) w t)
