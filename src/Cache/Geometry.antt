-- ===== src/Cache/Geometry.antt =====
-- How a cache takes addresses apart (`HandleRequest`), as arithmetic on block numbers: with blocks
-- of 64 bytes, block `n` holds the addresses from `n * 64` on, and belongs to the set
-- `n % 2 ^ set_bits` under the tag `n / 2 ^ set_bits`.
use native.Mathlib.Nat.{
  mod-eq_of_lt, one-le-pow, div-div-eq-div-mul, div-lt_iff_lt-mul, add_comm, pow-suc,
}
use native.Mathlib.Numerals.{towards_suc}
use riscv_64i_simulator.Common.{
  ℕ, zero, suc, ◌+◌, ◌-◌, ◌*◌, ◌/◌, ◌%◌, ◌^◌, ◌≤◌, ◌<◌, ◌≡◌, refl, sym, ap, ◌∙◌, Bool, true, false,
  ◌&&◌, arith, ◌==◌, ==_iff, u32, shl32, bit_and,
}
use riscv_64i_simulator.Common.Bits.{bit_and-mask}
use riscv_64i_simulator.Cache.{
  CacheConfig, low_mask, block_offset, set_index, tag_of, block_addr, kick_addr,
}

-- A configuration as `main` makes them: blocks of 64 bytes, written back and allocated on a write.
pub record IsConfig (cc : CacheConfig) : Type 0 where
  pub off_six : cc.off_bits ≡ 6
  pub set_small : cc.set_bits ≤ 25
  pub tag_rest : cc.tag_bits ≡ 26 - cc.set_bits
  pub sets : cc.set_num ≡ 2 ^ cc.set_bits
  pub ways : 0 < cc.associativity
  pub block : cc.block_size ≡ 64
  pub back : cc.write_through ≡ false
  pub allocate : cc.write_allocate ≡ true

check_below : ℕ → (ℕ → Bool) → Bool
check_below zero p = true
check_below (suc n) p = p n && check_below n p

check_below_sound : (n : ℕ) (p : ℕ → Bool) (x : ℕ) → check_below n p ≡ true → x < n → p x ≡ true
unfolding check_below
check_below_sound zero p x h lt = absurd (omega arith)
check_below_sound (suc n) p x h lt = ground (arith, check_below_sound n p x)

masks : check_below 32 (λ k. low_mask k == 2 ^ k - 1) ≡ true
unfolding check_below low_mask
masks = refl

low_mask_lem : (k : ℕ) → k < 32 → low_mask k ≡ 2 ^ k - 1
low_mask_lem k h = (==_iff _ _).0 (check_below_sound 32 (λ k. low_mask k == 2 ^ k - 1) k masks h)

powers : check_below 26 (λ k. 2 ^ k * 2 ^ (26 - k) == 2 ^ 26) ≡ true
unfolding check_below
powers = refl

-- The sets and the tags share the 26 bits of a block number.
set-mul-tag : (k : ℕ) → k ≤ 25 → 2 ^ k * 2 ^ (26 - k) ≡ 2 ^ 26
set-mul-tag k h =
    (==_iff _ _).0
      (check_below_sound 26 (λ k. 2 ^ k * 2 ^ (26 - k) == 2 ^ 26) k powers (omega arith))

six-add : (k : ℕ) → 2 ^ (6 + k) ≡ 64 * 2 ^ k
six-add k = ap (λ n. 2 ^ n) (add_comm 6 k) ∙ shifted
  where
    shifted : 2 ^ (k + 6) ≡ 64 * 2 ^ k
    shifted = simp towards_suc (
        omega (
          arith,
          pow-suc 2 k,
          pow-suc 2 (suc k),
          pow-suc 2 (suc (suc k)),
          pow-suc 2 (suc (suc (suc k))),
          pow-suc 2 (suc (suc (suc (suc k)))),
          pow-suc 2 (suc (suc (suc (suc (suc k))))),
        ))

module _ {cc : CacheConfig} (g : IsConfig cc) where
  pub block_offset_lem : (a : ℕ) → block_offset cc a ≡ a % 64
  unfolding block_offset
  block_offset_lem a =
      ap (λ k. bit_and a (low_mask k)) g.off_six
      ∙ ap (bit_and a) (low_mask_lem 6 (omega arith))
      ∙ bit_and-mask 6 a

  pub set_index_lem : (a : ℕ) → set_index cc a ≡ a / 64 % 2 ^ cc.set_bits
  unfolding set_index
  set_index_lem a =
      ap (λ k. bit_and (a / 2 ^ k) (low_mask cc.set_bits)) g.off_six
      ∙ ap (bit_and (a / 64)) (low_mask_lem cc.set_bits (omega (arith, g.set_small)))
      ∙ bit_and-mask cc.set_bits (a / 64)

  -- A tag fits the bits that are left for it, so that the mask cuts nothing off.
  tag-lt : (a : ℕ) → a < 2 ^ 32 → a / 64 / 2 ^ cc.set_bits < 2 ^ cc.tag_bits
  tag-lt a h = rw g.tag_rest (
      (div-lt_iff_lt-mul (one-le-pow cc.set_bits 2 (omega arith))).1
        (omega (arith, set-mul-tag cc.set_bits g.set_small)))

  pub tag_of_lem : (a : ℕ) → a < 2 ^ 32 → tag_of cc a ≡ a / 64 / 2 ^ cc.set_bits
  unfolding tag_of
  tag_of_lem a h =
      ap (λ k. bit_and (a / 2 ^ (k + cc.set_bits)) (low_mask cc.tag_bits)) g.off_six
      ∙ ap (bit_and (a / 2 ^ (6 + cc.set_bits)))
          (low_mask_lem cc.tag_bits (omega (arith, g.tag_rest)))
      ∙ bit_and-mask cc.tag_bits (a / 2 ^ (6 + cc.set_bits))
      ∙ ap (λ n. a / n % 2 ^ cc.tag_bits) (six-add cc.set_bits)
      ∙ ap (λ n. n % 2 ^ cc.tag_bits) (sym (div-div-eq-div-mul a 64 (2 ^ cc.set_bits)))
      ∙ mod-eq_of_lt (tag-lt a h)

  pub block_addr_lem : (a : ℕ) → a < 2 ^ 32 → block_addr cc a ≡ a / 64 * 64
  unfolding block_addr
  block_addr_lem a h = omega (arith, block_offset_lem a)

  pub kick_addr_lem :
      (tag index : ℕ)
      → tag * 2 ^ cc.set_bits + index < 2 ^ 26
      → kick_addr cc tag index ≡ (tag * 2 ^ cc.set_bits + index) * 64
  unfolding kick_addr
  kick_addr_lem tag index h =
      ap (λ k. u32 (shl32 tag k + shl32 index cc.off_bits)) rest
      ∙ ap (λ k. u32 (shl32 tag (6 + cc.set_bits) + shl32 index k)) g.off_six
      ∙ ap (λ n. u32 (u32 (tag * n) + shl32 index 6)) (six-add cc.set_bits)
      ∙ omega arith
    where
      rest : 32 - cc.tag_bits ≡ 6 + cc.set_bits
      rest = omega (arith, g.tag_rest, g.set_small)
