-- ===== src/Cache/WriteBack.antt =====
-- The write of an evicted block to the lower level.
use riscv_64i_simulator.Common.{
  ℕ, ◌+◌, ◌*◌, ◌/◌, ◌^◌, ◌≤◌, ◌<◌, ◌≡◌, ◌≢◌, ◌⊎◌, inl, inr, refl, sym, ap, ◌∙◌, false, true, Option,
  some, none, List, ◌&&◌, arith, Bool-cases, copy_out, ok, get_or-copy_out, length, get_or,
  length-copy_out,
}
use native.Mathlib.Nat.{mod-lt, one-le-pow}
use riscv_64i_simulator.Storage.{Handler}
use riscv_64i_simulator.Storage.Laws.{Fits, Writes, IsStorage}
use riscv_64i_simulator.Cache.{Cache, Blk, write_back, kick_addr}
use riscv_64i_simulator.Cache.Geometry.{kick_addr_lem}
use riscv_64i_simulator.Cache.View.{
  Cached, Uncached, block_in, set_of, tag_no, IsCoherent, block_ext, block_parts,
}
use riscv_64i_simulator.Cache.Fill.{Evicted}

module _ {L : Type 0} (lower_request : Handler L) (lower_view : L → ℕ → Option ℕ)
    (LowerGood : L → Type 0) (st : IsStorage lower_request lower_view LowerGood) (c : Cache L)
    (n way : ℕ) (g : IsCoherent lower_view LowerGood c) (u : Uncached c n)
    (is_way : way < c.config.associativity) (low : L)
    (same : (x : ℕ) → x < 2 ^ 32 → lower_view low x ≡ lower_view c.lower x)
    (good : LowerGood low) where
  -- The lower level has the block that leaves the way, and otherwise shows what it showed.
  pub record WroteBack : Type 0 where
    pub after : L
    pub time : ℕ
    pub returns :
        write_back lower_request c.config low (set_of c n) (block_in c n way) ≡ ok (after, time)
    pub after_good : LowerGood after
    pub evicted_kept :
        (m k : ℕ)
        → Evicted lower_view LowerGood c n way m
        → k < 64
        → lower_view after (m * 64 + k) ≡ some ((block_in c m way).blk k)
    pub rest_kept :
        (x : ℕ)
        → x < 2 ^ 32
        → (Evicted lower_view LowerGood c n way (x / 64) → ⊥)
        → lower_view after x ≡ lower_view c.lower x

  same_slot : (m : ℕ) → Evicted lower_view LowerGood c n way m → block_in c m way ≡ block_in c n way
  same_slot m e = ap (λ (i : ℕ). c.set i way) e.same_set

  -- A victim that is empty or clean need not be written.
  no_write : (block_in c n way).valid && (block_in c n way).dirty ≡ false → WroteBack
  unfolding write_back
  no_write h = record {
    after = low;
    time = 0;
    returns = simp (g.config_ok.back, h) refl;
    after_good = good;
    evicted_kept = λ m k e q.
        same (m * 64 + k) (omega (arith, g.in_range m way e.cached))
        ∙ g.clean m way k e.cached (is_clean m e) q;
    rest_kept = λ x q e. same x q;
  }
    where
      is_clean : (m : ℕ) → Evicted lower_view LowerGood c n way m → (block_in c m way).dirty ≡ false
      is_clean m e = ground (arith, e.cached.held.is_valid, same_slot m e)

  abbrev victim_no : ℕ
  victim_no = (block_in c n way).tag * 2 ^ c.config.set_bits + set_of c n

  victim_parts : (set_of c victim_no ≡ set_of c n) × (tag_no c victim_no ≡ (block_in c n way).tag)
  victim_parts =
      block_parts c.config.set_bits (block_in c n way).tag (set_of c n)
        (mod-lt n (one-le-pow c.config.set_bits 2 (omega arith)))

  victim_Cached : (block_in c n way).valid ≡ true → Cached c victim_no way
  victim_Cached h = record {
    below = is_way;
    held = record {
      is_valid = ap (λ (i : ℕ). (c.set i way).valid) victim_parts.0 ∙ h;
      same_tag = ap (λ (i : ℕ). (c.set i way).tag) victim_parts.0 ∙ sym victim_parts.1;
    };
  }

  victim_lone : (m : ℕ) → Evicted lower_view LowerGood c n way m → m ≡ victim_no
  victim_lone m e = block_ext c.config.set_bits m victim_no (e.same_set ∙ sym victim_parts.0) (
      sym e.cached.held.same_tag
      ∙ ap (λ (i : ℕ). (c.set i way).tag) e.same_set
      ∙ sym victim_parts.1)

  abbrev victim_bytes : List ℕ
  victim_bytes = copy_out (block_in c n way).blk 0 64

  victim_Evicted : (block_in c n way).valid ≡ true → Evicted lower_view LowerGood c n way victim_no
  victim_Evicted h = record {
    cached = victim_Cached h;
    same_set = victim_parts.0;
    other = λ e. u way (rw e at victim_Cached h);
  }

  count_bytes : length victim_bytes ≡ 64
  count_bytes = length-copy_out (block_in c n way).blk 0 64

  do_write :
      (block_in c n way).valid ≡ true
      → (block_in c n way).dirty ≡ true
      → Writes lower_request lower_view LowerGood low (victim_no * 64) victim_bytes
      → WroteBack
  unfolding write_back
  do_write v d w = record {
    after = w.after;
    time = w.reply.time;
    returns = simp (g.config_ok.back, v, d, g.config_ok.block, address) (rw w.returns refl);
    after_good = w.good;
    evicted_kept = λ m k e q.
        ap (λ (i : ℕ). lower_view w.after (i * 64 + k)) (victim_lone m e)
        ∙ w.written k (omega (arith, count_bytes))
        ∙ shown m k e q;
    rest_kept = λ x q e. w.others x q (beside x e) ∙ same x q;
  }
    where
      address : kick_addr c.config (block_in c n way).tag (set_of c n) ≡ victim_no * 64
      address =
          kick_addr_lem g.config_ok (block_in c n way).tag (set_of c n)
            (g.in_range victim_no way (victim_Cached v))

      starts : (k : ℕ) → 0 + k ≡ k
      starts k = omega arith

      shown :
          (m k : ℕ)
          → Evicted lower_view LowerGood c n way m
          → k < 64
          → some (get_or victim_bytes k 0) ≡ some ((block_in c m way).blk k)
      shown m k e q =
          ap (λ (z : ℕ). some z) (get_or-copy_out (block_in c n way).blk 0 64 k q)
          ∙ ap (λ (j : ℕ). some ((block_in c n way).blk j)) (starts k)
          ∙ ap (λ (b : Blk). some (b.blk k)) (sym (same_slot m e))

      beside :
          (x : ℕ)
          → (Evicted lower_view LowerGood c n way (x / 64) → ⊥)
          → (x < victim_no * 64) ⊎ (victim_no * 64 + length victim_bytes ≤ x)
      beside x e =
          let ne : x / 64 ≢ victim_no = λ q. e (rw q (victim_Evicted v)) in
          omega (arith, count_bytes)

  pub write_back-WroteBack : WroteBack
  write_back-WroteBack = elim (Bool-cases (block_in c n way).valid) [
    | inr h ↦ no_write (simp h refl)
    | inl h ↦ elim (Bool-cases (block_in c n way).dirty) [
      | inr d ↦ no_write (simp (h, d) refl)
      | inl d ↦ do_write h d (st.writes low (victim_no * 64) victim_bytes good (fits h) (mapped h))
    ]
  ]
    where
      fits : (block_in c n way).valid ≡ true → Fits (victim_no * 64) (length victim_bytes)
      fits h = record {
        some_bytes = omega (arith, count_bytes);
        is_addr = omega (arith, g.in_range victim_no way (victim_Cached h));
        in_block = omega (arith, count_bytes);
      }

      mapped : (block_in c n way).valid ≡ true → lower_view low (victim_no * 64) ≢ none
      mapped h =
          let small = g.in_range victim_no way (victim_Cached h) in
          let zero_offset : victim_no * 64 + 0 ≡ victim_no * 64 = omega arith in
          rw (same (victim_no * 64) (omega arith))
            (rw zero_offset at (g.backed victim_no way 0 (victim_Cached h) (omega arith)))
