-- ===== src/Cache/Fetch.antt =====
-- The fetch of a block on a miss, with the eviction that makes room for it.
use riscv_64i_simulator.Common.{
  ℕ, ◌+◌, ◌*◌, ◌/◌, ◌^◌, ◌<◌, ◌≡◌, ◌≢◌, refl, sym, ap, ◌∙◌, true, Option, some, none, List, Bool,
  arith, copy_in, ok, copy_in-inside,
}
use riscv_64i_simulator.Storage.{Handler, read}
use riscv_64i_simulator.Storage.Laws.{Fits, Reads, IsStorage}
use riscv_64i_simulator.Cache.{Cache, Blk, fetch_block, block_addr}
use riscv_64i_simulator.Cache.Geometry.{block_addr_lem, set_index_lem, tag_of_lem}
use riscv_64i_simulator.Cache.View.{Uncached, block_in, tag_no, IsCoherent, view-Uncached}
use riscv_64i_simulator.Cache.Fill.{filled, CanFill}
use riscv_64i_simulator.Cache.Touch.{Shows}
use riscv_64i_simulator.Cache.WriteBack.{WroteBack, write_back-WroteBack}

module _ {L : Type 0} (lower_request : Handler L) (lower_view : L → ℕ → Option ℕ)
    (LowerGood : L → Type 0) (st : IsStorage lower_request lower_view LowerGood) (c : Cache L)
    (a way : ℕ) (h : a < 2 ^ 32) (g : IsCoherent lower_view LowerGood c) (u : Uncached c (a / 64))
    (is_way : way < c.config.associativity) (mapped : lower_view c.lower a ≢ none) where
  -- The block that a fetch puts in place.
  abbrev pub new_contents : List ℕ → Bool → Blk
  new_contents content dirty = record {
    blk = copy_in (block_in c (a / 64) way).blk 0 content;
    tag = tag_no c (a / 64);
    dirty = dirty;
    valid = true;
    visited_t = 0;
  }

  -- The fetch succeeds, and puts the bytes of block `a / 64` in place.
  pub record Fetched (dirty : Bool) : Type 0 where
    pub content : List ℕ
    pub low : L
    pub time : ℕ
    pub returns :
        fetch_block lower_request c a way dirty
        ≡ ok (filled lower_view LowerGood c (a / 64) way (new_contents content dirty) low, time)
    pub can : CanFill lower_view LowerGood c (a / 64) way (new_contents content dirty) low
    pub shows : Shows lower_view LowerGood c (a / 64) (new_contents content dirty)

  block_read : Reads lower_request lower_view LowerGood c.lower (a / 64 * 64) 64
  block_read = st.reads c.lower (a / 64 * 64) 64 g.lower_good fits there
    where
      fits : Fits (a / 64 * 64) 64
      fits = record { some_bytes = omega arith; is_addr = omega arith; in_block = omega arith }

      there : lower_view c.lower (a / 64 * 64) ≢ none
      there =
          let zero_offset : a / 64 * 64 + 0 ≡ a / 64 * 64 = omega arith in
          rw zero_offset at (st.whole c.lower a 0 g.lower_good h (omega arith) mapped)

  module _ (r : Reads lower_request lower_view LowerGood c.lower (a / 64 * 64) 64) (dirty : Bool)
      (k : WroteBack lower_request lower_view LowerGood st c
        (a / 64)
        way
        g
        u
        is_way
        r.after
        r.unchanged
        r.good) where
    abbrev b : Blk
    b = new_contents r.reply.content dirty

    -- The bytes of the new block are those of the lower level.
    from_lower : (j : ℕ) → j < 64 → lower_view c.lower (a / 64 * 64 + j) ≡ some (b.blk j)
    from_lower j q =
        r.bytes j q
        ∙ ap (λ (z : ℕ). some z)
            (sym (
              copy_in-inside (block_in c (a / 64) way).blk 0 r.reply.content j
                (omega (arith, r.count))))
        ∙ ap (λ (i : ℕ). some (b.blk i)) starts
      where
        starts : 0 + j ≡ j
        starts = omega arith

    still : (j : ℕ) → j < 64 → lower_view k.after (a / 64 * 64 + j) ≡ some (b.blk j)
    still j q =
        k.rest_kept (a / 64 * 64 + j) (omega arith) (λ e. e.other (omega arith)) ∙ from_lower j q

    fetched-CanFill : CanFill lower_view LowerGood c (a / 64) way b k.after
    fetched-CanFill = record {
      is_block = omega arith;
      is_way = is_way;
      b_valid = refl;
      b_tag = refl;
      only_way = λ w t. absurd (u w t);
      evicted_kept = k.evicted_kept;
      rest_kept = k.rest_kept;
      b_backed = λ j q. rw (still j q) (λ e. cc);
      b_clean = λ j d q. still j q;
      low_good = k.after_good;
    }

    fetched-Shows : Shows lower_view LowerGood c (a / 64) b
    fetched-Shows j q =
        view-Uncached lower_view c (a / 64 * 64 + j) (rw block_no u) ∙ from_lower j q
      where
        block_no : (a / 64 * 64 + j) / 64 ≡ a / 64
        block_no = omega arith

    done : Fetched dirty
    unfolding fetch_block
    done = record {
      content = r.reply.content;
      low = k.after;
      time = r.reply.time + k.time;
      returns =
          rw (set_index_lem g.config_ok a, tag_of_lem g.config_ok a h, asked) (rw k.returns refl);
      can = fetched-CanFill;
      shows = fetched-Shows;
    }
      where
        asked :
            lower_request c.lower (block_addr c.config a) (read c.config.block_size)
            ≡ ok (r.after, r.reply)
        asked =
            ap (λ (x : ℕ). lower_request c.lower x (read c.config.block_size))
              (block_addr_lem g.config_ok a h)
            ∙ ap (λ (x : ℕ). lower_request c.lower (a / 64 * 64) (read x)) g.config_ok.block
            ∙ r.returns

  pub fetch_block-Fetched : (dirty : Bool) → Fetched dirty
  fetch_block-Fetched dirty =
      let r = block_read in
      done r dirty (
        write_back-WroteBack lower_request lower_view LowerGood st c (a / 64) way g u is_way r.after
          r.unchanged r.good)
