-- ===== src/Cache/Hit.antt =====
-- The answers of a cache to a hit.
use riscv_64i_simulator.Common.{
  ℕ, ◌/◌, ◌%◌, ◌≡◌, refl, false, true, Option, List, [], not, arith, copy_in, copy_out, ok,
  length-copy_out, length,
}
use riscv_64i_simulator.Storage.{Handler}
use riscv_64i_simulator.Storage.Laws.{Fits, Reads, Writes}
use riscv_64i_simulator.Cache.{Cache, Blk, CacheConfig, in_block, on_hit, send_through, answer}
use riscv_64i_simulator.Cache.Geometry.{IsConfig, block_offset_lem, set_index_lem}
use riscv_64i_simulator.Cache.View.{Cached, block_in, IsCoherent, view}
use riscv_64i_simulator.Cache.Fill.{filled, CanFill, filled-IsCoherent}
use riscv_64i_simulator.Cache.Touch.{
  Touched, touch-CanFill, Shows, held-Shows, filled-unchanged, copy_out-Shows, touch-IsCoherent,
  touch-written, touch-others,
}

module _ {L : Type 0} (lower_request : Handler L) (lower_view : L → ℕ → Option ℕ)
    (LowerGood : L → Type 0) where
  abbrev Good : Cache L → Type 0
  Good = IsCoherent lower_view LowerGood

  pub in_block_lem :
      (c : Cache L) (a n : ℕ)
      → IsConfig c.config
      → Fits a n
      → in_block lower_request c.config a n ≡ true
  in_block_lem c a n g f = ground (arith, f.in_block, g.block, block_offset_lem g a)

  pub not_sent :
      (conf : CacheConfig) (low : L) (a : ℕ) (content : List ℕ)
      → conf.write_through ≡ false
      → send_through lower_request conf low a content ≡ ok (low, 0)
  unfolding send_through
  not_sent conf low a content e = rw (e, send_through) refl

  module _ (c : Cache L) (a way : ℕ) (g : Good c) (t : Cached c (a / 64) way) where
    pub hit-Reads :
        (n : ℕ)
        → Fits a n
        → Reads (λ s x q. on_hit lower_request s x way q) (view lower_view) Good c a n
    unfolding on_hit
    hit-Reads n f = record {
      after = filled lower_view LowerGood c (a / 64) way b c.lower;
      reply = answer c true (copy_out b.blk (a % 64) n) 0;
      returns =
          rw
            (
              set_index_lem g.config_ok a,
              in_block_lem c a n g.config_ok f,
              block_offset_lem g.config_ok a,
            )
            refl;
      good = filled-IsCoherent lower_view LowerGood c (a / 64) way b c.lower g can;
      unchanged = filled-unchanged lower_view LowerGood c (a / 64) way b c.lower g can shows;
      count = length-copy_out b.blk (a % 64) n;
      bytes = copy_out-Shows lower_view LowerGood c a n b f shows;
    }
      where
        b : Blk
        b = record (block_in c (a / 64) way) { visited_t = 0 }

        can : CanFill lower_view LowerGood c (a / 64) way b c.lower
        can =
            touch-CanFill lower_view LowerGood c (a / 64) way b g t
              (record { valid = refl; tag = refl; clean = λ d. (d, refl) })

        shows : Shows lower_view LowerGood c (a / 64) b
        shows = held-Shows lower_view LowerGood c (a / 64) way g t

    -- The block after a write.
    abbrev written_block : List ℕ → Blk
    written_block content = record (block_in c (a / 64) way) {
      visited_t = 0;
      blk = copy_in (block_in c (a / 64) way).blk (a % 64) content;
      dirty = not c.config.write_through;
    }

    pub hit-Writes :
        (content : List ℕ)
        → Fits a (length content)
        → Writes (λ s x q. on_hit lower_request s x way q) (view lower_view) Good c a content
    unfolding on_hit
    hit-Writes content f = record {
      after = filled lower_view LowerGood c (a / 64) way b c.lower;
      reply = answer c true [] 0;
      returns =
          rw
            (
              set_index_lem g.config_ok a,
              in_block_lem c a (length content) g.config_ok f,
              block_offset_lem g.config_ok a,
              not_sent c.config c.lower a content g.config_ok.back,
            )
            refl;
      good = touch-IsCoherent lower_view LowerGood c a way content b g t touched f refl;
      written = touch-written lower_view LowerGood c a way content b g t touched f refl;
      others = touch-others lower_view LowerGood c a way content b g t touched f refl;
    }
      where
        b : Blk
        b = written_block content

        touched : Touched lower_view LowerGood (block_in c (a / 64) way) b
        touched = record {
          valid = refl;
          tag = refl;
          clean = λ d. absurd (ground (arith, g.config_ok.back));
        }
