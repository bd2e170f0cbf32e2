-- ===== src/Cache/Miss.antt =====
-- The answers of a cache to a miss.
use riscv_64i_simulator.Common.{
  ℕ, ◌+◌, ◌/◌, ◌%◌, ◌^◌, ◌<◌, ◌≡◌, ◌≢◌, refl, ◌∙◌, false, true, Option, none, List, [], Bool, not,
  arith, copy_in, copy_out, length-copy_out, length,
}
use riscv_64i_simulator.Storage.{Handler}
use riscv_64i_simulator.Storage.Laws.{Fits, Reads, Writes, IsStorage}
use riscv_64i_simulator.Cache.{Cache, Blk, on_miss, answer, replace_algorithm}
use riscv_64i_simulator.Cache.Geometry.{block_offset_lem, set_index_lem}
use riscv_64i_simulator.Cache.Replacement.{victim_lem}
use riscv_64i_simulator.Cache.View.{Cached, Uncached, block_in, set_of, IsCoherent, view}
use riscv_64i_simulator.Cache.Fill.{filled, filled-IsCoherent, new-block, new-Cached}
use riscv_64i_simulator.Cache.Touch.{
  Touched, filled-unchanged, copy_out-Shows, touch-IsCoherent, touch-written, touch-others,
}
use riscv_64i_simulator.Cache.Fetch.{Fetched, fetch_block-Fetched, new_contents}
use riscv_64i_simulator.Cache.Hit.{in_block_lem, not_sent}

module _ {L : Type 0} (lower_request : Handler L) (lower_view : L → ℕ → Option ℕ)
    (LowerGood : L → Type 0) (st : IsStorage lower_request lower_view LowerGood) where
  abbrev Good : Cache L → Type 0
  Good = IsCoherent lower_view LowerGood

  module _ (c : Cache L) (a : ℕ) (h : a < 2 ^ 32) (g : Good c) (u : Uncached c (a / 64))
      (mapped : lower_view c.lower a ≢ none) where
    abbrev way : ℕ
    way = replace_algorithm c (set_of c (a / 64))

    is_way : way < c.config.associativity
    unfolding replace_algorithm
    is_way = (victim_lem (c.set (set_of c (a / 64))) c.config.associativity g.config_ok.ways).1

    abbrev FetchedBlock : Bool → Type 0
    FetchedBlock = Fetched lower_request lower_view LowerGood st c a way h g u is_way mapped

    module _ (dirty : Bool) (k : FetchedBlock dirty) where
      abbrev b : Blk
      b =
          new_contents lower_request lower_view LowerGood st c a way h g u is_way mapped k.content
            dirty

      abbrev after_fetch : Cache L
      after_fetch = filled lower_view LowerGood c (a / 64) way b k.low

      after_fetch-Good : Good after_fetch
      after_fetch-Good = filled-IsCoherent lower_view LowerGood c (a / 64) way b k.low g k.can

      slot : block_in after_fetch (a / 64) way ≡ b
      slot = new-block lower_view LowerGood c (a / 64) way b k.low g k.can

      unchanged : (x : ℕ) → x < 2 ^ 32 → view lower_view after_fetch x ≡ view lower_view c x
      unchanged = filled-unchanged lower_view LowerGood c (a / 64) way b k.low g k.can k.shows

      slot-Cached : Cached after_fetch (a / 64) way
      slot-Cached = new-Cached lower_view LowerGood c (a / 64) way b k.low g k.can

    read-Reads :
        (n : ℕ)
        → Fits a n
        → FetchedBlock false
        → Reads (on_miss lower_request) (view lower_view) Good c a n
    unfolding on_miss
    read-Reads n f k = record {
      after = after_fetch false k;
      reply =
          answer c false (copy_out (block_in (after_fetch false k) (a / 64) way).blk (a % 64) n)
            k.time;
      returns =
          rw
            (
              set_index_lem g.config_ok a,
              k.returns,
              in_block_lem lower_request lower_view LowerGood c a n g.config_ok f,
              block_offset_lem g.config_ok a,
            )
            refl;
      good = after_fetch-Good false k;
      unchanged = unchanged false k;
      count = length-copy_out (block_in (after_fetch false k) (a / 64) way).blk (a % 64) n;
      bytes =
          copy_out-Shows lower_view LowerGood c a n (block_in (after_fetch false k) (a / 64) way) f
            (rw (slot false k) k.shows);
    }

    pub miss-Reads : (n : ℕ) → Fits a n → Reads (on_miss lower_request) (view lower_view) Good c a n
    miss-Reads n f = read-Reads n f (
        fetch_block-Fetched lower_request lower_view LowerGood st c a way h g u is_way mapped false)

    write-Writes :
        (content : List ℕ)
        → Fits a (length content)
        → FetchedBlock true
        → Writes (on_miss lower_request) (view lower_view) Good c a content
    unfolding on_miss
    write-Writes content f k = record {
      after = filled lower_view LowerGood d (a / 64) way b' k.low;
      reply = answer c false [] (k.time + 0);
      returns = simp g.config_ok.allocate (
          rw
            (
              set_index_lem g.config_ok a,
              k.returns,
              not_sent lower_request lower_view LowerGood c.config k.low a content g.config_ok.back,
              in_block_lem lower_request lower_view LowerGood c a (length content) g.config_ok f,
              block_offset_lem g.config_ok a,
            )
            refl);
      good = touch-IsCoherent lower_view LowerGood d a way content b' good_d cached touched f refl;
      written = touch-written lower_view LowerGood d a way content b' good_d cached touched f refl;
      others = λ x q o.
          touch-others lower_view LowerGood d a way content b' good_d cached touched f refl x q o
          ∙ unchanged true k x q;
    }
      where
        d : Cache L
        d = after_fetch true k

        good_d : Good d
        good_d = after_fetch-Good true k

        cached : Cached d (a / 64) way
        cached = slot-Cached true k

        b' : Blk
        b' = record (block_in d (a / 64) way) {
          blk = copy_in (block_in d (a / 64) way).blk (a % 64) content;
          dirty = not c.config.write_through;
        }

        touched : Touched lower_view LowerGood (block_in d (a / 64) way) b'
        touched = record {
          valid = refl;
          tag = refl;
          clean = λ e. absurd (ground (arith, g.config_ok.back));
        }

    pub miss-Writes :
        (content : List ℕ)
        → Fits a (length content)
        → Writes (on_miss lower_request) (view lower_view) Good c a content
    miss-Writes content f =
        write-Writes content f (
          fetch_block-Fetched lower_request lower_view LowerGood st c a way h g u is_way mapped
            true)
