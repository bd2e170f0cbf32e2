-- ===== src/Cache/Serves.antt =====
-- `Cache::HandleRequest` (cache.cpp) as a storage level.
use riscv_64i_simulator.Common.{
  ℕ, ◌+◌, ◌*◌, ◌/◌, ◌%◌, ◌^◌, ◌<◌, ◌≡◌, ◌≢◌, inl, inr, refl, ap, ◌∙◌, Option, some, none, List,
  arith, length,
}
use riscv_64i_simulator.Storage.{Handler, read, write, Request}
use riscv_64i_simulator.Storage.Laws.{Fits, Reads, Writes, IsStorage, Reads-via, Writes-via}
use riscv_64i_simulator.Cache.{
  Cache, on_hit, on_miss, replace_decision, tag_of, handle_request, count_miss, count_time,
  count_access, age,
}
use riscv_64i_simulator.Cache.Geometry.{IsConfig, set_index_lem, tag_of_lem}
use riscv_64i_simulator.Cache.View.{
  Uncached, IsCoherent, view, view-Uncached, Cached-cases, find_block, find_block-some,
  find_block-none,
}
use riscv_64i_simulator.Cache.Contents.{
  started, started-SameContents, count_miss-SameContents, SameContents-IsCoherent,
  SameContents-view, Cached-back,
}
use riscv_64i_simulator.Cache.Touch.{held-Shows}
use riscv_64i_simulator.Cache.Hit.{hit-Reads, hit-Writes}
use riscv_64i_simulator.Cache.Miss.{miss-Reads, miss-Writes}

module _ {L : Type 0} (lower_request : Handler L) where
  -- What `HandleRequest` does after its head.
  abbrev pub dispatch : Option ℕ → Handler (Cache L)
  dispatch o = λ s x req. elim o [
    | some way ↦ on_hit lower_request s x way req
    | none ↦ on_miss lower_request (count_miss s) x req
  ]

module _ {L : Type 0} (lower_request : Handler L) (lower_view : L → ℕ → Option ℕ)
    (LowerGood : L → Type 0) (st : IsStorage lower_request lower_view LowerGood) where
  abbrev Good : Cache L → Type 0
  Good = IsCoherent lower_view LowerGood

  pub handle_request_lem :
      (c : Cache L) (a : ℕ) (req : Request)
      → IsConfig c.config
      → a < 2 ^ 32
      → handle_request lower_request c a req
        ≡ dispatch lower_request (find_block (started c) (a / 64)) (started c) a req
  unfolding handle_request find_block count_time age count_access
  handle_request_lem c a req g h =
      ap (λ o. dispatch lower_request o (started c) a req)
        (ap (λ i. replace_decision (started c) i (tag_of c.config a)) (set_index_lem g a)
          ∙ ap (replace_decision (started c) (a / 64 % 2 ^ c.config.set_bits)) (tag_of_lem g a h))

  -- The state in which the blocks are looked up.
  module _ (c : Cache L) (a : ℕ) (g : Good c) where
    abbrev d : Cache L
    d = started c

    pub started-Good : Good d
    started-Good = SameContents-IsCoherent lower_view LowerGood (started-SameContents c) g

    pub started_view : (x : ℕ) → view lower_view d x ≡ view lower_view c x
    started_view = SameContents-view lower_view LowerGood (started-SameContents c) g

    pub missed-Good : Good (count_miss d)
    missed-Good =
        SameContents-IsCoherent lower_view LowerGood (count_miss-SameContents d) started-Good

    pub missed_view : (x : ℕ) → view lower_view (count_miss d) x ≡ view lower_view d x
    missed_view = SameContents-view lower_view LowerGood (count_miss-SameContents d) started-Good

    pub uncached : find_block d (a / 64) ≡ none → Uncached (count_miss d) (a / 64)
    uncached e w t =
        find_block-none d (a / 64) e w (Cached-back (count_miss-SameContents d) (a / 64) w t)

    mapped :
        find_block d (a / 64) ≡ none
        → view lower_view c a ≢ none
        → lower_view (count_miss d).lower a ≢ none
    mapped e p =
        rw (← view-Uncached lower_view (count_miss d) a (uncached e))
          (rw (missed_view a) (rw (started_view a) p))

    dispatch-Reads :
        (n : ℕ)
        → Fits a n
        → view lower_view c a ≢ none
        → (o : Option ℕ) → find_block d (a / 64) ≡ o
        → Reads (dispatch lower_request o) (view lower_view) Good d a n
    dispatch-Reads n f p none e = Reads-via missed_view refl (
        miss-Reads lower_request lower_view LowerGood st (count_miss d) a f.is_addr missed-Good
          (uncached e) (mapped e p) n f)
    dispatch-Reads n f p (some w) e =
        Reads-via (λ x. refl) refl
          (hit-Reads lower_request lower_view LowerGood d a w started-Good
            (find_block-some d (a / 64) w e) n f)

    dispatch-Writes :
        (content : List ℕ)
        → Fits a (length content)
        → view lower_view c a ≢ none
        → (o : Option ℕ) → find_block d (a / 64) ≡ o
        → Writes (dispatch lower_request o) (view lower_view) Good d a content
    dispatch-Writes content f p none e = Writes-via missed_view refl (
        miss-Writes lower_request lower_view LowerGood st (count_miss d) a f.is_addr missed-Good
          (uncached e) (mapped e p) content f)
    dispatch-Writes content f p (some w) e =
        Writes-via (λ x. refl) refl
          (hit-Writes lower_request lower_view LowerGood d a w started-Good
            (find_block-some d (a / 64) w e) content f)

  view-whole :
      (c : Cache L) (b k : ℕ)
      → Good c
      → b < 2 ^ 32
      → k < 64
      → view lower_view c b ≢ none
      → view lower_view c (b / 64 * 64 + k) ≢ none
  view-whole c b k g h q p = elim (Cached-cases c (b / 64)) [
    | inl t ↦ λ e. absurd (cc (held-Shows lower_view LowerGood c (b / 64) t.0 g t.1 k q, e))
    | inr u ↦
        rw (view-Uncached lower_view c (b / 64 * 64 + k) (rw block_no u))
          (st.whole c.lower b k g.lower_good h q (rw (view-Uncached lower_view c b u) at p))
  ]
    where
      block_no : (b / 64 * 64 + k) / 64 ≡ b / 64
      block_no = omega arith

  -- Over any lower level that keeps the promises of a storage level, `Cache::HandleRequest` keeps
  -- them too for a coherent cache: a read or write within a block of 64 bytes that is mapped is
  -- answered, on a hit and on a miss alike, a read gives the bytes that the cache shows and changes
  -- none of them, a write changes just the bytes written, evicted dirty blocks are not lost, and
  -- the cache stays coherent with the lower level.
  pub cache-IsStorage : IsStorage (handle_request lower_request) (view lower_view) Good
  cache-IsStorage = record {
    whole = view-whole;
    reads = λ c a n g f p.
        Reads-via (started_view c a g) (handle_request_lem c a (read n) g.config_ok f.is_addr)
          (dispatch-Reads c a g n f p (find_block (started c) (a / 64)) refl);
    writes = λ c a xs g f p.
        Writes-via (started_view c a g) (handle_request_lem c a (write xs) g.config_ok f.is_addr)
          (dispatch-Writes c a g xs f p (find_block (started c) (a / 64)) refl);
  }
