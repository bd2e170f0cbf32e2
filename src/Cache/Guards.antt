-- ===== src/Cache/Guards.antt =====
-- `Cache::HandleRequest` (cache.cpp) answers no request outside the lower level or across a block.
use riscv_64i_simulator.Common.{
  ℕ, ◌+◌, ◌*◌, ◌/◌, ◌%◌, ◌^◌, ◌<◌, ◌≤◌, ◌≡◌, ◌≢◌, Bool, Option, none, some, ok, >>=-eq-ok, arith,
  refl,
}
use riscv_64i_simulator.Storage.{Handler, read, write, Request, Reply, bytes_of}
use riscv_64i_simulator.Storage.Laws.{IsStorage}
use riscv_64i_simulator.Storage.Guards.{IsGuarded, IsBounded}
use riscv_64i_simulator.Cache.{
  Cache, CacheConfig, on_hit, on_miss, send_through, fetch_block, in_block, count_miss, block_addr,
  handle_request,
}
use riscv_64i_simulator.Cache.Geometry.{IsConfig, block_offset_lem, block_addr_lem}
use riscv_64i_simulator.Cache.View.{
  IsCoherent, view, view-Cached, view-Uncached, find_block, find_block-some,
}
use riscv_64i_simulator.Cache.Contents.{started}
use riscv_64i_simulator.Cache.Serves.{
  dispatch, handle_request_lem, started-Good, started_view, missed-Good, missed_view, uncached,
}

module _ {L : Type 0} (lower_request : Handler L) where
  -- An access within the block that its address is in.
  abbrev InBlock : CacheConfig → ℕ → ℕ → Type 0
  InBlock conf a n = in_block lower_request conf a n ≡ Bool.true

  InBlock-le : (conf : CacheConfig) (a n : ℕ) → IsConfig conf → InBlock conf a n → a % 64 + n ≤ 64
  InBlock-le conf a n g h = ground (arith, block_offset_lem g a, g.block)

  on_hit-bounded :
      (c : Cache L) (a way : ℕ) (req : Request) (p : Cache L × Reply)
      → on_hit lower_request c a way req ≡ ok p
      → InBlock c.config a (bytes_of req)
  unfolding on_hit
  on_hit-bounded c a way (read n) p h = ground arith
  on_hit-bounded c a way (write content) p h = ground arith

  on_miss-bounded :
      (c : Cache L) (a : ℕ) (req : Request) (p : Cache L × Reply)
      → IsConfig c.config
      → on_miss lower_request c a req ≡ ok p
      → InBlock c.config a (bytes_of req)
  unfolding on_miss
  on_miss-bounded c a (read n) p g h =
      let (f, d, e) = >>=-eq-ok (fetch_block lower_request c a _ _) _ h in ground (arith, e)
  on_miss-bounded c a (write content) p g h =
      let (f, d, e) = >>=-eq-ok (fetch_block lower_request c a _ _) _ (simp g.allocate at h) in
      let (s, i, j) = >>=-eq-ok (send_through lower_request c.config f.0.lower a content) _ e in
      ground (arith, j)

  on_miss-fetch :
      (c : Cache L) (a : ℕ) (req : Request) (p : Cache L × Reply)
      → IsConfig c.config
      → on_miss lower_request c a req ≡ ok p
      → (q : L × Reply) × (lower_request c.lower (block_addr c.config a) (read c.config.block_size)
          ≡ ok q)
  unfolding on_miss fetch_block
  on_miss-fetch c a (read n) p g h =
      let (f, d, e) = >>=-eq-ok (fetch_block lower_request c a _ _) _ h in
      let (q, i, j) = >>=-eq-ok (lower_request c.lower _ _) _ d in (q, i)
  on_miss-fetch c a (write content) p g h =
      let (f, d, e) = >>=-eq-ok (fetch_block lower_request c a _ _) _ (simp g.allocate at h) in
      let (q, i, j) = >>=-eq-ok (lower_request c.lower _ _) _ d in (q, i)

module _ {L : Type 0} (lower_request : Handler L) (lower_view : L → ℕ → Option ℕ)
    (LowerGood : L → Type 0) (st : IsStorage lower_request lower_view LowerGood)
    (gd : IsGuarded lower_request lower_view LowerGood) where
  abbrev Good : Cache L → Type 0
  Good = IsCoherent lower_view LowerGood

  -- The lower level shows the whole block where it shows its first byte.
  miss-mapped :
      (c : Cache L) (a : ℕ) (q : L × Reply)
      → Good c
      → a < 2 ^ 32
      → lower_request c.lower (block_addr c.config a) (read c.config.block_size) ≡ ok q
      → lower_view c.lower a ≢ none
  miss-mapped c a q g h e = rw same_addr at whole
    where
      first : lower_view c.lower (a / 64 * 64) ≢ none
      first = rw (block_addr_lem g.config_ok a h) at (
          gd c.lower (block_addr c.config a) (read c.config.block_size) q g.lower_good
            (omega (arith, block_addr_lem g.config_ok a h)) (omega (arith, g.config_ok.block)) e)

      whole : lower_view c.lower (a / 64 * 64 / 64 * 64 + a % 64) ≢ none
      whole = st.whole c.lower (a / 64 * 64) (a % 64) g.lower_good (omega arith) (omega arith) first

      same_addr : a / 64 * 64 / 64 * 64 + a % 64 ≡ a
      same_addr = omega arith

  module _ (c : Cache L) (a : ℕ) (req : Request) (p : Cache L × Reply) (g : Good c)
      (h : a < 2 ^ 32) where
    abbrev d : Cache L
    d = started c

    guarded :
        (o : Option ℕ)
        → find_block d (a / 64) ≡ o
        → dispatch lower_request o d a req ≡ ok p
        → view lower_view c a ≢ none
    guarded (some w) e r =
        let shown =
          view-Cached lower_view LowerGood d a w
            (started-Good lower_request lower_view LowerGood st c a g)
            (find_block-some d (a / 64) w e) in
        λ z. cc (shown, z, started_view lower_request lower_view LowerGood st c a g a)
    guarded none e r =
        let good = missed-Good lower_request lower_view LowerGood st c a g in
        let (q, s) = on_miss-fetch lower_request (count_miss d) a req p good.config_ok r in
        let below = miss-mapped (count_miss d) a q good h s in
        let here =
          view-Uncached lower_view (count_miss d) a
            (uncached lower_request lower_view LowerGood st c a g e) in
        let same = missed_view lower_request lower_view LowerGood st c a g a in
        let first = started_view lower_request lower_view LowerGood st c a g a in
        λ z. below (cc (here, same, first, z))

    bounded : (o : Option ℕ) → dispatch lower_request o d a req ≡ ok p → a % 64 + bytes_of req ≤ 64
    bounded (some w) r =
        let good = started-Good lower_request lower_view LowerGood st c a g in
        InBlock-le lower_request d.config a (bytes_of req) good.config_ok
          (on_hit-bounded lower_request d a w req p r)
    bounded none r =
        let good = missed-Good lower_request lower_view LowerGood st c a g in
        InBlock-le lower_request (count_miss d).config a (bytes_of req) good.config_ok
          (on_miss-bounded lower_request (count_miss d) a req p good.config_ok r)

    pub cache-guarded : handle_request lower_request c a req ≡ ok p → view lower_view c a ≢ none
    cache-guarded e =
        guarded (find_block d (a / 64)) refl
          (rw (handle_request_lem lower_request lower_view LowerGood st c a req g.config_ok h) at e)

    pub cache-bounded : handle_request lower_request c a req ≡ ok p → a % 64 + bytes_of req ≤ 64
    cache-bounded e =
        bounded (find_block d (a / 64))
          (rw (handle_request_lem lower_request lower_view LowerGood st c a req g.config_ok h) at e)

  pub cache-IsGuarded : IsGuarded (handle_request lower_request) (view lower_view) Good
  cache-IsGuarded c a req p g h n e = cache-guarded c a req p g h e

  pub cache-IsBounded : IsBounded (handle_request lower_request) (view lower_view) Good
  cache-IsBounded c a req p g h e = cache-bounded c a req p g h e
