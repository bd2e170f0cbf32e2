-- ===== src/Cache/Revisit.antt =====
-- What `HandleRequest` (cache.cpp) finds of a block that it has just been asked for.
use riscv_64i_simulator.Common.{
  ℕ, ◌/◌, ◌^◌, ◌<◌, ◌≡◌, Bool, true, false, Option, none, some, ok, >>=-eq-ok, arith, refl, ◌∙◌,
}
use riscv_64i_simulator.Storage.{Handler, read, write, Request, Reply}
use riscv_64i_simulator.Cache.{
  Cache, on_hit, on_miss, send_through, fetch_block, write_back, count_miss, count_time,
  count_access, age, access_cost, set_index, tag_of, replace_algorithm, replace_decision,
  handle_request,
}
use riscv_64i_simulator.Cache.Geometry.{IsConfig, set_index_lem, tag_of_lem}
use riscv_64i_simulator.Cache.Replacement.{HasTag, find_way-some, find_way-none, victim_lem}
use riscv_64i_simulator.Cache.Contents.{started}

module _ {L : Type 0} where
  -- Some way of a set holds a tag.
  record Holds (c : Cache L) (index tag : ℕ) : Type 0 where
    way : ℕ
    below : way < c.config.associativity
    held : HasTag (c.set index) tag way

  Holds-finds :
      (c : Cache L) (index tag : ℕ)
      → Holds c index tag
      → (w : ℕ) × (replace_decision c index tag ≡ some w)
  unfolding replace_decision
  Holds-finds c index tag h = found (replace_decision c index tag) refl
    where
      found :
          (o : Option ℕ)
          → replace_decision c index tag ≡ o
          → (w : ℕ) × (replace_decision c index tag ≡ some w)
      found (some w) e = (w, e)
      found none e = absurd (
          find_way-none (c.set index) tag 0 c.config.associativity h.way e (omega arith)
            (omega (arith, h.below)) h.held)

  finds-Holds :
      (c : Cache L) (index tag w : ℕ) → replace_decision c index tag ≡ some w → Holds c index tag
  unfolding replace_decision
  finds-Holds c index tag w e =
      let (p, q, t) = find_way-some (c.set index) tag 0 c.config.associativity w e in
      record { way = w; below = omega arith; held = t }

  -- The same ways hold the same tags.
  record SameTags (c d : Cache L) : Type 0 where
    config : d.config ≡ c.config
    latency : d.latency ≡ c.latency
    tag : (i j : ℕ) → (d.set i j).tag ≡ (c.set i j).tag
    valid : (i j : ℕ) → (d.set i j).valid ≡ (c.set i j).valid

  SameTags-Holds :
      (c d : Cache L) (index tag : ℕ) → SameTags c d → Holds c index tag → Holds d index tag
  SameTags-Holds c d index tag s h = record {
    way = h.way;
    below = rw s.config h.below;
    held = record {
      is_valid = s.valid index h.way ∙ h.held.is_valid;
      same_tag = s.tag index h.way ∙ h.held.same_tag;
    };
  }

  started-SameTags : (c : Cache L) → SameTags c (started c)
  unfolding count_time age count_access
  started-SameTags c = record {
    config = refl;
    latency = refl;
    tag = λ i j. ground arith;
    valid = λ i j. ground arith;
  }

module _ {L : Type 0} (lower_request : Handler L) where
  -- A hit changes no tag.
  on_hit-SameTags :
      (c : Cache L) (a way : ℕ) (req : Request) (p : Cache L × Reply)
      → on_hit lower_request c a way req ≡ ok p
      → SameTags c p.0
  unfolding on_hit
  on_hit-SameTags c a way (read n) p e = record {
    config = ground arith;
    latency = ground arith;
    tag = λ i j. ground arith;
    valid = λ i j. ground arith;
  }
  on_hit-SameTags c a way (write content) p e = record {
    config = ground arith;
    latency = ground arith;
    tag = λ i j. ground arith;
    valid = λ i j. ground arith;
  }

  -- The block that a cache is asked for is there afterwards.
  record Has (c : Cache L) (a : ℕ) (d : Cache L) : Type 0 where
    block : Holds d (set_index c.config a) (tag_of c.config a)
    config : d.config ≡ c.config
    latency : d.latency ≡ c.latency

  fetch_block-Has :
      (c : Cache L) (a way : ℕ) (dirty : Bool) (p : Cache L × ℕ)
      → way < c.config.associativity
      → fetch_block lower_request c a way dirty ≡ ok p
      → Has c a p.0
  unfolding fetch_block
  fetch_block-Has c a way dirty p w h =
      let (q, i, j) = >>=-eq-ok (lower_request c.lower _ _) _ h in
      let (r, k, l) = >>=-eq-ok (write_back lower_request c.config q.0 _ _) _ j in
      record {
        block = record { way = way; below = ground (arith, l); held = ground (arith, l) };
        config = ground (arith, l);
        latency = ground (arith, l);
      }

  replace_algorithm-lt :
      (c : Cache L) (index : ℕ)
      → IsConfig c.config
      → replace_algorithm c index < c.config.associativity
  unfolding replace_algorithm
  replace_algorithm-lt c index g = (victim_lem (c.set index) c.config.associativity g.ways).1

  on_miss-Has :
      (c : Cache L) (a : ℕ) (req : Request) (p : Cache L × Reply)
      → IsConfig c.config
      → on_miss lower_request c a req ≡ ok p
      → Has c a p.0
  unfolding on_miss
  on_miss-Has c a (read n) p g h =
      let (f, d, e) = >>=-eq-ok (fetch_block lower_request c a _ _) _ h in
      let k =
        fetch_block-Has c a (replace_algorithm c (set_index c.config a)) false f
          (replace_algorithm-lt c (set_index c.config a) g) d in
      let same : p.0 ≡ f.0 = ground (arith, e) in rw same k
  on_miss-Has c a (write content) p g h =
      let (f, d, e) = >>=-eq-ok (fetch_block lower_request c a _ _) _ (simp g.allocate at h) in
      let (s, i, j) = >>=-eq-ok (send_through lower_request c.config f.0.lower a content) _ e in
      let k =
        fetch_block-Has c a (replace_algorithm c (set_index c.config a)) true f
          (replace_algorithm-lt c (set_index c.config a) g) d in
      let t : SameTags f.0 p.0 = record {
        config = ground (arith, j);
        latency = ground (arith, j);
        tag = λ x y. ground (arith, j);
        valid = λ x y. ground (arith, j);
      } in
      record {
        block = SameTags-Holds f.0 p.0 _ _ t k.block;
        config = t.config ∙ k.config;
        latency = t.latency ∙ k.latency;
      }

  handle_request-Has :
      (c : Cache L) (a : ℕ) (req : Request) (p : Cache L × Reply)
      → IsConfig c.config
      → handle_request lower_request c a req ≡ ok p
      → Has c a p.0
  unfolding handle_request count_time age count_access count_miss
  handle_request-Has c a req p g h =
      decided (replace_decision (started c) (set_index c.config a) (tag_of c.config a)) refl h
    where
      decided :
          (o : Option ℕ)
          → replace_decision (started c) (set_index c.config a) (tag_of c.config a) ≡ o
          → (elim o [
            | some way ↦ on_hit lower_request (started c) a way req
            | none ↦ on_miss lower_request (count_miss (started c)) a req
          ])
            ≡ ok p
          → Has c a p.0
      decided (some w) e r =
          let t = on_hit-SameTags (started c) a w req p r in
          record {
            block = SameTags-Holds (started c) p.0 _ _ t (finds-Holds (started c) _ _ w e);
            config = t.config;
            latency = t.latency;
          }
      decided none e r =
          let k = on_miss-Has (count_miss (started c)) a req p g r in
          record { block = k.block; config = k.config; latency = k.latency }

  -- A request that hits asks the level below for nothing.
  record Quick (c : Cache L) (q : Cache L × Reply) : Type 0 where
    hits : q.1.hit ≡ true
    time : q.1.time ≡ access_cost c
    lower : q.0.lower ≡ c.lower

  on_hit-Quick :
      (c : Cache L) (a way : ℕ) (req : Request) (q : Cache L × Reply)
      → c.config.write_through ≡ false
      → on_hit lower_request c a way req ≡ ok q
      → Quick c q
  unfolding on_hit send_through
  on_hit-Quick c a way (read n) q b h = ground arith
  on_hit-Quick c a way (write content) q b h = ground arith

  -- Where a way holds the block, a request for it hits.
  handle_request-Quick :
      (c : Cache L) (a : ℕ) (req : Request) (q : Cache L × Reply)
      → c.config.write_through ≡ false
      → Holds c (set_index c.config a) (tag_of c.config a)
      → handle_request lower_request c a req ≡ ok q
      → Quick c q
  unfolding handle_request count_time age count_access
  handle_request-Quick c a req q b k h =
      let (w, e) =
        Holds-finds (started c) _ _ (SameTags-Holds c (started c) _ _ (started-SameTags c) k) in
      decided w (replace_decision (started c) (set_index c.config a) (tag_of c.config a)) e h
    where
      decided :
          (w : ℕ) (o : Option ℕ)
          → o ≡ some w
          → (elim o [
            | some way ↦ on_hit lower_request (started c) a way req
            | none ↦ on_miss lower_request (count_miss (started c)) a req
          ])
            ≡ ok q
          → Quick c q
      decided w (some v) e r =
          let x = on_hit-Quick (started c) a v req q b r in
          record { hits = x.hits; time = x.time; lower = x.lower }
      decided w none e r = cc

  -- With blocks of 64 bytes that are written back and allocated on a write: once a request has been
  -- answered, the next one is a hit if it is for the same block; it takes the time of this level
  -- alone, and the level below is left as it was.
  pub handle_request-revisit :
      (c : Cache L) (a b : ℕ) (req req' : Request) (p q : Cache L × Reply)
      → IsConfig c.config
      → a < 2 ^ 32
      → b < 2 ^ 32
      → a / 64 ≡ b / 64
      → handle_request lower_request c a req ≡ ok p
      → handle_request lower_request p.0 b req' ≡ ok q
      → (q.1.hit ≡ true) × (q.1.time ≡ access_cost c) × (q.0.lower ≡ p.0.lower)
  handle_request-revisit c a b req req' p q g x y e h i =
      let k = handle_request-Has c a req p g h in
      let index : set_index p.0.config b ≡ set_index c.config a =
        rw (k.config, set_index_lem g b, set_index_lem g a, e) refl in
      let tag : tag_of p.0.config b ≡ tag_of c.config a =
        rw (k.config, tag_of_lem g b y, tag_of_lem g a x, e) refl in
      let r = handle_request-Quick p.0 b req' q (rw k.config g.back) (rw (index, tag) k.block) i in
      (r.hits, rw k.latency at r.time, r.lower)
