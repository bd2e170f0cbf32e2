-- ===== src/Cache/Counts.antt =====
-- What `Cache::HandleRequest` (cache.cpp) counts of a request that it answers.
use riscv_64i_simulator.Common.{
  ℕ, ◌+◌, ◌≤◌, ◌≡◌, Bool, true, false, Option, none, some, ok, >>=-eq-ok, Bool-cases, inl, inr,
  arith, if◌then◌else◌,
}
use riscv_64i_simulator.Storage.{Handler, read, write, Request, Reply}
use riscv_64i_simulator.Cache.{
  Cache, on_hit, on_miss, send_through, fetch_block, write_back, count_miss, count_time,
  count_access, age, access_cost, set_index, tag_of, replace_decision, handle_request,
}

-- One access more, and one miss more unless the request hit; the time of this level is counted,
-- and the answer takes at least so long.
pub record IsCounted {L : Type 0} (c : Cache L) (p : Cache L × Reply) : Type 0 where
  pub accesses : p.0.stats.access_counter ≡ c.stats.access_counter + 1
  pub misses : p.0.stats.miss_num ≡ c.stats.miss_num + (if p.1.hit then 0 else 1)
  pub times : p.0.stats.access_time ≡ c.stats.access_time + access_cost c
  pub takes : access_cost c ≤ p.1.time
  pub latency : p.0.latency ≡ c.latency

module _ {L : Type 0} (lower_request : Handler L) where
  -- A branch of `HandleRequest` keeps the figures, and says whether it is the one for a hit.
  record Leaves (hit : Bool) (c : Cache L) (p : Cache L × Reply) : Type 0 where
    stats : p.0.stats ≡ c.stats
    latency : p.0.latency ≡ c.latency
    says : p.1.hit ≡ hit
    takes : access_cost c ≤ p.1.time

  on_hit-Leaves :
      (c : Cache L) (a way : ℕ) (req : Request) (p : Cache L × Reply)
      → on_hit lower_request c a way req ≡ ok p
      → Leaves true c p
  unfolding on_hit
  on_hit-Leaves c a way (read n) p h = ground arith
  on_hit-Leaves c a way (write content) p h = ground arith

  fetch_block-frame :
      (c : Cache L) (a way : ℕ) (dirty : Bool) (p : Cache L × ℕ)
      → fetch_block lower_request c a way dirty ≡ ok p
      → (p.0.stats ≡ c.stats) × (p.0.latency ≡ c.latency)
  unfolding fetch_block
  fetch_block-frame c a way dirty p h =
      let (q, i, j) = >>=-eq-ok (lower_request c.lower _ _) _ h in
      let (r, k, l) = >>=-eq-ok (write_back lower_request c.config q.0 _ _) _ j in ground (arith, l)

  on_miss-Leaves :
      (c : Cache L) (a : ℕ) (req : Request) (p : Cache L × Reply)
      → on_miss lower_request c a req ≡ ok p
      → Leaves false c p
  unfolding on_miss
  on_miss-Leaves c a (read n) p h =
      let (f, d, e) = >>=-eq-ok (fetch_block lower_request c a _ _) _ h in
      ground (arith, e, fetch_block-frame c a _ _ f d)
  on_miss-Leaves c a (write content) p h = elim (Bool-cases c.config.write_allocate) [
    | inl w ↦
        let (f, d, e) = >>=-eq-ok (fetch_block lower_request c a _ _) _ (simp w at h) in
        let (s, i, j) = >>=-eq-ok (send_through lower_request c.config f.0.lower a content) _ e in
        ground (arith, j, fetch_block-frame c a _ _ f d)
    | inr w ↦
        let (q, i, j) = >>=-eq-ok (lower_request c.lower _ _) _ (simp w at h) in ground (arith, j)
  ]

  -- The cache once the request is counted and the blocks have aged.
  abbrev begun : Cache L → Cache L
  begun c = count_time (age (count_access c))

  -- Whatever the configuration and the level below: a request that `Cache::HandleRequest` answers
  -- counts one access, one miss unless the answer says that it hit, and the time of this level; the
  -- answer takes at least so long, and the latencies stay as they are.
  pub handle_request-IsCounted :
      (c : Cache L) (a : ℕ) (req : Request) (p : Cache L × Reply)
      → handle_request lower_request c a req ≡ ok p
      → IsCounted c p
  unfolding handle_request count_miss count_time count_access age
  handle_request-IsCounted c a req p h =
      decided (replace_decision (begun c) (set_index c.config a) (tag_of c.config a)) h
    where
      decided :
          (o : Option ℕ)
          → (elim o [
            | some way ↦ on_hit lower_request (begun c) a way req
            | none ↦ on_miss lower_request (count_miss (begun c)) a req
          ])
            ≡ ok p
          → IsCounted c p
      decided (some way) e = ground (arith, on_hit-Leaves (begun c) a way req p e)
      decided none e = ground (arith, on_miss-Leaves (count_miss (begun c)) a req p e)
