-- ===== src/Cache/Time.antt =====
-- How long `Cache::HandleRequest` (cache.cpp) takes.
use riscv_64i_simulator.Common.{
  ℕ, ◌+◌, ◌*◌, ◌≤◌, ◌≡◌, Bool, true, false, Option, none, some, ok, >>=-eq-ok, Bool-cases, inl, inr,
  arith, List, refl, length, ◌>>=◌, ◌&&◌,
}
use riscv_64i_simulator.Storage.{Handler, read, write, Request, Reply}
use riscv_64i_simulator.Storage.Time.{IsTimely}
use riscv_64i_simulator.Cache.{
  Cache, CacheConfig, Blk, on_hit, on_miss, send_through, fetch_block, write_back, count_miss,
  count_time, count_access, age, access_cost, in_block, set_index, tag_of, replace_decision,
  handle_request,
}
use riscv_64i_simulator.Cache.Contents.{started}

-- A miss asks the level below at most twice: for the block, and to take the victim or, in a cache
-- that writes through, what is written.
abbrev pub cache_time : {L : Type 0} → (L → ℕ) → Cache L → ℕ
cache_time lower_time c = access_cost c + 2 * lower_time c.lower

module _ {L : Type 0} (lower_request : Handler L) (lower_time : L → ℕ)
    (tm : IsTimely lower_request lower_time) where
  -- What a call of the level below may take, and that it keeps its bound.
  record Took (low : L) (p : L × ℕ) : Type 0 where
    within : p.1 ≤ lower_time low
    kept : lower_time p.0 ≡ lower_time low

  asked :
      (low : L) (a : ℕ) (req : Request) (p : L × ℕ)
      → (lower_request low a req >>= λ below. ok (below.0, below.1.time)) ≡ ok p
      → Took low p
  asked low a req p h =
      let (q, i, j) = >>=-eq-ok (lower_request low a req) _ h in
      ground (arith, j, tm.within low a req q i, tm.kept low a req q i)

  send_through-time :
      (conf : CacheConfig) (low : L) (a : ℕ) (content : List ℕ) (p : L × ℕ)
      → send_through lower_request conf low a content ≡ ok p
      → Took low p × (conf.write_through ≡ false → p.1 ≡ 0)
  unfolding send_through
  send_through-time conf low a content p h = chosen (conf.write_through) refl h
    where
      chosen :
          (b : Bool)
          → conf.write_through ≡ b
          → (elim b [
            | true ↦ lower_request low a (write content) >>= λ below. ok (below.0, below.1.time)
            | false ↦ ok (low, 0)
          ])
            ≡ ok p
          → Took low p × (conf.write_through ≡ false → p.1 ≡ 0)
      chosen true e k = ground (arith, e, asked low a (write content) p k)
      chosen false e k = ground (arith, e, k)

  write_back-time :
      (conf : CacheConfig) (low : L) (index : ℕ) (victim : Blk) (p : L × ℕ)
      → write_back lower_request conf low index victim ≡ ok p
      → Took low p × (conf.write_through ≡ true → p.1 ≡ 0)
  unfolding write_back
  write_back-time conf low index victim p h = elim (Bool-cases conf.write_through) [
    | inl e ↦ ground (arith, e, h)
    | inr e ↦ elim (Bool-cases (victim.valid && victim.dirty)) [
      | inl d ↦ ground (arith, e, asked low _ _ p (simp (e, d) at h))
      | inr d ↦ ground (arith, e, d, h)
    ]
  ]

  fetch_block-time :
      (c : Cache L) (a way : ℕ) (dirty : Bool) (p : Cache L × ℕ)
      → fetch_block lower_request c a way dirty ≡ ok p
      → (p.1 ≤ 2 * lower_time c.lower)
        × (lower_time p.0.lower ≡ lower_time c.lower)
        × (p.0.latency ≡ c.latency)
        × (c.config.write_through ≡ true → p.1 ≤ lower_time c.lower)
  unfolding fetch_block
  fetch_block-time c a way dirty p h =
      let (q, i, j) = >>=-eq-ok (lower_request c.lower _ _) _ h in
      let (r, k, l) = >>=-eq-ok (write_back lower_request c.config q.0 _ _) _ j in
      ground (
        arith,
        l,
        write_back-time c.config q.0 _ _ r k,
        tm.within c.lower _ _ q i,
        tm.kept c.lower _ _ q i,
      )

  -- What a branch of `HandleRequest` may take, and that it keeps the bound.
  record InTime (c : Cache L) (p : Cache L × Reply) : Type 0 where
    within : p.1.time ≤ access_cost c + 2 * lower_time c.lower
    lower : lower_time p.0.lower ≡ lower_time c.lower
    latency : p.0.latency ≡ c.latency

  on_hit-InTime :
      (c : Cache L) (a way : ℕ) (req : Request) (p : Cache L × Reply)
      → on_hit lower_request c a way req ≡ ok p
      → InTime c p
  unfolding on_hit
  on_hit-InTime c a way (read n) p h = ground arith
  on_hit-InTime c a way (write content) p h =
      elim (Bool-cases (in_block lower_request c.config a (length content))) [
        | inl b ↦
            let (s, i, j) =
              >>=-eq-ok (send_through lower_request c.config c.lower a content) _ (simp b at h) in
            ground (arith, j, send_through-time c.config c.lower a content s i)
        | inr b ↦ ground (arith, b, h)
      ]

  on_miss-InTime :
      (c : Cache L) (a : ℕ) (req : Request) (p : Cache L × Reply)
      → on_miss lower_request c a req ≡ ok p
      → InTime c p
  unfolding on_miss
  on_miss-InTime c a (read n) p h =
      let (f, d, e) = >>=-eq-ok (fetch_block lower_request c a _ _) _ h in
      ground (arith, e, fetch_block-time c a _ _ f d)
  on_miss-InTime c a (write content) p h = elim (Bool-cases c.config.write_allocate) [
    | inl w ↦
        let (f, d, e) = >>=-eq-ok (fetch_block lower_request c a _ _) _ (simp w at h) in
        let (s, i, j) = >>=-eq-ok (send_through lower_request c.config f.0.lower a content) _ e in
        elim (Bool-cases c.config.write_through) [
          | inl t ↦ ground (
            arith,
            t,
            j,
            fetch_block-time c a _ _ f d,
            send_through-time c.config f.0.lower a content s i,
          )
          | inr t ↦ ground (
            arith,
            t,
            j,
            fetch_block-time c a _ _ f d,
            send_through-time c.config f.0.lower a content s i,
          )
        ]
    | inr w ↦
        let (q, i, j) = >>=-eq-ok (lower_request c.lower _ _) _ (simp w at h) in
        ground (arith, j, tm.within c.lower _ _ q i, tm.kept c.lower _ _ q i)
  ]

  handle_request-InTime :
      (c : Cache L) (a : ℕ) (req : Request) (p : Cache L × Reply)
      → handle_request lower_request c a req ≡ ok p
      → InTime c p
  unfolding handle_request count_miss count_time count_access age
  handle_request-InTime c a req p h =
      decided (replace_decision (started c) (set_index c.config a) (tag_of c.config a)) h
    where
      decided :
          (o : Option ℕ)
          → (elim o [
            | some way ↦ on_hit lower_request (started c) a way req
            | none ↦ on_miss lower_request (count_miss (started c)) a req
          ])
            ≡ ok p
          → InTime c p
      decided (some way) e = ground (arith, on_hit-InTime (started c) a way req p e)
      decided none e = ground (arith, on_miss-InTime (count_miss (started c)) a req p e)

  pub handle_request-IsTimely : IsTimely (handle_request lower_request) (cache_time lower_time)
  handle_request-IsTimely = record {
    within = λ c a req p h. (handle_request-InTime c a req p h).within;
    kept = λ c a req p h. let x = handle_request-InTime c a req p h in ground (arith, x);
  }
