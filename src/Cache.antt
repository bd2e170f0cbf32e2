-- ===== src/Cache.antt =====
-- cache.h and cache.cpp: the class `Cache`, a set-associative cache over a lower level. It is
-- modelled over any lower level `L` with its `HandleRequest`.
pub mod Geometry
pub mod Replacement
pub mod View
pub mod Fill
pub mod Contents
pub mod Touch
pub mod WriteBack
pub mod Fetch
pub mod Hit
pub mod Miss
pub mod Serves
pub mod Guards
pub mod Config
pub mod Counts
pub mod Revisit
pub mod Time
use riscv_64i_simulator.Common.{
  ℕ, zero, suc, ◌+◌, ◌-◌, ◌*◌, ◌/◌, ◌%◌, ◌^◌, Bool, true, false, not, ◌&&◌, Option, none, some,
  List, [], Result, ok, halt, undefined, ◌>>=◌, bit_and, ◌>>>◌, u32, shl32, ltb, leb, ◌==◌,
  if◌then◌else◌, update, copy_in, copy_out, length,
}
use riscv_64i_simulator.Storage.{
  StorageStats, StorageLatency, Request, read, write, bytes_of, Reply, Handler,
}

pub record CacheConfig : Type 0 where
  pub size : ℕ
  pub associativity : ℕ
  pub set_num : ℕ
  pub write_through : Bool
  pub write_allocate : Bool
  pub block_size : ℕ
  pub off_bits : ℕ
  pub tag_bits : ℕ
  pub set_bits : ℕ

-- `BLK`, one block of a set.
pub record Blk : Type 0 where
  pub blk : ℕ → ℕ
  pub tag : ℕ
  pub dirty : Bool
  pub valid : Bool
  pub visited_t : ℕ

-- The constructor `BLK()`; the bytes that `new char[]` finds are whatever they are.
abbrev pub new_blk : (ℕ → ℕ) → Blk
new_blk garbage = record { blk = garbage; tag = 0; dirty = false; valid = false; visited_t = 0 }

-- `set[i].Block[j]` is the block in way `j` of set `i`.
pub record Cache (L : Type 0) : Type 0 where
  pub set : ℕ → ℕ → Blk
  pub config : CacheConfig
  pub lower : L
  pub stats : StorageStats
  pub latency : StorageLatency

-- `ceil(log2(n))`: the least `k` from `k` on with `n ≤ 2 ^ k`. Fuel `n` is enough from `k = 0`.
unfoldable pub ceil_log2_from : ℕ → ℕ → ℕ → ℕ
ceil_log2_from zero k n = k
ceil_log2_from (suc fuel) k n =
    let r = ceil_log2_from fuel (k + 1) n in if leb n (2 ^ k) then k else r

unfoldable pub ceil_log2 : ℕ → ℕ
ceil_log2 n = ceil_log2_from n 0 n

-- The masks `~(uint32_t(-1) << bits)`.
unfoldable pub low_mask : ℕ → ℕ
low_mask bits = 2 ^ 32 - 1 - shl32 (2 ^ 32 - 1) bits

-- How `HandleRequest` takes an address apart.
unfoldable pub block_offset : CacheConfig → ℕ → ℕ
block_offset cc addr = bit_and addr (low_mask cc.off_bits)

unfoldable pub set_index : CacheConfig → ℕ → ℕ
set_index cc addr = bit_and (addr >>> cc.off_bits) (low_mask cc.set_bits)

unfoldable pub tag_of : CacheConfig → ℕ → ℕ
tag_of cc addr = bit_and (addr >>> (cc.off_bits + cc.set_bits)) (low_mask cc.tag_bits)

unfoldable pub block_addr : CacheConfig → ℕ → ℕ
block_addr cc addr = u32 (addr + 2 ^ 32 - block_offset cc addr)

-- Where a block that is evicted is written back.
unfoldable pub kick_addr : CacheConfig → ℕ → ℕ → ℕ
kick_addr cc tag index = u32 (shl32 tag (32 - cc.tag_bits) + shl32 index cc.off_bits)

-- The loop of `ReplaceDecision` from way `i` on: the first valid block with the tag.
unfoldable pub find_way : (ℕ → Blk) → ℕ → ℕ → ℕ → Option ℕ
find_way row tag i zero = none
find_way row tag i (suc n) =
    let rest = find_way row tag (i + 1) n in
    if (row i).valid && ((row i).tag == tag) then some i else rest

-- The loop of `ReplaceAlgorithm` from way `i` on, with `ret` and `max_t` so far.
unfoldable pub pick_way : (ℕ → Blk) → ℕ → ℕ → ℕ → ℕ → ℕ
pick_way row i zero ret max_t = ret
pick_way row i (suc n) ret max_t =
    let later = pick_way row (i + 1) n i (row i).visited_t in
    let same = pick_way row (i + 1) n ret max_t in
    if not (row i).valid then i else if ltb max_t (row i).visited_t then later else same

module _ {L : Type 0} where
  -- `SetConfig`, with the bytes that the new blocks hold.
  unfoldable pub set_config : (ℕ → ℕ → ℕ → ℕ) → CacheConfig → Cache L → Cache L
  set_config garbage cc c = record c {
    set = λ i j. new_blk (garbage i j);
    config = record cc {
      off_bits = ceil_log2 cc.block_size;
      set_bits = ceil_log2 cc.set_num;
      tag_bits = 32 - ceil_log2 cc.block_size - ceil_log2 cc.set_num;
    };
  }

  unfoldable pub replace_decision : Cache L → ℕ → ℕ → Option ℕ
  replace_decision c index tag = find_way (c.set index) tag 0 c.config.associativity

  unfoldable pub replace_algorithm : Cache L → ℕ → ℕ
  replace_algorithm c index =
      pick_way (c.set index) 0 c.config.associativity 0 (c.set index 0).visited_t

  -- `set[index].Block[way] = b`
  abbrev pub put_block : Cache L → ℕ → ℕ → Blk → Cache L
  put_block c index way b = record c { set = update c.set index (update (c.set index) way b) }

  -- The loops that let every valid block grow older.
  unfoldable pub age : Cache L → Cache L
  age c = record c {
    set = λ i j.
        if ltb i c.config.set_num && (ltb j c.config.associativity && (c.set i j).valid)
        then record (c.set i j) { visited_t = (c.set i j).visited_t + 1 }
        else c.set i j;
  }

  -- `bus_latency + hit_latency`, the time of one access to this level
  abbrev pub access_cost : Cache L → ℕ
  access_cost c = c.latency.bus_latency + c.latency.hit_latency

  -- The counting at the head of `HandleRequest`, and that of a hit and of a miss.
  unfoldable pub count_access : Cache L → Cache L
  count_access c = record c {
    stats = record (c.stats) { access_counter = c.stats.access_counter + 1 };
  }

  unfoldable pub count_time : Cache L → Cache L
  count_time c = record c {
    stats = record (c.stats) { access_time = c.stats.access_time + access_cost c };
  }

  unfoldable pub count_miss : Cache L → Cache L
  count_miss c = record c { stats = record (c.stats) { miss_num = c.stats.miss_num + 1 } }

  -- What `HandleRequest` gives back, the lower levels having taken `more` on top of this one.
  abbrev pub answer : Cache L → Bool → List ℕ → ℕ → Reply
  answer c hit content more = record { content = content; hit = hit; time = access_cost c + more }

module _ {L : Type 0} (lower_request : Handler L) where
  -- Blocks are arrays of `block_size` bytes: an access past the end is undefined.
  abbrev pub in_block : CacheConfig → ℕ → ℕ → Bool
  in_block cc addr bytes = leb (block_offset cc addr + bytes) cc.block_size

  -- `if (write_through)`: the lower level gets the written bytes too; with the time that it takes.
  unfoldable pub send_through : CacheConfig → L → ℕ → List ℕ → Result (L × ℕ)
  send_through conf low addr content = elim (conf.write_through) [
    | true ↦ lower_request low addr (write content) >>= λ below. ok (below.0, below.1.time)
    | false ↦ ok (low, 0)
  ]

  -- The branch of `HandleRequest` for a hit in `way`.
  unfoldable pub on_hit : Cache L → ℕ → ℕ → Request → Result (Cache L × Reply)
  on_hit c addr way (read bytes) =
      let index = set_index c.config addr in
      let b = record (c.set index way) { visited_t = 0 } in
      if in_block c.config addr bytes
      then ok (
        put_block c index way b,
        answer c true (copy_out b.blk (block_offset c.config addr) bytes) 0,
      )
      else halt undefined
  on_hit c addr way (write content) =
      let index = set_index c.config addr in
      let written = copy_in (c.set index way).blk (block_offset c.config addr) content in
      let b = record (c.set index way) {
        visited_t = 0;
        blk = written;
        dirty = not c.config.write_through;
      } in
      if in_block c.config addr (length content)
      then (send_through c.config c.lower addr content >>= λ sent.
          ok (record (put_block c index way b) { lower = sent.0 }, answer c true [] sent.1))
      else halt undefined

  -- The write of an evicted block to the lower level, where the block is dirty; with the time.
  unfoldable pub write_back : CacheConfig → L → ℕ → Blk → Result (L × ℕ)
  write_back conf low index victim =
      if not conf.write_through && (victim.valid && victim.dirty)
      then (lower_request low (kick_addr conf victim.tag index)
            (write (copy_out victim.blk 0 conf.block_size))
          >>= λ below. ok (below.0, below.1.time))
      else ok (low, 0)

  -- A miss fetches the block, writes the victim back, and puts the fetched block in its place.
  unfoldable pub fetch_block : Cache L → ℕ → ℕ → Bool → Result (Cache L × ℕ)
  fetch_block c addr way dirty = do
    let index = set_index c.config addr
    let victim = c.set index way
    below ← lower_request c.lower (block_addr c.config addr) (read c.config.block_size)
    kicked ← write_back c.config below.0 index victim
    let b : Blk = record {
      blk = copy_in victim.blk 0 below.1.content;
      tag = tag_of c.config addr;
      dirty = dirty;
      valid = true;
      visited_t = 0;
    }
    ok (record (put_block c index way b) { lower = kicked.0 }, below.1.time + kicked.1)

  -- The branch of `HandleRequest` for a miss.
  unfoldable pub on_miss : Cache L → ℕ → Request → Result (Cache L × Reply)
  on_miss c addr (read bytes) = do
    let index = set_index c.config addr
    let way = replace_algorithm c index
    filled ← fetch_block c addr way false
    let b = filled.0.set index way
    if in_block c.config addr bytes
        then ok
            (filled.0, answer c false (copy_out b.blk (block_offset c.config addr) bytes) filled.1)
        else halt undefined
  on_miss c addr (write content) =
      let index = set_index c.config addr in
      let way = replace_algorithm c index in
      if c.config.write_allocate
      then (do
        filled ← fetch_block c addr way true
        sent ← send_through c.config filled.0.lower addr content
        let b = filled.0.set index way
        let written = copy_in b.blk (block_offset c.config addr) content
        let b' = record b { blk = written; dirty = not c.config.write_through }
        if in_block c.config addr (length content)
            then ok (
              record (put_block filled.0 index way b') { lower = sent.0 },
              answer c false [] (filled.1 + sent.1),
            )
            else halt undefined)
      else (lower_request c.lower addr (write content) >>= λ below.
          ok (record c { lower = below.0 }, answer c false [] below.1.time))

  -- `Cache::HandleRequest`. (`BypassDecision` and `PrefetchDecision` always answer FALSE.)
  unfoldable pub handle_request : Handler (Cache L)
  handle_request c addr req =
      let c' = count_time (age (count_access c)) in
      elim (replace_decision c' (set_index c.config addr) (tag_of c.config addr)) [
        | some way ↦ on_hit c' addr way req
        | none ↦ on_miss (count_miss c') addr req
      ]
