-- ===== src/Pipeline/Accesses.antt =====
-- The stores and loads of `SIM::MEM` (simulation.cpp) over a storage level.
use native.Mathlib.Nat.{
  pow-suc, one-le-pow, mul-add-mod_self_left, mod-eq_of_lt, mod-lt, div-add-mod,
}
use riscv_64i_simulator.Common.{
  ℕ, zero, suc, ◌+◌, ◌*◌, ◌/◌, ◌%◌, ◌^◌, ◌<◌, ◌≤◌, ◌≡◌, ◌≢◌, ◌⊎◌, refl, sym, ap, ◌∙◌, true, false,
  Bool, Option, none, some, arith, length, get_or, ok, if◌then◌else◌, u32, ◌>>=◌,
}
use riscv_64i_simulator.Storage.{read, write, Request, Reply}
use riscv_64i_simulator.Storage.Laws.{Fits, Reads, Writes, IsStorage}
use riscv_64i_simulator.Storage.Trace.{list_ext}
use riscv_64i_simulator.Pipeline.Regs.{MRegion}
use riscv_64i_simulator.Pipeline.State.{Sim, Ops, access, le_bytes, le_word}
use riscv_64i_simulator.Pipeline.Memory.{load_value, mem_store, mem_load}

some-ne_none : (x : ℕ) → some x ≢ none
some-ne_none x = λ z. cc

mod_bytes : (t v : ℕ) → 0 < t → v % (t * 256) ≡ v / 256 % t * 256 + v % 256
mod_bytes t v h =
    ap (λ n. n % (t * 256)) regroup
    ∙ mul-add-mod_self_left (t * 256) (v / 256 / t) (v / 256 % t * 256 + v % 256)
    ∙ mod-eq_of_lt (omega (arith, mod-lt (v / 256) h))
  where
    regroup : v ≡ t * 256 * (v / 256 / t) + (v / 256 % t * 256 + v % 256)
    regroup = omega (arith, div-add-mod (v / 256) t)

-- A number of `n` bytes read back.
le_word-le_bytes : (n v : ℕ) → le_word (le_bytes n v) ≡ v % 256 ^ n
unfolding le_word le_bytes
le_word-le_bytes zero v = omega arith
le_word-le_bytes (suc n) v = omega (
  arith,
  le_word-le_bytes n (v / 256),
  mod_bytes (256 ^ n) v (one-le-pow n 256 (omega arith)),
  ap (λ t. v % t) (pow-suc 256 n),
)

pub length-le_bytes : (n v : ℕ) → length (le_bytes n v) ≡ n
unfolding le_bytes
length-le_bytes zero v = refl
length-le_bytes (suc n) v = ap suc (length-le_bytes n (v / 256))

-- The widths of an access.
pub data IsWidth : ℕ → Type 0 where
  one_byte : IsWidth 1
  two_bytes : IsWidth 2
  four_bytes : IsWidth 4
  eight_bytes : IsWidth 8

load_value-le_bytes :
    (n : ℕ) (signed : Bool) (v e : ℕ)
    → IsWidth n
    → load_value n signed (le_bytes n v) e ≡ v % 256 ^ n
unfolding load_value
load_value-le_bytes n true v e one_byte = le_word-le_bytes 1 v
load_value-le_bytes n true v e two_bytes = le_word-le_bytes 2 v
load_value-le_bytes n true v e four_bytes = le_word-le_bytes 4 v
load_value-le_bytes n true v e eight_bytes = le_word-le_bytes 8 v
load_value-le_bytes n false v e one_byte = le_word-le_bytes 1 v
load_value-le_bytes n false v e two_bytes = le_word-le_bytes 2 v
load_value-le_bytes n false v e four_bytes = le_word-le_bytes 4 v
load_value-le_bytes n false v e eight_bytes = le_word-le_bytes 8 v

-- The state after a call of `l1.HandleRequest` that gave the storage `x` and the reply `r`.
abbrev pub accessed : {S : Type 0} → Sim S → S → Reply → Sim S
accessed s x r = record s {
  storage = x;
  counters = record (s.counters) {
    cachehit_cnt = s.counters.cachehit_cnt + (if r.hit then 1 else 0);
    cache_cnt = s.counters.cache_cnt + 1;
    cache_cycle_cnt = s.counters.cache_cycle_cnt + r.time;
  };
}

pub access-accessed :
    {S : Type 0} (l1 : Ops S) (s : Sim S) (addr : ℕ) (req : Request) (x : S) (r : Reply)
    → l1.handle s.storage (u32 addr) req ≡ ok (x, r)
    → access l1 s addr req ≡ ok (accessed s x r, r.content)
unfolding access
access-accessed l1 s addr req x r e = rw e refl

-- The state with that instruction in the M register.
abbrev pub next_in_mem : {S : Type 0} → MRegion → Sim S → Sim S
next_in_mem m u = record u { mreg = record (u.mreg) { cur = m } }

module _ {S : Type 0} (l1 : Ops S) (view : S → ℕ → Option ℕ) (IsGood : S → Type 0)
    (st : IsStorage l1.handle view IsGood) where
  -- After the store, the bytes of the value stand at its address, and the rest is as it was.
  pub record Stored (s : Sim S) : Type 0 where
    pub after : Sim S
    pub returns : mem_store l1 s ≡ ok after
    pub good : IsGood after.storage
    pub written :
        (i : ℕ)
        → i < s.mreg.cur.mem_len
        → view after.storage (u32 s.mreg.cur.val_e + i)
          ≡ some (get_or (le_bytes s.mreg.cur.mem_len s.mreg.cur.val_b) i 0)
    pub others :
        (b : ℕ)
        → b < 2 ^ 32
        → (b < u32 s.mreg.cur.val_e) ⊎ (u32 s.mreg.cur.val_e + s.mreg.cur.mem_len ≤ b)
        → view after.storage b ≡ view s.storage b

  pub mem_store-Stored :
      (s : Sim S)
      → IsGood s.storage
      → s.mreg.cur.mem_write ≡ true
      → Fits (u32 s.mreg.cur.val_e) s.mreg.cur.mem_len
      → view s.storage (u32 s.mreg.cur.val_e) ≢ none
      → Stored s
  unfolding mem_store
  mem_store-Stored s g e f p = record {
    after = accessed s w.after w.reply;
    returns =
        simp
          (
            e,
            access-accessed l1 s s.mreg.cur.val_e
                (write (le_bytes s.mreg.cur.mem_len s.mreg.cur.val_b)) w.after w.reply w.returns,
          )
          refl;
    good = w.good;
    written = λ i h. w.written i (omega (arith, count));
    others = λ b h o. w.others b h (omega (arith, count));
  }
    where
      count : length (le_bytes s.mreg.cur.mem_len s.mreg.cur.val_b) ≡ s.mreg.cur.mem_len
      count = length-le_bytes s.mreg.cur.mem_len s.mreg.cur.val_b

      w :
          Writes l1.handle view IsGood s.storage
            (u32 s.mreg.cur.val_e)
            (le_bytes s.mreg.cur.mem_len s.mreg.cur.val_b)
      w = st.writes s.storage (u32 s.mreg.cur.val_e) _ g (rw count f) p

  -- A load finds the number whose bytes the storage shows.
  pub record Loaded (t : Sim S) (v : ℕ) : Type 0 where
    pub after : Sim S
    pub returns : mem_load l1 t ≡ ok (after, v)
    pub good : IsGood after.storage
    pub unchanged : (b : ℕ) → b < 2 ^ 32 → view after.storage b ≡ view t.storage b

  mem_load-Loaded :
      (t : Sim S) (v : ℕ)
      → IsGood t.storage
      → t.mreg.cur.mem_read ≡ true
      → l1.is_valid t.storage (u32 t.mreg.cur.val_e) ≡ true
      → Fits (u32 t.mreg.cur.val_e) t.mreg.cur.mem_len
      → IsWidth t.mreg.cur.mem_len
      → ((i : ℕ)
          → i < t.mreg.cur.mem_len
          → view t.storage (u32 t.mreg.cur.val_e + i)
            ≡ some (get_or (le_bytes t.mreg.cur.mem_len v) i 0))
      → Loaded t (v % 256 ^ t.mreg.cur.mem_len)
  unfolding mem_load
  mem_load-Loaded t v g e valid f w h = record {
    after = accessed t r.after r.reply;
    returns =
        simp
          (
            e,
            valid,
            got,
            same_bytes,
            load_value-le_bytes n t.mreg.cur.mem_signed v t.mreg.cur.val_e w,
          )
          refl;
    good = r.good;
    unchanged = r.unchanged;
  }
    where
      n : ℕ
      n = t.mreg.cur.mem_len

      a : ℕ
      a = u32 t.mreg.cur.val_e

      first : a + 0 ≡ a
      first = omega arith

      r : Reads l1.handle view IsGood t.storage a n
      r =
          st.reads t.storage a n g f
            (λ z. some-ne_none _ (sym (rw first at (h 0 f.some_bytes)) ∙ z))

      got : access l1 t t.mreg.cur.val_e (read n) ≡ ok (accessed t r.after r.reply, r.reply.content)
      got = access-accessed l1 t t.mreg.cur.val_e (read n) r.after r.reply r.returns

      same_bytes : r.reply.content ≡ le_bytes n v
      same_bytes =
          list_ext r.reply.content (le_bytes n v) (r.count ∙ sym (length-le_bytes n v))
            (λ i q. ground (arith, r.bytes i, h i, r.count))

  -- Over any storage that keeps its promises, where every address that is shown counts as valid:
  -- for a store in MEM of 1, 2, 4 or 8 bytes, within a block and at an address that is shown, and
  -- then a load in MEM of as many bytes from there, both succeed, and the load gives the stored
  -- operand `valB` modulo 256 to the width.
  pub mem_load-mem_store :
      (s : Sim S) (m : MRegion)
      → IsGood s.storage
      → s.mreg.cur.mem_write ≡ true
      → Fits (u32 s.mreg.cur.val_e) s.mreg.cur.mem_len
      → IsWidth s.mreg.cur.mem_len
      → view s.storage (u32 s.mreg.cur.val_e) ≢ none
      → m.mem_read ≡ true
      → m.val_e ≡ s.mreg.cur.val_e
      → m.mem_len ≡ s.mreg.cur.mem_len
      → ((x : S) → IsGood x → view x (u32 m.val_e) ≢ none → l1.is_valid x (u32 m.val_e) ≡ true)
      → (r : Sim S × ℕ) × ((mem_store l1 s >>= λ u. mem_load l1 (next_in_mem m u)) ≡ ok r)
        × (r.1 ≡ s.mreg.cur.val_b % 256 ^ s.mreg.cur.mem_len)
        × IsGood r.0.storage
  mem_load-mem_store s m g e f k p q a n valid =
      let w = mem_store-Stored s g e f p in
      let first : u32 s.mreg.cur.val_e + 0 ≡ u32 s.mreg.cur.val_e = omega arith in
      let there : view w.after.storage (u32 m.val_e) ≢ none = λ z. some-ne_none _ (
        sym (rw first at (w.written 0 f.some_bytes))
        ∙ ap (λ b. view w.after.storage (u32 b)) (sym a)
        ∙ z) in
      let l =
        mem_load-Loaded (next_in_mem m w.after) s.mreg.cur.val_b w.good q
          (valid w.after.storage w.good there) (rw (a, n) f) (rw n k)
          (λ i h. rw (a, n) (w.written i (rw n at h))) in
      (
        (l.after, s.mreg.cur.val_b % 256 ^ m.mem_len),
        rw w.returns l.returns,
        ap (λ b. s.mreg.cur.val_b % 256 ^ b) n,
        l.good,
      )
