-- ===== src/Storage/Laws.antt =====
-- What a level of the memory hierarchy promises to the level above it, whatever it is made of: it
-- answers the requests within a block of 64 bytes as an array of bytes would.
use riscv_64i_simulator.Common.{
  ℕ, ◌+◌, ◌*◌, ◌/◌, ◌%◌, ◌^◌, ◌≤◌, ◌<◌, ◌≡◌, ◌≢◌, ◌⊎◌, Option, none, some, List, ok, length, get_or,
  sym, ◌∙◌,
}
use riscv_64i_simulator.Storage.{read, write, Reply, Handler}

-- A request of `n` bytes from `a` on stays within one block.
pub record Fits (a n : ℕ) : Type 0 where
  pub some_bytes : 0 < n
  pub is_addr : a < 2 ^ 32
  pub in_block : a % 64 + n ≤ 64

module _ {S : Type 0} (handle : Handler S) (view : S → ℕ → Option ℕ) (IsGood : S → Type 0) where
  -- The answer to a read: the bytes of the view, which stays as it was.
  pub record Reads (s : S) (a n : ℕ) : Type 0 where
    pub after : S
    pub reply : Reply
    pub returns : handle s a (read n) ≡ ok (after, reply)
    pub good : IsGood after
    pub unchanged : (b : ℕ) → b < 2 ^ 32 → view after b ≡ view s b
    pub count : length reply.content ≡ n
    pub bytes : (i : ℕ) → i < n → view s (a + i) ≡ some (get_or reply.content i 0)

  -- The answer to a write: the view holds the bytes, and the rest is as it was.
  pub record Writes (s : S) (a : ℕ) (content : List ℕ) : Type 0 where
    pub after : S
    pub reply : Reply
    pub returns : handle s a (write content) ≡ ok (after, reply)
    pub good : IsGood after
    pub written : (i : ℕ) → i < length content → view after (a + i) ≡ some (get_or content i 0)
    pub others : (b : ℕ) → b < 2 ^ 32 → (b < a) ⊎ (a + length content ≤ b) → view after b ≡ view s b

  pub record IsStorage : Type 0 where
    -- A block is there as a whole or not at all.
    pub whole :
        (s : S) (b k : ℕ)
        → IsGood s
        → b < 2 ^ 32
        → k < 64
        → view s b ≢ none
        → view s (b / 64 * 64 + k) ≢ none
    pub reads : (s : S) (a n : ℕ) → IsGood s → Fits a n → view s a ≢ none → Reads s a n
    pub writes :
        (s : S) (a : ℕ) (content : List ℕ)
        → IsGood s
        → Fits a (length content)
        → view s a ≢ none
        → Writes s a content

-- A request may be answered by another handler in a state that shows the same bytes.
module _ {S : Type 0} {handle handle' : Handler S} {view : S → ℕ → Option ℕ} {IsGood : S → Type 0}
    {s s' : S} {a : ℕ} (same : (b : ℕ) → view s' b ≡ view s b) where
  pub Reads-via :
      {n : ℕ}
      → handle s a (read n) ≡ handle' s' a (read n)
      → Reads handle' view IsGood s' a n
      → Reads handle view IsGood s a n
  Reads-via e r = record {
    after = r.after;
    reply = r.reply;
    returns = e ∙ r.returns;
    good = r.good;
    unchanged = λ b q. r.unchanged b q ∙ same b;
    count = r.count;
    bytes = λ i q. sym (same (a + i)) ∙ r.bytes i q;
  }

  pub Writes-via :
      {content : List ℕ}
      → handle s a (write content) ≡ handle' s' a (write content)
      → Writes handle' view IsGood s' a content
      → Writes handle view IsGood s a content
  Writes-via e r = record {
    after = r.after;
    reply = r.reply;
    returns = e ∙ r.returns;
    good = r.good;
    written = r.written;
    others = λ b q o. r.others b q o ∙ same b;
  }
