-- ===== src/Machine/Accesses.antt =====
-- A call of `l1.HandleRequest` (simulation.cpp) that is answered, as an access to a flat memory.
use riscv_64i_simulator.Common.{
  ℕ, zero, suc, ◌+◌, ◌-◌, ◌*◌, ◌/◌, ◌%◌, ◌^◌, ◌<◌, ◌≤◌, ◌≡◌, ◌≢◌, ◌⊎◌, refl, ap, ◌∙◌, fun_ext, ◌&&◌,
  Option, none, some, List, [], ◌∷◌, ok, >>=-eq-ok, arith, length, get_or, ltb, leb, if◌then◌else◌,
  u32, ne_none,
}
use riscv_64i_simulator.Storage.{read, write, Request, Reply, bytes_of}
use riscv_64i_simulator.Storage.Laws.{Fits, Reads, Writes, IsStorage}
use riscv_64i_simulator.Storage.Guards.{IsGuarded, IsBounded}
use riscv_64i_simulator.Pipeline.State.{Sim, Ops, access}
use riscv_64i_simulator.Pipeline.Accesses.{accessed, access-accessed}
use riscv_64i_simulator.Machine.{flat_byte, flat_read, flat_write}
use riscv_64i_simulator.Machine.Abs.{flat}

-- Two storages that show the same bytes are one flat memory.
flat_at : (v w : ℕ → Option ℕ) (b : ℕ) → (b < 2 ^ 32 → v b ≡ w b) → flat v b ≡ flat w b
unfolding flat
flat_at v w b h = ground (arith, h)

pub flat_ext : (v w : ℕ → Option ℕ) → ((b : ℕ) → b < 2 ^ 32 → v b ≡ w b) → flat v ≡ flat w
flat_ext v w h = fun_ext (λ b. flat_at v w b (h b))

flat-lt : (v : ℕ → Option ℕ) (b : ℕ) → b < 2 ^ 32 → flat v b ≡ v b
unfolding flat
flat-lt v b h = ground arith

-- The bytes of a list stand in a flat memory.
abbrev Holds : (ℕ → Option ℕ) → ℕ → List ℕ → Type 0
Holds m a xs = (i : ℕ) → i < length xs → m (a + i) ≡ some (get_or xs i 0)

Holds-tail : (m : ℕ → Option ℕ) (a x : ℕ) (xs : List ℕ) → Holds m a (x ∷ xs) → Holds m (a + 1) xs
Holds-tail m a x xs h i q = ap m (omega arith) ∙ h (suc i) (omega arith)

flat_byte-some : (m : ℕ → Option ℕ) (a x : ℕ) → m a ≡ some x → flat_byte m a ≡ ok x
unfolding flat_byte
flat_byte-some m a x h = rw (h, flat_byte) refl

flat_read-Holds :
    (m : ℕ → Option ℕ) (a : ℕ) (xs : List ℕ) → Holds m a xs → flat_read m a (length xs) ≡ ok xs
unfolding flat_read
flat_read-Holds m a [] h = refl
flat_read-Holds m a (x ∷ xs) h =
    let first : m a ≡ some x = ap m (omega arith) ∙ h 0 (omega arith) in
    rw (flat_byte-some m a x first, flat_read-Holds m (a + 1) xs (Holds-tail m a x xs h)) refl

-- Where every byte of a range is there, it can be read.
flat_read-total :
    (m : ℕ → Option ℕ) (a n : ℕ)
    → ((i : ℕ) → i < n → m (a + i) ≢ none)
    → (xs : List ℕ) × (flat_read m a n ≡ ok xs)
unfolding flat_read
flat_read-total m a zero h = ([], refl)
flat_read-total m a (suc n) h =
    let (x, e) = ne_none (m (a + 0)) (h 0 (omega arith)) in
    let first : m a ≡ some x = ap m (omega arith) ∙ e in
    let (xs, r) =
      flat_read-total m (a + 1) n (λ i q. λ z. h (suc i) (omega arith) (ap m (omega arith) ∙ z)) in
    (x ∷ xs, rw (flat_byte-some m a x first, r) refl)

Fits-range : (a n i : ℕ) → Fits a n → i < n → a + i < 2 ^ 32
Fits-range a n i f q = omega (arith, f.is_addr, f.in_block)

-- The flat memory of a state.
abbrev pub bytes : {S : Type 0} → (S → ℕ → Option ℕ) → Sim S → ℕ → Option ℕ
bytes view s = flat (view s.storage)

module _ {S : Type 0} (l1 : Ops S) (view : S → ℕ → Option ℕ) (IsGood : S → Type 0)
    (st : IsStorage l1.handle view IsGood) (gd : IsGuarded l1.handle view IsGood)
    (bd : IsBounded l1.handle view IsGood) where
  -- An access that is answered.
  module _ (s : Sim S) (a : ℕ) (g : IsGood s.storage) where
    answered-Fits :
        (req : Request) (p : S × Reply)
        → 0 < bytes_of req
        → l1.handle s.storage (u32 a) req ≡ ok p
        → Fits (u32 a) (bytes_of req)
    answered-Fits req p n e = record {
      some_bytes = n;
      is_addr = omega arith;
      in_block = bd s.storage (u32 a) req p g (omega arith) e;
    }

    access-ok :
        (req : Request) (r : Sim S × List ℕ)
        → access l1 s a req ≡ ok r
        → (p : S × Reply) × (l1.handle s.storage (u32 a) req ≡ ok p)
    unfolding access
    access-ok req r e = let (p, b, c) = >>=-eq-ok (l1.handle s.storage (u32 a) req) _ e in (p, b)

    -- A read gives the bytes of the flat memory, and leaves it.
    Reads-flat :
        (n : ℕ) (x : Reads l1.handle view IsGood s.storage (u32 a) n)
        → Fits (u32 a) n
        → (flat_read (bytes view s) (u32 a) n ≡ ok x.reply.content)
          × (flat (view x.after) ≡ bytes view s)
    Reads-flat n x f = (
      rw x.count at (
          flat_read-Holds (bytes view s) (u32 a) x.reply.content (λ i q.
            flat-lt (view s.storage) (u32 a + i) (Fits-range (u32 a) n i f (omega (arith, x.count)))
            ∙ x.bytes i (omega (arith, x.count)))),
      flat_ext (view x.after) (view s.storage) x.unchanged,
    )

    pub access-flat_read :
        (n : ℕ) (r : Sim S × List ℕ)
        → 0 < n
        → access l1 s a (read n) ≡ ok r
        → (flat_read (bytes view s) (u32 a) n ≡ ok r.1)
          × (bytes view r.0 ≡ bytes view s)
          × IsGood r.0.storage
    access-flat_read n r h e =
        let (p, b) = access-ok (read n) r e in
        let f = answered-Fits (read n) p h b in
        let x =
          st.reads s.storage (u32 a) n g f (gd s.storage (u32 a) (read n) p g f.is_addr h b) in
        let k = access-accessed l1 s a (read n) x.after x.reply x.returns in
        let same : r ≡ (accessed s x.after x.reply, x.reply.content) = cc in
        let (y, z) = Reads-flat n x f in rw same (y, z, x.good)

    -- A write changes the bytes of the flat memory.
    Writes-flat :
        (content : List ℕ) (x : Writes l1.handle view IsGood s.storage (u32 a) content)
        → Fits (u32 a) (length content)
        → view s.storage (u32 a) ≢ none
        → flat_write (bytes view s) (u32 a) content ≡ ok (flat (view x.after))
    unfolding flat_write
    Writes-flat content x f p =
        let (old, e) = flat_read-total (bytes view s) (u32 a) (length content) there in
        rw e (ap ok (fun_ext changed))
      where
        there : (i : ℕ) → i < length content → bytes view s (u32 a + i) ≢ none
        there i q =
            let here : u32 a / 64 * 64 + (u32 a % 64 + i) ≡ u32 a + i = omega arith in
            let small = Fits-range (u32 a) (length content) i f q in
            rw (flat-lt (view s.storage) (u32 a + i) small) (
              rw here at (
                st.whole s.storage (u32 a) (u32 a % 64 + i) g f.is_addr (omega (arith, f.in_block))
                  p))

        inside :
            (b : ℕ)
            → u32 a ≤ b
            → b < u32 a + length content
            → flat (view x.after) b ≡ some (get_or content (b - u32 a) 0)
        inside b h k =
            let at_b : u32 a + (b - u32 a) ≡ b = omega arith in
            let i : b - u32 a < length content = omega arith in
            flat-lt (view x.after) b
              (rw at_b at (Fits-range (u32 a) (length content) (b - u32 a) f i))
            ∙ (rw at_b at (x.written (b - u32 a) i))

        outside :
            (b : ℕ)
            → (b < u32 a) ⊎ (u32 a + length content ≤ b)
            → flat (view x.after) b ≡ bytes view s b
        outside b o = flat_at (view x.after) (view s.storage) b (λ h. x.others b h o)

        changed :
            (b : ℕ)
            → (if leb (u32 a) b && ltb b (u32 a + length content)
                then some (get_or content (b - u32 a) 0)
                else bytes view s b)
              ≡ flat (view x.after) b
        changed b = ground (arith, inside b, outside b)

    pub access-flat_write :
        (content : List ℕ) (r : Sim S × List ℕ)
        → 0 < length content
        → access l1 s a (write content) ≡ ok r
        → (flat_write (bytes view s) (u32 a) content ≡ ok (bytes view r.0)) × IsGood r.0.storage
    access-flat_write content r h e =
        let (p, b) = access-ok (write content) r e in
        let f = answered-Fits (write content) p h b in
        let m = gd s.storage (u32 a) (write content) p g f.is_addr h b in
        let x = st.writes s.storage (u32 a) content g f m in
        let k = access-accessed l1 s a (write content) x.after x.reply x.returns in
        let same : r ≡ (accessed s x.after x.reply, x.reply.content) = cc in
        rw same (Writes-flat content x f m, x.good)
