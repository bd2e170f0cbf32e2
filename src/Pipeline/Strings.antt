-- ===== src/Pipeline/Strings.antt =====
-- The string-printing system call of `SIM::syscall` (simulation.cpp) over a storage level.
use mathlib.Core.List.{map, append_assoc, append-nil}
use riscv_64i_simulator.Common.{
  ℕ, zero, suc, ◌+◌, ◌^◌, ◌<◌, ◌≡◌, ◌≢◌, refl, sym, ap, ◌∙◌, Option, some, List, [], ◌∷◌, ◌++◌,
  arith, length, get_or, ok, ne→==, u32, add64, put_char,
}
use riscv_64i_simulator.Storage.{read}
use riscv_64i_simulator.Storage.Laws.{Reads, IsStorage}
use riscv_64i_simulator.Pipeline.State.{Sim, Ops, access}
use riscv_64i_simulator.Pipeline.Syscall.{print, print_string}
use riscv_64i_simulator.Pipeline.Accesses.{accessed, access-accessed}

-- The bytes from `a` on are the text and then a NUL.
pub data HoldsString (v : ℕ → Option ℕ) : ℕ → List ℕ → Type 0 where
  nul : {a : ℕ} → a < 2 ^ 32 → v a ≡ some 0 → HoldsString v a []
  char_then :
      {a c : ℕ} {cs : List ℕ}
      → a < 2 ^ 32
      → v a ≡ some c
      → c ≢ 0
      → HoldsString v (a + 1) cs
      → HoldsString v a (c ∷ cs)

HoldsString-same :
    (v w : ℕ → Option ℕ) (a : ℕ) (text : List ℕ)
    → ((b : ℕ) → b < 2 ^ 32 → w b ≡ v b)
    → HoldsString v a text
    → HoldsString w a text
HoldsString-same v w a [] e (nul h p) = nul h (e a h ∙ p)
HoldsString-same v w a (c ∷ cs) e (char_then h p q t) =
    char_then h (e a h ∙ p) q (HoldsString-same v w (a + 1) cs e t)

module _ {S : Type 0} (l1 : Ops S) (view : S → ℕ → Option ℕ) (IsGood : S → Type 0)
    (st : IsStorage l1.handle view IsGood) where
  -- The call succeeds, and prints the text.
  pub record Printed (fuel : ℕ) (s : Sim S) (a : ℕ) (text : List ℕ) : Type 0 where
    pub after : Sim S
    pub returns : print_string l1 fuel s a ≡ ok after
    pub good : IsGood after.storage
    pub output : after.printed ≡ s.printed ++ map put_char text
    pub unchanged : (b : ℕ) → b < 2 ^ 32 → view after.storage b ≡ view s.storage b

  -- One character read.
  record OneByte (s : Sim S) (a c : ℕ) : Type 0 where
    x : Reads l1.handle view IsGood s.storage a 1
    found : access l1 s a (read 1) ≡ ok (accessed s x.after x.reply, x.reply.content)
    is_char : get_or x.reply.content 0 0 ≡ c

  one_byte :
      (s : Sim S) (a c : ℕ)
      → IsGood s.storage
      → a < 2 ^ 32
      → view s.storage a ≡ some c
      → OneByte s a c
  one_byte s a c g h e = record {
    x = r;
    found = access-accessed l1 s a (read 1) r.after r.reply (rw here r.returns);
    is_char = ground (arith, r.bytes 0, ap (view s.storage) start);
  }
    where
      here : u32 a ≡ a
      here = omega arith

      start : a + 0 ≡ a
      start = omega arith

      r : Reads l1.handle view IsGood s.storage a 1
      r =
          st.reads s.storage a 1 g
            (record { some_bytes = omega arith; is_addr = h; in_block = omega arith }) (λ z. cc)

  -- Over any storage that keeps its promises, where a text of nonzero bytes with a NUL behind it
  -- stands at an address, the string-printing system call succeeds with more fuel than the text is
  -- long, prints just the text after what was printed before, and changes no byte that the storage
  -- shows.
  pub print_string-Printed :
      (fuel : ℕ) (s : Sim S) (a : ℕ) (text : List ℕ)
      → length text < fuel
      → IsGood s.storage
      → HoldsString (view s.storage) a text
      → Printed fuel s a text
  unfolding print_string
  print_string-Printed zero s a text h g t = absurd (omega arith)
  print_string-Printed (suc fuel) s a [] h g (nul b e) =
      let o = one_byte s a 0 g b e in
      record {
        after = accessed s o.x.after o.x.reply;
        returns = rw (o.found, o.is_char) refl;
        good = o.x.good;
        output = sym (append-nil s.printed);
        unchanged = o.x.unchanged;
      }
  print_string-Printed (suc fuel) s a (c ∷ cs) h g (char_then b e q t) =
      let o = one_byte s a c g b e in
      let next : Sim S = print (put_char c) (accessed s o.x.after o.x.reply) in
      let k =
        print_string-Printed fuel next (a + 1) cs (omega arith) o.x.good
          (HoldsString-same (view s.storage) (view o.x.after) (a + 1) cs o.x.unchanged t) in
      let onwards : add64 a 1 ≡ a + 1 = omega arith in
      record {
        after = k.after;
        returns = rw (o.found, o.is_char, ne→== c 0 q, onwards) k.returns;
        good = k.good;
        output = k.output ∙ append_assoc s.printed (put_char c ∷ []) (map put_char cs);
        unchanged = λ x y. k.unchanged x y ∙ o.x.unchanged x y;
      }
