-- ===== src/Storage/Trace.antt =====
-- Sequences of requests to a level of the memory hierarchy, and when two levels answer them alike.
use riscv_64i_simulator.Common.{
  ℕ, suc, ◌+◌, ◌^◌, ◌≤◌, ◌<◌, ◌≡◌, ◌≢◌, ◌⊎◌, inl, inr, refl, sym, ◌∙◌, Option, none, List, [], ◌∷◌,
  arith, Result, ok, ◌>>=◌, length, get_or, ltb, Bool-cases, ◌-◌,
}
use riscv_64i_simulator.Storage.{Request, read, write, bytes_of, Reply, Handler}
use riscv_64i_simulator.Storage.Laws.{Fits, Reads, Writes, IsStorage}

-- What the caller of `HandleRequest` looks at: the content, after a read.
abbrev pub seen : Request → Reply → List ℕ
seen (read n) r = r.content
seen (write content) r = []

-- A level answers requests one after another.
pub serve : {S : Type 0} → Handler S → S → List (ℕ × Request) → Result (S × List (List ℕ))
serve handle s [] = ok (s, [])
serve handle s ((a, req) ∷ rest) = do
  first ← handle s a req
  others ← serve handle first.0 rest
  ok (others.0, seen req first.1 ∷ others.1)

-- Every request stays within a block, and within what is mapped.
pub data AllMapped (v : ℕ → Option ℕ) : List (ℕ × Request) → Type 0 where
  no_request : AllMapped v []
  next_request :
      {a : ℕ} {req : Request} {rest : List (ℕ × Request)}
      → Fits a (bytes_of req)
      → v a ≢ none
      → AllMapped v rest
      → AllMapped v ((a, req) ∷ rest)

pub AllMapped-mono :
    (v w : ℕ → Option ℕ)
    → ((b : ℕ) → b < 2 ^ 32 → v b ≢ none → w b ≢ none)
    → (reqs : List (ℕ × Request)) → AllMapped v reqs
    → AllMapped w reqs
AllMapped-mono v w k [] no_request = no_request
AllMapped-mono v w k ((a, req) ∷ rest) (next_request f p t) =
    next_request f (k a f.is_addr p) (AllMapped-mono v w k rest t)

pub list_ext :
    (xs ys : List ℕ)
    → length xs ≡ length ys
    → ((i : ℕ) → i < length xs → get_or xs i 0 ≡ get_or ys i 0)
    → xs ≡ ys
list_ext [] [] e h = refl
list_ext [] (y ∷ ys) e h = absurd (omega arith)
list_ext (x ∷ xs) [] e h = absurd (omega arith)
list_ext (x ∷ xs) (y ∷ ys) e h =
    let tails = list_ext xs ys (omega arith) (λ i q. h (suc i) (omega arith)) in
    let heads : x ≡ y = h 0 (omega arith) in cc

module _ {S T : Type 0} (f : Handler S) (v : S → ℕ → Option ℕ) (F : S → Type 0) (g : Handler T)
    (w : T → ℕ → Option ℕ) (G : T → Type 0) where
  abbrev pub Agree : S → T → Type 0
  Agree s t = (b : ℕ) → b < 2 ^ 32 → v s b ≡ w t b

  -- The two levels give the same answers, and show the same bytes afterwards.
  pub record Alike (s : S) (t : T) (reqs : List (ℕ × Request)) : Type 0 where
    pub left : S
    pub right : T
    pub answers : List (List ℕ)
    pub left_returns : serve f s reqs ≡ ok (left, answers)
    pub right_returns : serve g t reqs ≡ ok (right, answers)
    pub agree : Agree left right

  -- One request, alike.
  record Step (s : S) (t : T) (a : ℕ) (req : Request) : Type 0 where
    s' : S
    t' : T
    r : Reply
    q : Reply
    left_step : f s a req ≡ ok (s', r)
    right_step : g t a req ≡ ok (t', q)
    left_good : F s'
    right_good : G t'
    same : seen req r ≡ seen req q
    agree : Agree s' t'
    mapped : (b : ℕ) → b < 2 ^ 32 → v s b ≢ none → v s' b ≢ none

  read-Step :
      (s : S) (t : T) (a n : ℕ)
      → Agree s t
      → Fits a n
      → Reads f v F s a n
      → Reads g w G t a n
      → Step s t a (read n)
  read-Step s t a n e fit x y = record {
    s' = x.after;
    t' = y.after;
    r = x.reply;
    q = y.reply;
    left_step = x.returns;
    right_step = y.returns;
    left_good = x.good;
    right_good = y.good;
    same =
        list_ext x.reply.content y.reply.content (x.count ∙ sym y.count)
          (λ i h. bytes i (omega (arith, x.count)));
    agree = λ b h. x.unchanged b h ∙ e b h ∙ sym (y.unchanged b h);
    mapped = λ b h p. rw (x.unchanged b h) p;
  }
    where
      bytes : (i : ℕ) → i < n → get_or x.reply.content i 0 ≡ get_or y.reply.content i 0
      bytes i h = ground (arith, x.bytes i, y.bytes i, e (a + i), fit.is_addr, fit.in_block)

  write-Step :
      (s : S) (t : T) (a : ℕ) (xs : List ℕ)
      → Agree s t
      → Writes f v F s a xs
      → Writes g w G t a xs
      → Step s t a (write xs)
  write-Step s t a xs e x y = record {
    s' = x.after;
    t' = y.after;
    r = x.reply;
    q = y.reply;
    left_step = x.returns;
    right_step = y.returns;
    left_good = x.good;
    right_good = y.good;
    same = refl;
    agree = λ b h. elim (place b) [
      | inl o ↦ x.others b h o ∙ e b h ∙ sym (y.others b h o)
      | inr i ↦ rw i.2 (x.written i.0 i.1 ∙ sym (y.written i.0 i.1))
    ];
    mapped = λ b h p. elim (place b) [
      | inl o ↦ rw (x.others b h o) p
      | inr i ↦ rw (i.2, x.written i.0 i.1) (λ z. cc)
    ];
  }
    where
      place : (b : ℕ) → ((b < a) ⊎ (a + length xs ≤ b)) ⊎ ((i : ℕ) × (i < length xs) × (b ≡ a + i))
      place b = elim (Bool-cases (ltb b a)) [
        | inl q ↦ inl (inl (ground arith))
        | inr q ↦ elim (Bool-cases (ltb b (a + length xs))) [
          | inl z ↦ inr (b - a, ground arith, ground arith)
          | inr z ↦ inl (inr (ground arith))
        ]
      ]

  module _ (st : IsStorage f v F) (st' : IsStorage g w G) where
    step :
        (s : S) (t : T) (a : ℕ) (req : Request)
        → F s
        → G t
        → Agree s t
        → Fits a (bytes_of req)
        → v s a ≢ none
        → Step s t a req
    step s t a (read n) x y e h p =
        read-Step s t a n e h (st.reads s a n x h p) (st'.reads t a n y h (rw (← e a h.is_addr) p))
    step s t a (write xs) x y e h p =
        write-Step s t a xs e (st.writes s a xs x h p)
          (st'.writes t a xs y h (rw (← e a h.is_addr) p))

    -- Sequences of requests are answered alike.
    pub serve-Alike :
        (s : S) (t : T) (reqs : List (ℕ × Request))
        → F s
        → G t
        → Agree s t
        → AllMapped (v s) reqs
        → Alike s t reqs
    unfolding serve
    serve-Alike s t [] x y e no_request = record {
      left = s;
      right = t;
      answers = [];
      left_returns = refl;
      right_returns = refl;
      agree = e;
    }
    serve-Alike s t ((a, req) ∷ rest) x y e (next_request h p m) =
        let k = step s t a req x y e h p in
        let r =
          serve-Alike k.s' k.t' rest k.left_good k.right_good k.agree
            (AllMapped-mono (v s) (v k.s') k.mapped rest m) in
        record {
          left = r.left;
          right = r.right;
          answers = seen req k.r ∷ r.answers;
          left_returns = rw (k.left_step, r.left_returns) refl;
          right_returns = rw (k.right_step, r.right_returns, k.same) refl;
          agree = r.agree;
        }
