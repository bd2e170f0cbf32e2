-- ===== src/Cache/Replacement.antt =====
-- The loops over the ways of a set: `ReplaceDecision` finds a block by its tag, and
-- `ReplaceAlgorithm` picks the block to evict.
use riscv_64i_simulator.Common.{
  ℕ, zero, suc, ◌+◌, ◌≤◌, ◌<◌, ◌≡◌, inl, inr, refl, true, false, none, some, arith, ltb, Bool-cases,
}
use riscv_64i_simulator.Cache.{Blk, find_way, pick_way}

-- Way `w` of the row holds the tag.
pub record HasTag (row : ℕ → Blk) (tag w : ℕ) : Type 0 where
  pub is_valid : (row w).valid ≡ true
  pub same_tag : (row w).tag ≡ tag

-- The way that is found holds the tag.
pub find_way-some :
    (row : ℕ → Blk) (tag i n w : ℕ)
    → find_way row tag i n ≡ some w
    → (i ≤ w) × (w < i + n) × HasTag row tag w
unfolding find_way
find_way-some row tag i zero w h = ground arith
find_way-some row tag i (suc n) w h = ground (arith, find_way-some row tag (i + 1) n w)

-- If none is found, no way holds the tag.
pub find_way-none :
    (row : ℕ → Blk) (tag i n w : ℕ)
    → find_way row tag i n ≡ none
    → i ≤ w
    → w < i + n
    → HasTag row tag w
    → ⊥
unfolding find_way
find_way-none row tag i zero w h p q t = omega arith
find_way-none row tag i (suc n) w h p q t = ground (arith, find_way-none row tag (i + 1) n w)

-- The way that is picked is one of the row's, or the one picked so far.
pick_way-lt :
    (row : ℕ → Blk) (i n ret max_t bound : ℕ)
    → ret < bound
    → i + n ≤ bound
    → pick_way row i n ret max_t < bound
unfolding pick_way
pick_way-lt row i zero ret max_t bound p q = p
pick_way-lt row i (suc n) ret max_t bound p q = ground (
  arith,
  pick_way-lt row (i + 1) n i (row i).visited_t bound,
  pick_way-lt row (i + 1) n ret max_t bound,
)

-- What is picked is an empty way if there is one, and otherwise one that no way was visited longer
-- ago than. `max_t` is the age of the way picked so far.
pub record IsVictim (row : ℕ → Blk) (i n max_t way : ℕ) : Type 0 where
  pub empty_first : (w : ℕ) → i ≤ w → w < i + n → (row w).valid ≡ false → (row way).valid ≡ false
  pub oldest :
      (row way).valid ≡ true
      → (max_t ≤ (row way).visited_t)
        × ((w : ℕ) → i ≤ w → w < i + n → (row w).visited_t ≤ (row way).visited_t)

-- A valid way that is no older than the bound can be put in front.
IsVictim-cons :
    (row : ℕ → Blk) (i n max_t bound way : ℕ)
    → (row i).valid ≡ true
    → max_t ≤ bound
    → (row i).visited_t ≤ bound
    → IsVictim row (i + 1) n bound way
    → IsVictim row i (suc n) max_t way
IsVictim-cons row i n max_t bound way v p q r = record {
  empty_first = λ w a b f. ground (arith, r.empty_first w);
  oldest = λ g. (omega (arith, r.oldest g), λ w a b. older w a b g);
}
  where
    older :
        (w : ℕ)
        → i ≤ w
        → w < i + suc n
        → (row way).valid ≡ true
        → (row w).visited_t ≤ (row way).visited_t
    older w a b g = ground (arith, r.oldest g, (r.oldest g).1 w)

pick_way-IsVictim :
    (row : ℕ → Blk) (i n ret max_t : ℕ)
    → (row ret).valid ≡ true
    → (row ret).visited_t ≡ max_t
    → IsVictim row i n max_t (pick_way row i n ret max_t)
unfolding pick_way
pick_way-IsVictim row i zero ret max_t v e = record {
  empty_first = λ w p q f. absurd (omega arith);
  oldest = λ g. (omega arith, λ w p q. absurd (omega arith));
}
pick_way-IsVictim row i (suc n) ret max_t v e = elim (Bool-cases (row i).valid) [
  | inl g ↦ elim (Bool-cases (ltb max_t (row i).visited_t)) [
    | inl l ↦
        simp (g, l)
          (IsVictim-cons row i n max_t (row i).visited_t _ g (ground arith) (omega arith)
            (pick_way-IsVictim row (i + 1) n i (row i).visited_t g refl))
    | inr l ↦
        simp (g, l)
          (IsVictim-cons row i n max_t max_t _ g (omega arith) (ground arith)
            (pick_way-IsVictim row (i + 1) n ret max_t v e))
  ]
  | inr g ↦ simp g (record { empty_first = λ w p q f. g; oldest = λ o. absurd (ground arith) })
]

-- In a set with at least one way, `ReplaceAlgorithm` picks one of its ways: an empty one if any is
-- empty, and otherwise one that no way of the set was visited longer ago than.
pub victim_lem :
    (row : ℕ → Blk) (n : ℕ)
    → 0 < n
    → IsVictim row 0 n (row 0).visited_t (pick_way row 0 n 0 (row 0).visited_t)
      × (pick_way row 0 n 0 (row 0).visited_t < n)
unfolding pick_way
victim_lem row zero h = absurd (omega arith)
victim_lem row (suc n) h = (
  elim (Bool-cases (row 0).valid) [
    | inl g ↦ pick_way-IsVictim row 0 (suc n) 0 (row 0).visited_t g refl
    | inr g ↦ simp g (record { empty_first = λ w p q f. g; oldest = λ o. absurd (ground arith) })
  ],
  pick_way-lt row 0 (suc n) 0 (row 0).visited_t (suc n) (omega arith) (omega arith),
)
