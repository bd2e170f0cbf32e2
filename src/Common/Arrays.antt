-- ===== src/Common/Arrays.antt =====
-- C arrays: a table of cells indexed by numbers, and buffers of bytes as lists.
use Prim.Native.Nat.{ℕ, zero, suc, ◌+◌, ◌≤◌, ◌<◌}
use mathlib.Core.Path.{◌≡◌, refl, ap}
use mathlib.Core.Logic.{◌⊎◌, inl}
use mathlib.Core.List.{List, [], ◌∷◌}
use native.Mathlib.Omega.{arith}
use riscv_64i_simulator.Common.Tests.{◌==◌, if◌then◌else◌}

-- `a[i] = v`
abbrev pub update {ℓ} : {A : Type ℓ} → (ℕ → A) → ℕ → A → ℕ → A
update f i v j = if j == i then v else f j

abbrev pub length {ℓ} : {A : Type ℓ} → List A → ℕ
length [] = 0
length (x ∷ xs) = suc (length xs)

abbrev pub get_or {ℓ} : {A : Type ℓ} → List A → ℕ → A → A
get_or [] i d = d
get_or (x ∷ xs) zero d = x
get_or (x ∷ xs) (suc i) d = get_or xs i d

-- `for (i = 0; i < n; i++) out[i] = buf[at + i]`
unfoldable pub copy_out : (ℕ → ℕ) → ℕ → ℕ → List ℕ
copy_out buf pos zero = []
copy_out buf pos (suc n) = buf pos ∷ copy_out buf (pos + 1) n

-- `for (i = 0; i < n; i++) buf[at + i] = src[i]`
unfoldable pub copy_in : (ℕ → ℕ) → ℕ → List ℕ → ℕ → ℕ
copy_in buf pos [] = buf
copy_in buf pos (x ∷ xs) = copy_in (update buf pos x) (pos + 1) xs

pub length-copy_out : (buf : ℕ → ℕ) (pos n : ℕ) → length (copy_out buf pos n) ≡ n
unfolding copy_out
length-copy_out buf pos zero = refl
length-copy_out buf pos (suc n) = ap suc (length-copy_out buf (pos + 1) n)

pub get_or-copy_out :
    (buf : ℕ → ℕ) (pos n i : ℕ) → i < n → get_or (copy_out buf pos n) i 0 ≡ buf (pos + i)
unfolding copy_out
get_or-copy_out buf pos zero i h = absurd (omega arith)
get_or-copy_out buf pos (suc n) zero h = ap buf (omega arith)
get_or-copy_out buf pos (suc n) (suc i) h =
    rw (get_or-copy_out buf (pos + 1) n i (omega arith)) (ap buf (omega arith))

-- The cells outside the copied range are left alone.
pub copy_in-outside :
    (buf : ℕ → ℕ) (pos : ℕ) (src : List ℕ) (j : ℕ)
    → (j < pos) ⊎ (pos + length src ≤ j)
    → copy_in buf pos src j ≡ buf j
unfolding copy_in
copy_in-outside buf pos [] j h = refl
copy_in-outside buf pos (x ∷ xs) j h =
    ground (arith, copy_in-outside (update buf pos x) (pos + 1) xs j)

-- The copied range holds the source.
pub copy_in-inside :
    (buf : ℕ → ℕ) (pos : ℕ) (src : List ℕ) (i : ℕ)
    → i < length src
    → copy_in buf pos src (pos + i) ≡ get_or src i 0
unfolding copy_in
copy_in-inside buf pos [] i h = absurd (omega arith)
copy_in-inside buf pos (x ∷ xs) zero h =
    rw (copy_in-outside (update buf pos x) (pos + 1) xs (pos + 0) (inl (omega arith)))
      (ground arith)
copy_in-inside buf pos (x ∷ xs) (suc i) h =
    rw (← copy_in-inside (update buf pos x) (pos + 1) xs i (omega arith))
      (ap (copy_in (update buf pos x) (pos + 1) xs) (omega arith))

-- To prove something of every cell of a list: of its head, and of every cell of its tail.
pub each_suc {ℓ} :
    (P : ℕ → Type ℓ) (n : ℕ) → P 0 → ((j : ℕ) → j < n → P (suc j)) → (j : ℕ) → j < suc n → P j
each_suc P n z s zero h = z
each_suc P n z s (suc j) h = s j (omega arith)
