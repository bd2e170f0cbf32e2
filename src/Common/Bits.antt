-- ===== src/Common/Bits.antt =====
-- `&` with a mask and `|` of disjoint fields, as arithmetic, at every width.
use Prim.Native.Nat.{ℕ, zero, suc, ◌+◌, ◌-◌, ◌*◌, ◌/◌, ◌%◌, ◌^◌, ◌≤◌, ◌<◌, min, max}
use Prim.Native.Nat.{
  bit_and, bit_or, bit_xor, digits, differ, bit_and-bitwise, bit_or-bitwise, bit_xor-bitwise,
}
use mathlib.Core.Path.{◌≡◌, refl, sym, ap, ◌∙◌}
use native.Mathlib.Nat.{
  pow-suc, one-le-pow, mul-add-mod_self_left, mod-eq_of_lt, mod-lt, div-add-mod,
}
use native.Mathlib.Nat.{div-div-eq-div-mul, mul_comm}
use native.Mathlib.Omega.{arith}

-- More digits than the first number has change nothing.
module _ (z : ℕ → ℕ) (f : ℕ → ℕ → ℕ) where
  digits-enough : (b a k m : ℕ) → a ≤ m → a ≤ k → digits z f k a b ≡ digits z f m a b
  digits-enough b (suc a) k zero p q = absurd (omega arith)
  digits-enough b (suc a) zero (suc m) p q = absurd (omega arith)
  digits-enough b (suc a) (suc k) (suc m) p q =
      let rest = digits-enough (b / 2) (suc a / 2) k m (omega arith) (omega arith) in
      omega (arith, rest)
  digits-enough b zero (suc k) (suc m) p q = refl
  digits-enough b zero zero (suc m) p q = refl
  digits-enough b zero (suc k) zero p q = refl
  digits-enough b zero zero zero p q = refl

and_step : (x y : ℕ) → bit_and x y ≡ bit_and (x / 2) (y / 2) * 2 + min (x % 2) (y % 2)
and_step (suc x) y =
    let rest =
      digits-enough (λ c. 0) min (y / 2) (suc x / 2) x (suc x / 2) (omega arith) (omega arith) in
    omega (arith, rest, bit_and-bitwise (suc x / 2) (y / 2), bit_and-bitwise (suc x) y)
and_step zero y = omega (arith, bit_and-bitwise 0 (y / 2), bit_and-bitwise 0 y)

or_step : (x y : ℕ) → bit_or x y ≡ bit_or (x / 2) (y / 2) * 2 + max (x % 2) (y % 2)
or_step (suc x) y =
    let rest =
      digits-enough (λ c. c) max (y / 2) (suc x / 2) x (suc x / 2) (omega arith) (omega arith) in
    omega (arith, rest, bit_or-bitwise (suc x / 2) (y / 2), bit_or-bitwise (suc x) y)
or_step zero y = omega (arith, bit_or-bitwise 0 (y / 2), bit_or-bitwise 0 y)

and_zero_below : (n a : ℕ) → a ≤ n → bit_and a 0 ≡ 0
and_zero_below zero a h = ground (arith, bit_and-bitwise 0 0)
and_zero_below (suc n) a h = omega (arith, and_step a 0, and_zero_below n (a / 2) (omega arith))

or_zero_below : (n a : ℕ) → a ≤ n → bit_or a 0 ≡ a
or_zero_below zero a h = ground (arith, bit_or-bitwise 0 0)
or_zero_below (suc n) a h = omega (arith, or_step a 0, or_zero_below n (a / 2) (omega arith))

mod_double : (a t : ℕ) → 0 < t → a % (t * 2) ≡ a / 2 % t * 2 + a % 2
mod_double a t h =
    ap (λ n. n % (t * 2)) regroup
    ∙ mul-add-mod_self_left (t * 2) (a / 2 / t) (a / 2 % t * 2 + a % 2)
    ∙ mod-eq_of_lt (omega (arith, mod-lt (a / 2) h))
  where
    regroup : a ≡ t * 2 * (a / 2 / t) + (a / 2 % t * 2 + a % 2)
    regroup = omega (arith, div-add-mod (a / 2) t)

mul-two-pow : (m k : ℕ) → m * 2 ^ suc k ≡ m * 2 ^ k * 2
mul-two-pow m k = omega (arith, ap (λ (t : ℕ). m * t) (pow-suc 2 k))

div-two-pow : (a k : ℕ) → a / 2 ^ suc k ≡ a / 2 / 2 ^ k
div-two-pow a k =
    ap (λ (t : ℕ). a / t) (pow-suc 2 k ∙ mul_comm (2 ^ k) 2) ∙ sym (div-div-eq-div-mul a 2 (2 ^ k))

-- A mask of the `k` low bits is a remainder.
pub bit_and-mask : (k a : ℕ) → bit_and a (2 ^ k - 1) ≡ a % 2 ^ k
bit_and-mask zero a = omega (arith, and_zero_below a a (omega arith))
bit_and-mask (suc k) a = ground (
  arith,
  pow-suc 2 k,
  one-le-pow k 2,
  and_step a (2 ^ suc k - 1),
  mod_double a (2 ^ k),
  bit_and-mask k (a / 2),
)

-- A mask whose low `k` bits are clear looks only at the bits above them.
bit_and-high : (k a m : ℕ) → bit_and a (m * 2 ^ k) ≡ bit_and (a / 2 ^ k) m * 2 ^ k
bit_and-high zero a m = ground arith
bit_and-high (suc k) a m = ground (
  arith,
  mul-two-pow m k,
  and_step a (m * 2 ^ suc k),
  bit_and-high k (a / 2) m,
  div-two-pow a k,
  mul-two-pow (bit_and (a / 2 ^ suc k) m) k,
)

-- A mask of `w` bits from bit `k` on cuts a field out, in place.
pub bit_and-field : (w k a : ℕ) → bit_and a ((2 ^ w - 1) * 2 ^ k) ≡ a / 2 ^ k % 2 ^ w * 2 ^ k
bit_and-field w k a =
    bit_and-high k a (2 ^ w - 1) ∙ ap (λ n. n * 2 ^ k) (bit_and-mask w (a / 2 ^ k))

-- `|` of a number below `2 ^ k` and a field from bit `k` on is their sum.
pub bit_or-field : (k q r : ℕ) → r < 2 ^ k → bit_or r (q * 2 ^ k) ≡ r + q * 2 ^ k
bit_or-field zero q r h = ground (arith, bit_or-bitwise 0 q)
bit_or-field (suc k) q r h =
    ground
      (arith, pow-suc 2 k, mul-two-pow q k, or_step r (q * 2 ^ suc k), bit_or-field k q (r / 2))

xor_step : (x y : ℕ) → bit_xor x y ≡ bit_xor (x / 2) (y / 2) * 2 + differ (x % 2) (y % 2)
xor_step (suc x) y =
    let rest =
      digits-enough (λ c. c) differ (y / 2) (suc x / 2) x (suc x / 2) (omega arith) (omega arith) in
    omega (arith, rest, bit_xor-bitwise (suc x / 2) (y / 2), bit_xor-bitwise (suc x) y)
xor_step zero y = omega (arith, bit_xor-bitwise 0 (y / 2), bit_xor-bitwise 0 y)

-- An operation that works digit by digit stays within the width of its operands.
digitwise-lt :
    (op digit : ℕ → ℕ → ℕ)
    → ((x y : ℕ) → op x y ≡ op (x / 2) (y / 2) * 2 + digit (x % 2) (y % 2))
    → ((x y : ℕ) → x < 2 → y < 2 → digit x y < 2)
    → op 0 0 ≡ 0
    → (k x y : ℕ) → x < 2 ^ k
    → y < 2 ^ k
    → op x y < 2 ^ k
digitwise-lt op digit step small start zero x y p q =
    let left : x ≡ 0 = omega arith in
    let right : y ≡ 0 = omega arith in rw (left, right) (omega (arith, start))
digitwise-lt op digit step small start (suc k) x y p q = omega (
  arith,
  step x y,
  small (x % 2) (y % 2) (omega arith) (omega arith),
  pow-suc 2 k,
  digitwise-lt op digit step small start k (x / 2) (y / 2) (omega (arith, pow-suc 2 k))
      (omega (arith, pow-suc 2 k)),
)

pub bit_and-lt : (k x y : ℕ) → x < 2 ^ k → y < 2 ^ k → bit_and x y < 2 ^ k
bit_and-lt = digitwise-lt bit_and min and_step (λ x y p q. omega arith) (bit_and-bitwise 0 0)

pub bit_or-lt : (k x y : ℕ) → x < 2 ^ k → y < 2 ^ k → bit_or x y < 2 ^ k
bit_or-lt = digitwise-lt bit_or max or_step (λ x y p q. omega arith) (bit_or-bitwise 0 0)

differ-lt : (x y : ℕ) → x < 2 → y < 2 → differ x y < 2
differ-lt zero y p q = q
differ-lt (suc x) zero p q = p
differ-lt (suc x) (suc y) p q = differ-lt x y (omega arith) (omega arith)

pub bit_xor-lt : (k x y : ℕ) → x < 2 ^ k → y < 2 ^ k → bit_xor x y < 2 ^ k
bit_xor-lt = digitwise-lt bit_xor differ xor_step differ-lt (bit_xor-bitwise 0 0)
