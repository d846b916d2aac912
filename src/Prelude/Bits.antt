-- ===== src/Prelude/Bits.antt =====
-- `|` and `&` at variables, from the recursion on binary digits that they stand for.
use Prim.Native.Nat.{
  ℕ, zero, suc, ◌+◌, ◌-◌, ◌*◌, ◌/◌, ◌%◌, ◌^◌, ◌≤◌, ◌<◌, min, max, bit_and, bit_or, digits,
}
use Prim.Native.Nat.{bit_and-bitwise, bit_or-bitwise}
use mathlib.Core.Path.{◌≡◌, refl, ap}
use mathlib.Core.Bool.{Bool, true, ◌&&◌}
use native.Mathlib.Nat.{pow-suc, one-le-pow, div-add-mod}
use native.Mathlib.Omega.{arith}
use brunix.Prelude.Words.{◌<<<◌}

-- The digits of a number do not depend on the fuel, if there is enough.
module _ (rest : ℕ → ℕ) (bit : ℕ → ℕ → ℕ) where
  digits-fuel : (i j x y : ℕ) → x ≤ i → x ≤ j → digits rest bit i x y ≡ digits rest bit j x y
  digits-fuel (suc i) (suc j) (suc x) y low high =
      let next = digits-fuel i j (suc x / 2) (y / 2) (omega arith) (omega arith) in
      omega (arith, next)
  digits-fuel (suc i) (suc j) zero y low high = refl
  digits-fuel zero j (suc x) y low high = absurd (omega arith)
  digits-fuel (suc i) zero (suc x) y low high = absurd (omega arith)
  digits-fuel (suc i) zero zero y low high = refl
  digits-fuel zero (suc j) zero y low high = refl
  digits-fuel zero zero zero y low high = refl

-- Both operations, one binary digit at a time.
pub or_halves : (x y : ℕ) → bit_or x y ≡ bit_or (x / 2) (y / 2) * 2 + max (x % 2) (y % 2)
or_halves zero y = omega (arith, bit_or-bitwise 0 (y / 2), bit_or-bitwise 0 y)
or_halves (suc x) y =
    let enough =
      digits-fuel (λ r. r) max x (suc x / 2) (suc x / 2) (y / 2) (omega arith) (omega arith) in
    omega (arith, enough, bit_or-bitwise (suc x / 2) (y / 2), bit_or-bitwise (suc x) y)

pub and_halves : (x y : ℕ) → bit_and x y ≡ bit_and (x / 2) (y / 2) * 2 + min (x % 2) (y % 2)
and_halves zero y = omega (arith, bit_and-bitwise 0 (y / 2), bit_and-bitwise 0 y)
and_halves (suc x) y =
    let enough =
      digits-fuel (λ _. 0) min x (suc x / 2) (suc x / 2) (y / 2) (omega arith) (omega arith) in
    omega (arith, enough, bit_and-bitwise (suc x / 2) (y / 2), bit_and-bitwise (suc x) y)

zero-bit_or : (b : ℕ) → bit_or 0 b ≡ b
zero-bit_or b = bit_or-bitwise 0 b

and-zero_fuel : (bound x : ℕ) → x ≤ bound → bit_and x 0 ≡ 0
and-zero_fuel zero (suc x) small = absurd (omega arith)
and-zero_fuel (suc bound) (suc x) small =
    let half = and-zero_fuel bound (suc x / 2) (omega arith) in
    omega (arith, half, and_halves (suc x) 0)
and-zero_fuel bound zero small = refl

-- A low field or-ed with a field above it is their sum.
pub bit_or_low : (k r q : ℕ) → r < 2 ^ k → bit_or r (q <<< k) ≡ q * 2 ^ k + r
bit_or_low zero r q h = let e : r ≡ 0 = omega arith in rw e (omega (arith, zero-bit_or (q * 1)))
bit_or_low (suc k) r q h = ground (
  arith,
  or_halves r (q * 2 ^ suc k),
  ap (λ (t : ℕ). q * t) (pow-suc 2 k),
  bit_or_low k (r / 2) q,
  pow-suc 2 k,
)

or-zero_fuel : (bound x : ℕ) → x ≤ bound → bit_or x 0 ≡ x
or-zero_fuel zero (suc x) small = absurd (omega arith)
or-zero_fuel (suc bound) (suc x) small =
    let half = or-zero_fuel bound (suc x / 2) (omega arith) in
    omega (arith, half, or_halves (suc x) 0)
or-zero_fuel bound zero small = refl

-- The same with the high field first.
pub bit_or_high : (k q r : ℕ) → r < 2 ^ k → bit_or (q <<< k) r ≡ q * 2 ^ k + r
bit_or_high zero q r h =
    let e : r ≡ 0 = omega arith in rw e (omega (arith, or-zero_fuel (q * 1) (q * 1) (omega arith)))
bit_or_high (suc k) q r h = ground (
  arith,
  or_halves (q * 2 ^ suc k) r,
  ap (λ (t : ℕ). q * t) (pow-suc 2 k),
  bit_or_high k q (r / 2),
  pow-suc 2 k,
)

and-fields : (k q r : ℕ) → r < 2 ^ k → bit_and (q * 2 ^ k + r) (2 ^ k - 1) ≡ r
and-fields zero q r h = omega (arith, and-zero_fuel (q * 1 + r) (q * 1 + r) (omega arith))
and-fields (suc k) q r h = ground (
  arith,
  ap (λ (t : ℕ). q * t) (pow-suc 2 k),
  pow-suc 2 k,
  and_halves (q * 2 ^ suc k + r) (2 ^ suc k - 1),
  and-fields k q (r / 2) (omega (arith, pow-suc 2 k)),
)

-- A mask of `k` ones is the remainder by `2 ^ k`.
pub bit_and_mask : (k a : ℕ) → bit_and a (2 ^ k - 1) ≡ a % 2 ^ k
bit_and_mask k a =
    ground (arith, and-fields k (a / 2 ^ k) (a % 2 ^ k), one-le-pow k 2, div-add-mod a (2 ^ k))

-- A Boolean test at every number below a bound, by evaluation.
unfoldable pub true_below : ℕ → (ℕ → Bool) → Bool
true_below zero test = true
true_below (suc bound) test = true_below bound test && test bound

pub true_below_sound :
    (bound : ℕ) (test : ℕ → Bool) (i : ℕ) → true_below bound test ≡ true → i < bound → test i ≡ true
unfolding true_below
true_below_sound (suc bound) test i table small = ground (arith, true_below_sound bound test i)
true_below_sound zero test i table small = absurd (omega arith)

-- The highest bit of a word, set where it is set already.
pub bit_or-set : (k r : ℕ) → r < 2 ^ k → bit_or (2 ^ k + r) (2 ^ k) ≡ 2 ^ k + r
bit_or-set zero r h = let e : r ≡ 0 = omega arith in rw e refl
bit_or-set (suc k) r h =
    let half : (2 ^ suc k + r) / 2 ≡ 2 ^ k + r / 2 = omega (arith, pow-suc 2 k) in
    let power : 2 ^ suc k / 2 ≡ 2 ^ k = omega (arith, pow-suc 2 k) in
    let rest = bit_or-set k (r / 2) (omega (arith, pow-suc 2 k)) in
    let lower : bit_or ((2 ^ suc k + r) / 2) (2 ^ suc k / 2) ≡ 2 ^ k + r / 2 =
      rw half (rw power rest) in
    omega (arith, or_halves (2 ^ suc k + r) (2 ^ suc k), lower, pow-suc 2 k)
