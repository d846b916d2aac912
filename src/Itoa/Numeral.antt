-- ===== src/Itoa/Numeral.antt =====
-- Positional numerals, independent of `itoa`: what its text is compared with.
use native.Mathlib.Nat.{
  div-add-mod, mod-lt, div-lt_self, div-lt_iff_lt-mul, pow-suc, pow-zero, mul-le-mul_left,
}
use mathlib.Core.List.{reverse-append}
use brunix.Prelude.{
  ℕ, zero, suc, ◌+◌, ◌-◌, ◌*◌, ◌/◌, ◌%◌, ◌≤◌, ◌<◌, ◌≡◌, arith, ltb, ◌==◌, if◌then◌else◌,
  NoNul-append, ◌^◌,
}
use brunix.Prelude.{
  false, All, All-reverse, List, [], ◌∷◌, reverse, length, ◌≢◌, NoNul, length-reverse,
}

-- The character of a digit: 0 to 9, then a to z.
unfoldable pub digit : ℕ → ℕ
digit d = if ltb d 10 then b'0' + d else b'a' + (d - 10)

-- The digits of `m`, the least significant first; at least one. The fuel has to exceed `m`.
unfoldable pub low_digits : ℕ → ℕ → ℕ → List ℕ
low_digits zero m b = []
low_digits (suc f) m b =
    let rest = low_digits f (m / b) b in digit (m % b) ∷ (if m / b == 0 then [] else rest)

unfoldable pub numeral : ℕ → ℕ → List ℕ
numeral b m = reverse (low_digits (suc m) m b)

-- What a digit character stands for.
unfoldable pub digit_value : ℕ → ℕ
digit_value c = if ltb c b'a' then c - b'0' else c - b'a' + 10

-- The number that digits spell, the least significant first.
unfoldable pub low_value : ℕ → List ℕ → ℕ
low_value b [] = 0
low_value b (c ∷ s) = digit_value c + b * low_value b s

pub digit_value-digit : (d : ℕ) → d < 36 → digit_value (digit d) ≡ d
unfolding digit_value digit
digit_value-digit d h = ground arith

pub div_lt_fuel : (f m b : ℕ) → 2 ≤ b → m < suc f → m / b ≢ 0 → m / b < f
div_lt_fuel f zero b lo h nz = absurd (nz (omega arith))
div_lt_fuel f (suc m) b lo h nz = omega (arith, div-lt_self {n = suc m} {k = b} (omega arith) lo)

pub low_value-low_digits : (f m b : ℕ) → 2 ≤ b → b ≤ 36 → m < f → low_value b (low_digits f m b) ≡ m
unfolding low_value low_digits
low_value-low_digits zero m b lo hi h = absurd (omega arith)
low_value-low_digits (suc f) m b lo hi h = ground (
  arith,
  div-add-mod m b,
  digit_value-digit (m % b) (omega (arith, mod-lt m {m = b} (omega arith))),
  div_lt_fuel f m b lo h,
  low_value-low_digits f (m / b) b lo hi,
)

low_div : (m b : ℕ) → 2 ≤ b → m < 2 → m / b ≡ 0
low_div m b lo h = grind (arith, div-add-mod m b)

div-lt-pow : (k m b : ℕ) → 2 ≤ b → m < 2 ^ suc (suc k) → m / b < 2 ^ suc k
div-lt-pow k m b lo h =
    (div-lt_iff_lt-mul (omega arith)).1
      (omega (arith, pow-suc 2 (suc k), mul-le-mul_left (2 ^ suc k) lo))

pub length-low_digits_pos : (f m b : ℕ) → 0 < length (low_digits (suc f) m b)
unfolding low_digits
length-low_digits_pos f m b = omega arith

-- `k` digits are enough for a number below `b ^ k`; here for base 2.
pub length-low_digits : (f k m b : ℕ) → 2 ≤ b → m < 2 ^ suc k → length (low_digits f m b) ≤ suc k
unfolding low_digits
length-low_digits zero k m b lo h = omega arith
length-low_digits (suc f) zero m b lo h = ground (arith, low_div m b lo h)
length-low_digits (suc f) (suc k) m b lo h =
    ground (arith, length-low_digits f k (m / b) b lo (div-lt-pow k m b lo h))

pub NoNul-reverse : (s : List ℕ) → NoNul s → NoNul (reverse s)
NoNul-reverse [] h = h
NoNul-reverse (zero ∷ s) h = absurd h
NoNul-reverse (suc c ∷ s) h =
    rw (reverse-append (suc c ∷ []) s)
      (NoNul-append (reverse s) (suc c ∷ []) (NoNul-reverse s h) tt)

NoNul-cons : (c : ℕ) (s : List ℕ) → 0 < c → NoNul s → NoNul (c ∷ s)
NoNul-cons zero s p h = absurd (omega arith)
NoNul-cons (suc c) s p h = h

NoNul-digit : (d : ℕ) (s : List ℕ) → NoNul s → NoNul (digit d ∷ s)
unfolding digit
NoNul-digit d s h = NoNul-cons _ s (ground arith) h

NoNul-low_digits : (f m b : ℕ) → NoNul (low_digits f m b)
unfolding low_digits
NoNul-low_digits zero m b = tt
NoNul-low_digits (suc f) m b = NoNul-digit (m % b) _ (grind (arith, NoNul-low_digits f (m / b) b))

pub NoNul-numeral : (b m : ℕ) → NoNul (numeral b m)
unfolding numeral
NoNul-numeral b m = NoNul-reverse (low_digits (suc m) m b) (NoNul-low_digits (suc m) m b)

pub length-numeral : (k b m : ℕ) → 2 ≤ b → m < 2 ^ suc k → length (numeral b m) ≤ suc k
unfolding numeral
length-numeral k b m lo h =
    omega (arith, length-reverse (low_digits (suc m) m b), length-low_digits (suc m) k m b lo h)

div-lt_one : (m b : ℕ) → 2 ≤ b → m < b ^ 1 → m / b < 1
div-lt_one m b lo h =
    (div-lt_iff_lt-mul (omega arith)).1 (grind (arith, h, pow-suc b 0, pow-zero b))

div-lt-pow_base : (k m b : ℕ) → 2 ≤ b → m < b ^ suc (suc k) → m / b < b ^ suc k
div-lt-pow_base k m b lo h =
    (div-lt_iff_lt-mul (omega arith)).1 (omega (arith, h, pow-suc b (suc k)))

-- A number below `b ^ suc k` has `suc k` digits at most.
length-low_digits_pow : (f k m b : ℕ) → 2 ≤ b → m < b ^ suc k → length (low_digits f m b) ≤ suc k
unfolding low_digits
length-low_digits_pow zero k m b lo h = omega arith
length-low_digits_pow (suc f) zero m b lo h = ground (arith, div-lt_one m b lo h)
length-low_digits_pow (suc f) (suc k) m b lo h =
    ground (arith, length-low_digits_pow f k (m / b) b lo (div-lt-pow_base k m b lo h))

pub length-numeral_pow : (k b m : ℕ) → 2 ≤ b → m < b ^ suc k → length (numeral b m) ≤ suc k
unfolding numeral
length-numeral_pow k b m lo h =
    omega (arith, length-reverse (low_digits (suc m) m b), length-low_digits_pow (suc m) k m b lo h)

-- No byte is a '%'.
abbrev pub NoPercent : List ℕ → Type 0
NoPercent s = All (λ c. (c == b'%') ≡ false) s

NoPercent-low_digits : (f m b : ℕ) → NoPercent (low_digits f m b)
unfolding low_digits digit
NoPercent-low_digits zero m b = tt
NoPercent-low_digits (suc f) m b = (ground arith, grind (arith, NoPercent-low_digits f (m / b) b))

pub NoPercent-numeral : (b m : ℕ) → NoPercent (numeral b m)
unfolding numeral
NoPercent-numeral b m =
    All-reverse (λ c. (c == b'%') ≡ false) (low_digits (suc m) m b)
      (NoPercent-low_digits (suc m) m b)
