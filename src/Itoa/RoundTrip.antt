-- ===== src/Itoa/RoundTrip.antt =====
-- Reading back what `itoa` wrote.
use mathlib.Core.List.{reverse-append}
use brunix.Prelude.{
  ℕ, zero, suc, ◌+◌, ◌*◌, ◌≤◌, ◌^◌, ◌≡◌, ◌≢◌, refl, ap, ◌∙◌, arith, ◌==◌, if◌then◌else◌, some,
}
use brunix.Prelude.{
  sym, true, false, ◌⊎◌, ltb_ℤ, List, [], All, All-reverse, ◌/◌, ◌∷◌, ◌++◌, reverse, length, drop,
  ℤ, pos, negsuc, neg, nat_abs, c_string, c_string-append,
}
use brunix.Itoa.{itoa, store}
use brunix.Itoa.Numeral.{digit, digit_value, low_value, low_digits, numeral, low_value-low_digits}
use brunix.Itoa.Laws.{has_sign, text, itoa_lem, NoNul-text, length-text}

-- The number that a text of digits spells, the most significant first.
unfoldable pub value : ℕ → ℕ → List ℕ → ℕ
value b acc [] = acc
value b acc (c ∷ s) = value b (acc * b + digit_value c) s

-- Of a text with an optional '-' in front.
unfoldable pub read : ℕ → List ℕ → ℤ
read b [] = pos 0
read b (c ∷ s) = if c == b'-' then neg (value b 0 s) else pos (value b 0 (c ∷ s))

value-append : (b acc : ℕ) (s t : List ℕ) → value b acc (s ++ t) ≡ value b (value b acc s) t
unfolding value
value-append b acc [] t = refl
value-append b acc (c ∷ s) t = value-append b (acc * b + digit_value c) s t

value-reverse : (b : ℕ) (s : List ℕ) → value b 0 (reverse s) ≡ low_value b s
unfolding value low_value
value-reverse b [] = refl
value-reverse b (c ∷ s) =
    ap (value b 0) (reverse-append (c ∷ []) s)
    ∙ value-append b 0 (reverse s) (c ∷ [])
    ∙ omega (arith, ap (λ (t : ℕ). b * t) (value-reverse b s))

-- A numeral spells its number.
pub value-numeral : (b m : ℕ) → 2 ≤ b → b ≤ 36 → value b 0 (numeral b m) ≡ m
unfolding numeral
value-numeral b m lo hi =
    value-reverse b (low_digits (suc m) m b) ∙ low_value-low_digits (suc m) m b lo hi (omega arith)

no_sign : (n : ℕ) → has_sign (pos n) 10 ≡ false
no_sign n = ground arith

its_sign : (n : ℕ) → has_sign (negsuc n) 10 ≡ true
its_sign n = ground arith

-- A digit is not a '-'.
low_digits-All : (f m b : ℕ) → All (λ c. c ≢ b'-') (low_digits f m b)
unfolding low_digits digit
low_digits-All zero m b = tt
low_digits-All (suc f) m b = (ground arith, ground (arith, low_digits-All f (m / b) b))

numeral-All : (b m : ℕ) → All (λ c. c ≢ b'-') (numeral b m)
unfolding numeral
numeral-All b m = All-reverse _ (low_digits (suc m) m b) (low_digits-All (suc m) m b)

read-plain : (b : ℕ) (s : List ℕ) → All (λ c. c ≢ b'-') s → read b s ≡ pos (value b 0 s)
unfolding read value
read-plain b [] h = refl
read-plain b (c ∷ s) h = ground (arith, h.0)

read-text : (v : ℤ) → read 10 (text v 10) ≡ v
unfolding read
read-text (pos n) = rw (no_sign n) (
    read-plain 10 (numeral 10 n) (numeral-All 10 n)
    ∙ ap pos (value-numeral 10 n (omega arith) (omega arith)))
read-text (negsuc n) =
    rw (its_sign n) (ap neg (value-numeral 10 (suc n) (omega arith) (omega arith)))

-- For a base from 2 to 36, an `int` value and a buffer of at least 34 bytes, `itoa` stays inside
-- the buffer and leaves there, as a C string, the text of the value: '-' only in front of negative
-- decimals, then the digits of the absolute value.
pub itoa_fits :
    (v : ℤ) (b : ℕ) (str : List ℕ)
    → 2 ≤ b
    → b ≤ 36
    → nat_abs v ≤ 2 ^ 31
    → 34 ≤ length str
    → (out : List ℕ) × (itoa v str (pos b) ≡ some out) × (c_string out ≡ text v b)
itoa_fits v b str lo hi small room = (
  text v b ++ (0 ∷ drop (suc (length (text v b))) str),
  itoa_lem v b lo hi str (omega (arith, length-text v b lo hi (omega arith))),
  c_string-append (text v b) _ (NoNul-text v b lo hi),
)

-- Reading the decimal string that `itoa` leaves gives the value back, for every `int` and every
-- buffer of at least 34 bytes.
pub itoa_round_trip :
    (v : ℤ) (str : List ℕ)
    → nat_abs v ≤ 2 ^ 31
    → 34 ≤ length str
    → (out : List ℕ) × (itoa v str (pos 10) ≡ some out) × (read 10 (c_string out) ≡ v)
itoa_round_trip v str small room =
    let (out, runs, string) = itoa_fits v 10 str (omega arith) (omega arith) small room in
    (out, runs, ap (read 10) string ∙ read-text v)

-- In a base other than 10 the sign is lost: a negative `int` is printed as its absolute value.
pub itoa_sign_lost :
    (n b : ℕ) (str : List ℕ)
    → 2 ≤ b
    → b ≤ 36
    → b ≢ 10
    → suc n ≤ 2 ^ 31
    → 34 ≤ length str
    → itoa (negsuc n) str (pos b) ≡ itoa (pos (suc n)) str (pos b)
itoa_sign_lost n b str lo hi ne small room =
    itoa_lem (negsuc n) b lo hi str (omega (arith, length-text (negsuc n) b lo hi (omega arith)))
    ∙ ap (λ t. some (t ++ (0 ∷ drop (suc (length t)) str))) same
    ∙ sym (
        itoa_lem (pos (suc n)) b lo hi str
          (omega (arith, length-text (pos (suc n)) b lo hi (omega arith))))
  where
    same : text (negsuc n) b ≡ text (pos (suc n)) b
    same = ground arith

-- For a base below 2 (negative ones included) or above 36, `itoa` leaves the empty string in a
-- buffer that is not empty, and changes no byte behind the first.
pub itoa_unsupported :
    (v base : ℤ) (c : ℕ) (rest : List ℕ)
    → (ltb_ℤ base (pos 2) ≡ true) ⊎ (ltb_ℤ (pos 36) base ≡ true)
    → itoa v (c ∷ rest) base ≡ some (0 ∷ rest)
unfolding itoa store
itoa_unsupported v base c rest h = ground arith
