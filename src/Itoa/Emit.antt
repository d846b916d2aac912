-- ===== src/Itoa/Emit.antt =====
-- The digit loop of `itoa` writes the digits of the absolute value, the least significant first.
use brunix.Prelude.{
  ℕ, zero, suc, ◌+◌, ◌/◌, ◌%◌, ◌≤◌, ◌<◌, ◌≡◌, refl, ◌∙◌, arith, ◌==◌, if◌then◌else◌, Bool-cases,
  inl, inr, some, append_assoc, length-append, set-append, ℤ, pos, negsuc, nat_abs, tmod, tdiv,
}
use brunix.Prelude.{Bool, true, false, Option, none, neg, true_below_sound}
use native.Mathlib.Nat.{mod-lt}
use brunix.Prelude.{List, [], ◌∷◌, ◌++◌, length, true_below}
use brunix.Itoa.{symbol, store, emit}
use brunix.Itoa.Numeral.{digit, low_digits, div_lt_fuel}

is_symbol : Option ℕ → ℕ → Bool
is_symbol none c = false
is_symbol (some d) c = d == c

is_symbol_sound : (o : Option ℕ) (c : ℕ) → is_symbol o c ≡ true → o ≡ some c
unfolding is_symbol
is_symbol_sound o c h = ground arith

symbol-pos_table : true_below 36 (λ r. is_symbol (symbol (pos r)) (digit r)) ≡ true
unfolding true_below is_symbol symbol digit
symbol-pos_table = refl

symbol-neg_table : true_below 36 (λ r. is_symbol (symbol (neg r)) (digit r)) ≡ true
unfolding true_below is_symbol symbol digit
symbol-neg_table = refl

-- The table holds the digit of the remainder, whatever its sign.
pub symbol-tmod :
    (v : ℤ) (b : ℕ) → 2 ≤ b → b ≤ 36 → symbol (tmod v b) ≡ some (digit (nat_abs v % b))
symbol-tmod (pos n) b lo hi =
    is_symbol_sound _ _ (
      true_below_sound 36 _ (n % b) symbol-pos_table
        (omega (arith, mod-lt n {m = b} (omega arith))))
symbol-tmod (negsuc n) b lo hi = is_symbol_sound _ _ (
    true_below_sound 36 _ (suc n % b) symbol-neg_table
      (omega (arith, mod-lt (suc n) {m = b} (omega arith))))

nat_abs-neg : (k : ℕ) → nat_abs (neg k) ≡ k
nat_abs-neg zero = refl
nat_abs-neg (suc k) = refl

pub nat_abs-tdiv : (v : ℤ) (b : ℕ) → nat_abs (tdiv v b) ≡ nat_abs v / b
nat_abs-tdiv (pos n) b = refl
nat_abs-tdiv (negsuc n) b = nat_abs-neg (suc n / b)

pub store-append :
    (pre : List ℕ) (x c : ℕ) (rest : List ℕ)
    → store (pre ++ (x ∷ rest)) (length pre) c ≡ some (pre ++ (c ∷ rest))
unfolding store
store-append pre x c rest = ground (arith, set-append pre x c rest, length-append pre (x ∷ rest))

-- One round, with the written digit counted to the prefix.
emit_step :
    (f : ℕ) (v : ℤ) (b : ℕ) (pre : List ℕ) (x : ℕ) (rest : List ℕ)
    → 2 ≤ b
    → b ≤ 36
    → let pre' = pre ++ (digit (nat_abs v % b) ∷ []) in
      emit (suc f) v b (length pre) (pre ++ (x ∷ rest)) ≡ (
        if nat_abs v / b == 0
        then some (length pre', pre' ++ rest)
        else emit f (tdiv v b) b (length pre') (pre' ++ rest))
unfolding emit
emit_step f v b pre x rest lo hi = rw (
  symbol-tmod v b lo hi,
  store-append pre x (digit (nat_abs v % b)) rest,
  nat_abs-tdiv v b,
  length-append pre (digit (nat_abs v % b) ∷ []),
  append_assoc pre (digit (nat_abs v % b) ∷ []) rest,
)

nil_of_length : (s : List ℕ) → length s ≡ 0 → s ≡ []
nil_of_length [] h = refl
nil_of_length (c ∷ s) h = absurd (omega arith)

pub emit-append :
    (f : ℕ) (v : ℤ) (b : ℕ) (pre old rest : List ℕ)
    → 2 ≤ b
    → b ≤ 36
    → nat_abs v < f
    → length old ≡ length (low_digits f (nat_abs v) b)
    → emit f v b (length pre) (pre ++ (old ++ rest))
      ≡ some (length pre + length old, pre ++ (low_digits f (nat_abs v) b ++ rest))
unfolding low_digits
emit-append zero v b pre old rest lo hi h e = absurd (omega arith)
emit-append (suc f) v b pre [] rest lo hi h e = absurd (omega arith)
emit-append (suc f) v b pre (x ∷ old) rest lo hi h e =
    emit_step f v b pre x (old ++ rest) lo hi ∙ elim (Bool-cases (nat_abs v / b == 0)) [
      | inl t ↦ ground (
        arith,
        length-append pre (digit (nat_abs v % b) ∷ []),
        append_assoc pre (digit (nat_abs v % b) ∷ []) (old ++ rest),
        nil_of_length old,
      )
      | inr t ↦ ground (
        arith,
        length-append pre (digit (nat_abs v % b) ∷ []),
        append_assoc pre (digit (nat_abs v % b) ∷ []) (low_digits f (nat_abs v / b) b ++ rest),
        div_lt_fuel f (nat_abs v) b lo h,
        nat_abs-tdiv v b,
        emit-append f (tdiv v b) b (pre ++ (digit (nat_abs v % b) ∷ [])) old rest lo hi,
      )
    ]
