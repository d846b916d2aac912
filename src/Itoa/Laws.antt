-- ===== src/Itoa/Laws.antt =====
-- What `itoa` leaves in the buffer.
use brunix.Prelude.{
  ℕ, suc, ◌+◌, ◌-◌, ◌≤◌, ◌<◌, ◌^◌, ◌≡◌, ap, ◌∙◌, arith, ◌==◌, ◌&&◌, if◌then◌else◌, some, Bool-cases,
  inl, inr, ◌>>=◌, Bool, Option,
}
use brunix.Prelude.{
  List, [], ◌∷◌, ◌++◌, length, drop, append_assoc, length-append, length-reverse, split_at, ℤ, pos,
  nat_abs, ltb_ℤ, NoNul,
}
use brunix.Itoa.{store, emit, invert, sign, convert, itoa}
use brunix.Itoa.Numeral.{low_digits, numeral, NoNul-numeral, length-low_digits_pos, length-numeral}
use brunix.Itoa.Emit.{store-append, emit-append}
use brunix.Itoa.Invert.{invert-append}

-- A '-' stands before negative decimals only.
abbrev pub has_sign : ℤ → ℕ → Bool
has_sign v b = ltb_ℤ v (pos 0) && b == 10

abbrev pub text : ℤ → ℕ → List ℕ
text v b = if has_sign v b then b'-' ∷ numeral b (nat_abs v) else numeral b (nat_abs v)

abbrev finish : ℤ → ℕ → ℕ → List ℕ → Option (List ℕ)
finish v b low buf = emit (suc (nat_abs v)) v b low buf >>= λ (ptr, buf).
    store buf ptr 0 >>= invert (suc ptr) low (ptr - 1)

module _ (v : ℤ) (b : ℕ) (lo : 2 ≤ b) (hi : b ≤ 36) where
  finish-append :
      (pre old : List ℕ) (x : ℕ) (rest : List ℕ)
      → length old ≡ length (numeral b (nat_abs v))
      → finish v b (length pre) (pre ++ (old ++ (x ∷ rest)))
        ≡ some (pre ++ (numeral b (nat_abs v) ++ (0 ∷ rest)))
  unfolding numeral
  finish-append pre old x rest e =
      rw (emit-append (suc m) v b pre old (x ∷ rest) lo hi (omega arith) same) (
        rw (end, ← append_assoc pre lows (x ∷ rest), store-append (pre ++ lows) x 0 rest)
          (rw (append_assoc pre lows (0 ∷ rest)) (
            invert-append (suc (length (pre ++ lows))) pre lows (0 ∷ rest)
              (length (pre ++ lows) - 1) (omega (arith, length-append pre lows, some_digit))
              (omega (arith, length-append pre lows, some_digit)))))
    where
      m : ℕ
      m = nat_abs v

      lows : List ℕ
      lows = low_digits (suc m) m b

      same : length old ≡ length lows
      same = e ∙ length-reverse lows

      some_digit : 0 < length lows
      some_digit = length-low_digits_pos m m b

      end : length pre + length old ≡ length (pre ++ lows)
      end = omega (arith, same, length-append pre lows)

  convert-append :
      (old : List ℕ) (x : ℕ) (rest : List ℕ)
      → length old ≡ length (text v b)
      → convert v (old ++ (x ∷ rest)) b ≡ some (text v b ++ (0 ∷ rest))
  unfolding convert sign
  convert-append [] x rest e = elim (Bool-cases (has_sign v b)) [
    | inl t ↦
        (let e' : 0 ≡ suc (length (numeral b (nat_abs v))) = rw t at e in absurd (omega arith))
    | inr t ↦ rw t (finish-append [] [] x rest (rw t at e))
  ]
  convert-append (y ∷ old) x rest e = elim (Bool-cases (has_sign v b)) [
    | inl t ↦
        (let e' : suc (length old) ≡ suc (length (numeral b (nat_abs v))) = rw t at e in
          rw (t, store-append [] y b'-' (old ++ (x ∷ rest)))
            (finish-append (b'-' ∷ []) old x rest (omega arith)))
    | inr t ↦ rw t (finish-append [] (y ∷ old) x rest (rw t at e))
  ]

  -- With room for the text and its terminator, `itoa` leaves the text of the value in base `b`,
  -- a NUL, and the bytes behind them as they were.
  pub itoa_lem :
      (str : List ℕ)
      → length (text v b) < length str
      → itoa v str (pos b) ≡ some (text v b ++ (0 ∷ drop (suc (length (text v b))) str))
  unfolding itoa
  itoa_lem str room =
      let (old, x, e, split) = split_at (length (text v b)) str room in
      let checked : itoa v str (pos b) ≡ convert v str b = ground arith in
      checked
      ∙ ap (λ s. convert v s b) split
      ∙ convert-append old x (drop (suc (length (text v b))) str) e

  pub NoNul-text : NoNul (text v b)
  NoNul-text = elim (Bool-cases (has_sign v b)) [
    | inl t ↦ rw t (NoNul-numeral b (nat_abs v))
    | inr t ↦ rw t (NoNul-numeral b (nat_abs v))
  ]

  pub length-text : nat_abs v < 2 ^ 32 → length (text v b) ≤ 33
  length-text h = ground (arith, length-numeral 31 b (nat_abs v) lo h)
