-- ===== src/Monitor/Text.antt =====
-- printk.c: the parts of `printk`, each with the text that it puts.
use native.Mathlib.Nat.{pow-le-pow_left}
use brunix.Prelude.{
  ℕ, suc, ◌+◌, ◌-◌, ◌^◌, ◌≤◌, ◌<◌, ◌≡◌, refl, sym, ap, ◌∙◌, arith, leb, ltb, ◌==◌, Bool, true,
  false, if◌then◌else◌, Bool-cases, inl, inr, Option, none, some, ◌>>=◌,
}
use brunix.Prelude.{
  List, [], ◌∷◌, ◌++◌, length, replicate, drop, codes, c_string, NoNul, length-append,
  length-replicate, append_assoc, c_string-append, length-drop,
}
use brunix.Itoa.Numeral.{numeral, NoNul-numeral, length-numeral_pow, NoPercent, NoPercent-numeral}
use brunix.Printk.{Arg}
use brunix.Monitor.{Library, plain, Turn, next, pointer_to, pad_to, decimal, unsigned, printk}
use brunix.Monitor.Pad.{pad-text}
use brunix.Monitor.Render.{zero_fill, decimal_text, IsPlain, put_str, IsLibrary}
use brunix.Monitor.Plain.{
  printk-IsPlain, printk_minus, printk_hex, put_str-append, NoPercent-IsPlain, NoNul-zero_fill,
  NoPercent-zero_fill,
}

module _ {S : Type 0} (lib : Library S) (laws : IsLibrary lib) where
  -- What the buffer holds behind `itoa` and the padding: a text, a NUL, and 16 bytes in all.
  abbrev Holds : List ℕ → List ℕ → Type 0
  Holds t buf = (rest : List ℕ) × (buf ≡ t ++ (0 ∷ rest)) × (length buf ≡ 16)

  Holds-string : (t buf : List ℕ) → NoNul t → Holds t buf → c_string buf ≡ t
  Holds-string t buf h (rest, e, l) = ap c_string e ∙ c_string-append t rest h

  Holds-IsPlain : (t buf : List ℕ) → NoPercent t → Holds t buf → IsPlain buf
  Holds-IsPlain t buf h (rest, e, l) = rw e (NoPercent-IsPlain t rest h)

  pad_to-Holds :
      (size : ℕ) (t buf : List ℕ)
      → NoNul t
      → size ≤ 9
      → Holds t buf
      → (out : List ℕ) × (pad_to lib size buf ≡ some out) × Holds (zero_fill size t) out
  unfolding pad_to
  pad_to-Holds size t buf nul small (rest, e, l) =
      let room : suc (length t + length rest) ≡ 16 =
        omega (arith, length-append t (0 ∷ rest), ap length e, l) in
      let count : lib.strlen buf ≡ length t = ap lib.strlen e ∙ laws.strlen_counts t rest nul in
      elim (Bool-cases (ltb (length t) size)) [
        | inl short ↦
            let m = size - length t in
            (
              zero_fill size t ++ (0 ∷ drop m rest),
              rw (count, short, e)
                  (pad-text size t rest (ground arith) (omega arith)
                    ∙ ap some (sym (append_assoc (replicate m b'0') t (0 ∷ drop m rest)))),
              (
                drop m rest,
                refl,
                omega (
                  arith,
                  length-append (zero_fill size t) (0 ∷ drop m rest),
                  length-append (replicate m b'0') t,
                  length-replicate {A = ℕ} m b'0',
                  length-drop m rest,
                ),
              ),
            )
        | inr long ↦
            let none_missing : size - length t ≡ 0 = ground arith in
            (buf, rw (count, long) refl, (rest, rw none_missing e, l))
      ]

  -- What `itoa` leaves for a 32-bit number in one of the two bases.
  digits-Holds :
      (b n : ℕ) (buf : List ℕ)
      → 10 ≤ b
      → n < 2 ^ 32
      → length buf ≡ 16
      → Holds (numeral b n) (lib.itoa buf n b)
  digits-Holds b n buf lo h l =
      let big = pow-le-pow_left lo 10 in
      let short = length-numeral_pow 9 b n (omega arith) (omega (arith, big)) in
      let (rest, e, size) = laws.itoa_leaves buf n b (omega (arith, short, l)) in
      (rest, e, ap length e ∙ omega (arith, size, l, length-append (numeral b n) (0 ∷ rest)))

  -- One conversion's outcome: a text that is put, or none.
  abbrev pub Puts : Option (Turn S) → Option (List ℕ) → List Arg → S → Type 0
  Puts o none rest s = o ≡ none
  Puts o (some t) rest s =
      (buf : List ℕ) × (o ≡ some (next plain rest buf (put_str lib t s))) × (length buf ≡ 16)

  pub unsigned-Puts :
      (d base size n : ℕ) (rest : List Arg) (buf : List ℕ) (s : S)
      → 10 ≤ base
      → size ≤ 9
      → n < 2 ^ 32
      → length buf ≡ 16
      → Puts
          (unsigned lib (printk lib (suc (suc d))) base size n rest buf s)
          (some (
            if base == 10
            then zero_fill size (numeral base n)
            else codes "0x" ++ zero_fill size (numeral base n)))
          rest
          s
  unfolding unsigned
  unsigned-Puts d base size n rest buf s lo small h l =
      let t = zero_fill size (numeral base n) in
      let held = digits-Holds base n buf lo h l in
      let (out, e, filled) =
        pad_to-Holds size (numeral base n) (lib.itoa buf n base) (NoNul-numeral base n) small
          held in
      let str =
        Holds-string t out (NoNul-zero_fill size (numeral base n) (NoNul-numeral base n)) filled in
      let flat =
        Holds-IsPlain t out (NoPercent-zero_fill size (numeral base n) (NoPercent-numeral base n))
          filled in
      elim (Bool-cases (base == 10)) [
        | inl ten ↦ (out, rw (e, ten, printk-IsPlain lib (suc d) out [] s flat, str) refl, filled.2)
        | inr hex ↦ (out, rw (e, hex, printk_hex lib d out s flat, str) refl, filled.2)
      ]

  -- The second time that an `int` is printed: the padded digits, behind a '-' or not.
  signed_call :
      (d : ℕ) (neg : Bool) (t out : List ℕ) (s : S)
      → NoNul t
      → NoPercent t
      → Holds t out
      → (if neg
          then printk lib (suc (suc d)) (codes "-%s") (pointer_to out ∷ []) s
          else printk lib (suc (suc d)) out [] s)
        ≡ some (put_str lib (if neg then b'-' ∷ t else t) s)
  signed_call d true t out s nul flat held =
      printk_minus lib d out s (Holds-IsPlain t out flat held)
      ∙ ap (λ u. some (put_str lib (b'-' ∷ u) s)) (Holds-string t out nul held)
  signed_call d false t out s nul flat held =
      printk-IsPlain lib (suc d) out [] s (Holds-IsPlain t out flat held)
      ∙ ap (λ u. some (put_str lib u s)) (Holds-string t out nul held)

  -- The `int` that is not the least one: its magnitude, printed twice.
  magnitude_Puts :
      (d size n : ℕ) (neg : Bool) (rest : List Arg) (buf : List ℕ) (s : S)
      → size ≤ 9
      → n < 2 ^ 32
      → length buf ≡ 16
      → let raw = lib.itoa buf n 10 in
        let s' = lib.monitor_write raw s in
        let fill = zero_fill size (numeral 10 n) in
        Puts
          (pad_to lib size raw >>= λ b.
            (if neg
              then printk lib (suc (suc d)) (codes "-%s") (pointer_to b ∷ []) s'
              else printk lib (suc (suc d)) b [] s')
            >>= λ s. some (next plain rest b s))
          (some (numeral 10 n ++ (if neg then b'-' ∷ fill else fill)))
          rest
          s
  magnitude_Puts d size n neg rest buf s small h l =
      let t = numeral 10 n in
      let raw = lib.itoa buf n 10 in
      let held = digits-Holds 10 n buf (omega arith) h l in
      let (out, e, filled) = pad_to-Holds size t raw (NoNul-numeral 10 n) small held in
      let s' = lib.monitor_write raw s in
      let written : s' ≡ put_str lib t s =
        ap (λ r. lib.monitor_write r s) held.1
        ∙ laws.monitor_write_puts t held.0 s (NoNul-numeral 10 n) in
      let fill = zero_fill size t in
      let second =
        signed_call d neg fill out s' (NoNul-zero_fill size t (NoNul-numeral 10 n))
          (NoPercent-zero_fill size t (NoPercent-numeral 10 n)) filled in
      let tail = if neg then b'-' ∷ fill else fill in
      (
        out,
        rw (e, second)
            (ap (λ s. some (next plain rest out s))
              (ap (put_str lib tail) written ∙ sym (put_str-append lib t tail s))),
        filled.2,
      )

  pub decimal-Puts :
      (d size w : ℕ) (rest : List Arg) (buf : List ℕ) (s : S)
      → size ≤ 9
      → w < 2 ^ 32
      → length buf ≡ 16
      → Puts (decimal lib (printk lib (suc (suc d))) size w rest buf s) (decimal_text size w) rest s
  unfolding decimal
  decimal-Puts d size w rest buf s small h l = elim (Bool-cases (w == 2 ^ 31)) [
    | inl least ↦ rw least refl
    | inr other ↦ rw other (elim (Bool-cases (leb (2 ^ 31) w)) [
      | inl neg ↦ rw neg (magnitude_Puts d size (2 ^ 32 - w) true rest buf s small (ground arith) l)
      | inr pos ↦ rw pos (magnitude_Puts d size w false rest buf s small h l)
    ])
  ]
