-- ===== src/Monitor/Prints.antt =====
-- printk.c: `printk` puts the text of its format and arguments.
use brunix.Prelude.{
  ℕ, suc, ◌≤◌, ◌≡◌, refl, sym, ap, ◌∙◌, arith, u32, leb, ◌==◌, ◌&&◌, ◌||◌, true, false, Bool-cases,
  inl, inr, Option, none, some, ◌>>=◌, All,
}
use brunix.Prelude.{List, [], ◌∷◌, ◌++◌, length, c_string}
use brunix.Printk.{Arg, next_arg}
use brunix.Monitor.{
  Library, Place, plain, percent, sized, Turn, next, returned, directive, turn, loop, printk,
}
use brunix.Monitor.Render.{
  arg_text, is_specifier, spec_text, Piece, text, end, piece, render, IsPlainArg, IsPlainTarget,
  put_str, IsLibrary,
}
use brunix.Monitor.Text.{Puts, decimal-Puts, unsigned-Puts}
use brunix.Monitor.Plain.{printk-IsPlain, put_str-append}

abbrev InRange : Place → Type 0
InRange plain = Unit {0}
InRange percent = Unit {0}
InRange (sized n) = n ≤ 9

module _ {S : Type 0} (lib : Library S) (laws : IsLibrary lib) (d : ℕ) where
  abbrev Conversion : Option (Turn S) → Option (List ℕ) → List Arg → S → Type 0
  Conversion = Puts lib laws

  target_Puts :
      (str : Option (List ℕ)) (rest : List Arg) (buf : List ℕ) (s : S)
      → IsPlainTarget str
      → length buf ≡ 16
      → Conversion
          (str >>= λ t. printk lib (suc (suc d)) t [] s >>= λ s. some (next plain rest buf s))
          (str >>= λ t. some (c_string t))
          rest
          s
  target_Puts none rest buf s flat l = refl
  target_Puts (some t) rest buf s flat l = (
    buf,
    ap (λ o. o >>= λ s. some (next plain rest buf s)) (printk-IsPlain lib (suc d) t [] s flat),
    l,
  )

  directive_Puts :
      (size c : ℕ) (a : Arg) (rest : List Arg) (buf : List ℕ) (s : S)
      → is_specifier c ≡ true
      → IsPlainArg a
      → size ≤ 9
      → length buf ≡ 16
      → Conversion
          (directive lib (printk lib (suc (suc d))) size c (a ∷ rest) buf s)
          (arg_text size c a)
          rest
          s
  unfolding directive next_arg put_str
  directive_Puts size c a rest buf s known flat small l = elim (Bool-cases (c == b'd')) [
    | inl e ↦ rw e (decimal-Puts lib laws d size (u32 a.word) rest buf s small (omega arith) l)
    | inr n1 ↦ rw n1 (elim (Bool-cases (c == b'u')) [
      | inl e ↦ rw e (
          unsigned-Puts lib laws d 10 size (u32 a.word) rest buf s (omega arith) small (omega arith)
            l)
      | inr n2 ↦ rw n2 (elim (Bool-cases (c == b'x' || c == b'X')) [
        | inl e ↦ rw e (
            unsigned-Puts lib laws d 16 size (u32 a.word) rest buf s (omega arith) small
              (omega arith) l)
        | inr n3 ↦ rw n3 (elim (Bool-cases (c == b'p')) [
          | inl e ↦ rw e (
              unsigned-Puts lib laws d 16 8 (u32 a.word) rest buf s (omega arith) (omega arith)
                (omega arith) l)
          | inr n4 ↦ rw n4 (elim (Bool-cases (c == b's')) [
            | inl e ↦ rw e (target_Puts a.target rest buf s flat l)
            | inr n5 ↦
                let last : (c == b'c') ≡ true = ground (arith, known, n1, n2, n3, n4, n5) in
                rw (n5, last) (buf, refl, l)
          ])
        ])
      ])
    ])
  ]

  directive_missing :
      (size c : ℕ) (buf : List ℕ) (s : S)
      → is_specifier c ≡ true
      → directive lib (printk lib (suc (suc d))) size c [] buf s ≡ none
  unfolding directive next_arg
  directive_missing size c buf s known = ground arith

  directive_other :
      (size c : ℕ) (args : List Arg) (buf : List ℕ) (s : S)
      → is_specifier c ≡ false
      → directive lib (printk lib (suc (suc d))) size c args buf s ≡ some (next plain args buf s)
  unfolding directive
  directive_other size c args buf s other = ground arith

  -- A turn of the loop does what the piece says, and leaves what the next one relies on.
  abbrev Follows : Option (Turn S) → Option Piece → S → Type 0
  Follows o none s = o ≡ none
  Follows o (some end) s = o ≡ some (returned s)
  Follows o (some (text t p args)) s =
      (buf : List ℕ) × (o ≡ some (next p args buf (put_str lib t s)))
      × (length buf ≡ 16)
      × InRange p
      × All IsPlainArg args

  Puts-Follows :
      (o : Option (Turn S)) (t : Option (List ℕ)) (rest : List Arg) (s : S)
      → All IsPlainArg rest
      → Conversion o t rest s
      → Follows o (t >>= λ t. some (text t plain rest)) s
  Puts-Follows o none rest s flat h = h
  Puts-Follows o (some t) rest s flat (buf, e, l) = (buf, e, l, tt, flat)

  directive-Follows :
      (size c : ℕ) (args : List Arg) (buf : List ℕ) (s : S)
      → All IsPlainArg args
      → size ≤ 9
      → length buf ≡ 16
      → Follows
          (directive lib (printk lib (suc (suc d))) size c args buf s)
          (spec_text size c args)
          s
  unfolding next_arg put_str
  directive-Follows size c args buf s flat small l = elim (Bool-cases (is_specifier c)) [
    | inr other ↦ rw other (buf, directive_other size c args buf s other, l, tt, flat)
    | inl known ↦ rw known (known_Follows args flat known)
  ]
    where
      known_Follows :
          (args : List Arg)
          → All IsPlainArg args
          → is_specifier c ≡ true
          → Follows
              (directive lib (printk lib (suc (suc d))) size c args buf s)
              (next_arg args >>= λ (a, rest). arg_text size c a >>= λ t. some (text t plain rest))
              s
      known_Follows [] flat known = directive_missing size c buf s known
      known_Follows (a ∷ rest) flat known =
          Puts-Follows (directive lib (printk lib (suc (suc d))) size c (a ∷ rest) buf s)
            (arg_text size c a) rest s flat.1
            (directive_Puts size c a rest buf s known flat.0 small l)

  turn-Follows :
      (p : Place) (c : ℕ) (args : List Arg) (buf : List ℕ) (s : S)
      → InRange p
      → All IsPlainArg args
      → length buf ≡ 16
      → Follows (turn lib (printk lib (suc (suc d))) p c args buf s) (piece p c args) s
  unfolding turn put_str
  turn-Follows plain c args buf s range flat l = elim (Bool-cases (c == 0)) [
    | inl e ↦ rw e refl
    | inr n ↦ rw n (elim (Bool-cases (c == b'%')) [
      | inl e ↦ rw e (buf, refl, l, tt, flat)
      | inr n2 ↦ rw n2 (buf, refl, l, tt, flat)
    ])
  ]
  turn-Follows percent c args buf s range flat l = elim (Bool-cases (leb b'0' c && leb c b'9')) [
    | inl e ↦ rw e (buf, refl, l, ground (arith, e), flat)
    | inr n ↦ rw n (directive-Follows 0 c args buf s flat (omega arith) l)
  ]
  turn-Follows (sized n) c args buf s range flat l = directive-Follows n c args buf s flat range l

  abbrev typed : S → Option (List ℕ) → Option S
  typed s o = o >>= λ t. some (put_str lib t s)

  typed-append :
      (t : List ℕ) (o : Option (List ℕ)) (s : S)
      → typed (put_str lib t s) o ≡ typed s (o >>= λ t'. some (t ++ t'))
  typed-append t none s = refl
  typed-append t (some t') s = ap some (sym (put_str-append lib t t' s))

  -- One turn, if what is behind it is printed as it is rendered.
  step :
      (fmt : List ℕ) (s : S) (o : Option (Turn S)) (q : Option Piece)
      → ((p : Place) (args : List Arg) (buf : List ℕ) (s : S)
          → InRange p
          → All IsPlainArg args
          → length buf ≡ 16
          → loop lib (printk lib (suc (suc d))) p fmt args buf s ≡ typed s (render p fmt args))
      → Follows o q s
      → (o >>= λ t. elim t [
        | returned s ↦ some s
        | next p args buf s ↦ loop lib (printk lib (suc (suc d))) p fmt args buf s
      ])
        ≡ typed s (
            q >>= λ r. elim r [
              | end ↦ some []
              | text t p args ↦ render p fmt args >>= λ t'. some (t ++ t')
            ])
  unfolding put_str
  step fmt s o none ih h = rw h refl
  step fmt s o (some end) ih h = rw h refl
  step fmt s o (some (text t p args)) ih (buf, e, l, range, flat) =
      rw e (ih p args buf (put_str lib t s) range flat l ∙ typed-append t (render p fmt args) s)

  loop-render :
      (p : Place) (fmt : List ℕ) (args : List Arg) (buf : List ℕ) (s : S)
      → InRange p
      → All IsPlainArg args
      → length buf ≡ 16
      → loop lib (printk lib (suc (suc d))) p fmt args buf s ≡ typed s (render p fmt args)
  unfolding loop render put_str
  loop-render plain [] args buf s range flat l = refl
  loop-render percent [] args buf s range flat l = refl
  loop-render (sized n) [] args buf s range flat l = refl
  loop-render p (c ∷ fmt) args buf s range flat l =
      step fmt s (turn lib (printk lib (suc (suc d))) p c args buf s) (piece p c args)
        (λ p args buf s range flat l. loop-render p fmt args buf s range flat l)
        (turn-Follows p c args buf s range flat l)

-- With `itoa`, `strlen` and `monitor_write` as their names say, and no '%' in the string arguments,
-- the older `printk` puts exactly the text of its format and arguments on the monitor, at every depth
-- from 3, and has no defined result exactly where there is no such text.
pub printk-put_str :
    {S : Type 0} (lib : Library S)
    → IsLibrary lib
    → (d : ℕ) (fmt : List ℕ) (args : List Arg) (s : S) → All IsPlainArg args
    → printk lib (suc (suc (suc d))) fmt args s
      ≡ (render plain fmt args >>= λ t. some (put_str lib t s))
unfolding printk
printk-put_str lib laws d fmt args s flat =
    loop-render lib laws d plain fmt args lib.stack s tt flat laws.stack_size
