-- ===== src/Printk/Render.antt =====
-- `printk` against a formatter without a screen: the text of a format and its arguments.
use brunix.Prelude.{
  ℕ, zero, suc, ◌<◌, ◌^◌, ◌≡◌, refl, arith, ◌==◌, if◌then◌else◌, ap, ◌∙◌, true, false, Bool-cases,
  inl, inr, Option, some, none, ◌>>=◌, sym,
}
use brunix.Prelude.{List, [], ◌∷◌, ◌++◌, All, codes}
use brunix.Vga.{Console, putc}
use brunix.Printk.{Step, Arg, next_arg, go_on, returned, conversion, printk}
use brunix.Printk.Formatter.{put_all, is_specifier, arg_text, render}
use brunix.Printk.Conversion.{
  put_all-append, puts-put_all, conversion-eq, conversion-missing, conversion-bad,
}

abbrev pub Words : List Arg → Type 0
Words args = All (λ (a : Arg). a.word < 2 ^ 32) args

abbrev after : List ℕ → Step → Option Console
after fmt r = elim r [ go_on rest s ↦ printk fmt rest s | returned s ↦ some s ]

printk-plain :
    (c op : ℕ) (fmt : List ℕ) (args : List Arg) (s : Console)
    → (suc c == b'%') ≡ false
    → printk (suc c ∷ op ∷ fmt) args s ≡ printk (op ∷ fmt) args (putc (suc c) s)
unfolding printk
printk-plain c op fmt args s e = rw (e, printk)

printk-specifier :
    (c op : ℕ) (fmt : List ℕ) (args : List Arg) (s : Console)
    → (suc c == b'%') ≡ true
    → printk (suc c ∷ op ∷ fmt) args s ≡ (conversion op args s >>= after fmt)
unfolding printk
printk-specifier c op fmt args s e = rw (e, printk)

render-plain :
    (c op : ℕ) (fmt : List ℕ) (args : List Arg)
    → (suc c == b'%') ≡ false
    → render (suc c ∷ op ∷ fmt) args ≡ (render (op ∷ fmt) args >>= λ t. some (suc c ∷ t))
unfolding render
render-plain c op fmt args e = rw (e, render)

render-specifier :
    (c op : ℕ) (fmt : List ℕ) (args : List Arg)
    → (suc c == b'%') ≡ true
    → render (suc c ∷ op ∷ fmt) args ≡ (
        if is_specifier op
        then (next_arg args >>= λ (a, rest).
            arg_text op a >>= λ t. render fmt rest >>= λ t'. some (t ++ t'))
        else some (codes "bad specifier"))
unfolding render
render-specifier c op fmt args e = rw (e, render)

-- What a console becomes by a text, if there is one.
abbrev typed : Console → Option (List ℕ) → Option Console
typed s o = o >>= λ t. some (put_all t s)

typed-cons :
    (c : ℕ) (o : Option (List ℕ)) (s : Console)
    → typed (putc c s) o ≡ typed s (o >>= λ t. some (c ∷ t))
unfolding put_all
typed-cons c none s = refl
typed-cons c (some t) s = refl

typed-append :
    (t : List ℕ) (o : Option (List ℕ)) (s : Console)
    → typed (put_all t s) o ≡ typed s (o >>= λ t'. some (t ++ t'))
typed-append t none s = refl
typed-append t (some t') s = ap some (sym (put_all-append t t' s))

after-text :
    (fmt : List ℕ) (rest : List Arg) (s : Console) (o : Option (List ℕ))
    → ((t : List ℕ) → printk fmt rest (put_all t s) ≡ typed (put_all t s) (render fmt rest))
    → ((o >>= λ t. some (go_on rest (put_all t s))) >>= after fmt)
      ≡ typed s (o >>= λ t. render fmt rest >>= λ t'. some (t ++ t'))
after-text fmt rest s none ih = refl
after-text fmt rest s (some t) ih = ih t ∙ typed-append t (render fmt rest) s

-- A known specifier, if the rest of the format is printed as it is rendered.
specified :
    (op : ℕ) (fmt : List ℕ) (args : List Arg) (s : Console)
    → Words args
    → is_specifier op ≡ true
    → ((rest : List Arg) (s' : Console)
        → Words rest
        → printk fmt rest s' ≡ typed s' (render fmt rest))
    → (conversion op args s >>= after fmt)
      ≡ typed s (
          next_arg args >>= λ (a, rest).
          arg_text op a >>= λ t. render fmt rest >>= λ t'. some (t ++ t'))
unfolding next_arg
specified op fmt [] s h good ih = rw (conversion-missing op s good)
specified op fmt (a ∷ rest) s h good ih =
    rw (conversion-eq op a rest s h.0 good)
      (after-text fmt rest s (arg_text op a) (λ t. ih rest (put_all t s) h.1))

-- For arguments of 32 bits, `printk` puts exactly the text of its format and arguments on the screen,
-- and faults exactly if that has none.
pub printk-render :
    (fmt : List ℕ) (args : List Arg) (s : Console)
    → Words args
    → printk fmt args s ≡ (render fmt args >>= λ t. some (put_all t s))
printk-render [] args s h = unfold printk render put_all in refl
printk-render (zero ∷ fmt) args s h = unfold printk render put_all in refl
printk-render (suc c ∷ []) args s h =
    unfold printk render put_all in ground (arith, puts-put_all (codes "bad specifier") s)
printk-render (suc c ∷ op ∷ fmt) args s h = elim (Bool-cases (suc c == b'%')) [
  | inr e ↦
      rw (printk-plain c op fmt args s e, render-plain c op fmt args e)
        (printk-render (op ∷ fmt) args (putc (suc c) s) h
          ∙ typed-cons (suc c) (render (op ∷ fmt) args) s)
  | inl e ↦
      rw (printk-specifier c op fmt args s e, render-specifier c op fmt args e)
        (elim (Bool-cases (is_specifier op)) [
          | inr bad ↦ rw (conversion-bad op args s bad, bad) (ap some (puts-put_all _ s))
          | inl good ↦
              rw good (specified op fmt args s h good (λ rest s'. printk-render fmt rest s'))
        ])
]

-- A format that has a text for its arguments.
abbrev pub IsText : Option (List ℕ) → Type 0
IsText none = ⊥
IsText (some t) = Unit {0}

printk-runs :
    (fmt : List ℕ) (args : List Arg) (s : Console)
    → Words args
    → (o : Option (List ℕ)) → render fmt args ≡ o
    → IsText o
    → (t : List ℕ) × (printk fmt args s ≡ some (put_all t s))
printk-runs fmt args s w none e h = absurd h
printk-runs fmt args s w (some t) e h = (t, printk-render fmt args s w ∙ ap (typed s) e)

-- Then `printk` returns, with some text put on the console.
pub printk_returns :
    (fmt : List ℕ) (args : List Arg) (s : Console)
    → Words args
    → IsText (render fmt args)
    → (t : List ℕ) × (printk fmt args s ≡ some (put_all t s))
printk_returns fmt args s w h = printk-runs fmt args s w (render fmt args) refl h
