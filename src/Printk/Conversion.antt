-- ===== src/Printk/Conversion.antt =====
-- libkern/stdio.c: what each conversion puts.
use brunix.Prelude.{
  ℕ, zero, suc, ◌-◌, ◌/◌, ◌<◌, ◌^◌, ◌≡◌, refl, arith, ltb, ◌==◌, ap, ◌∙◌, true, false, Bool-cases,
  inl, inr, Option, some, none, ◌>>=◌, sym,
}
use brunix.Prelude.{List, [], ◌∷◌, ◌++◌, codes, c_string, c_string-NoNul}
use brunix.Itoa.Numeral.{NoNul-numeral}
use brunix.Vga.{Console, putc, puts}
use brunix.Vga.Number.{word_text, puthex, putdec, putbin, write_number_lem}
use brunix.Printk.{Arg, go_on, returned, putptr, conversion}
use brunix.Printk.Formatter.{put_all, is_specifier, hex_text, ptr_text, arg_text}

pub put_all-append : (t t' : List ℕ) (s : Console) → put_all (t ++ t') s ≡ put_all t' (put_all t s)
unfolding put_all
put_all-append [] t' s = refl
put_all-append (c ∷ t) t' s = put_all-append t t' (putc c s)

pub puts-put_all : (str : List ℕ) (s : Console) → puts str s ≡ put_all (c_string str) s
unfolding puts put_all
puts-put_all [] s = refl
puts-put_all (zero ∷ str) s = refl
puts-put_all (suc c ∷ str) s = puts-put_all str (putc (suc c) s)

pub c_string-word_text : (b n : ℕ) → c_string (word_text b n) ≡ word_text b n
unfolding word_text
c_string-word_text b n = c_string-NoNul (word_text b n) (elim (Bool-cases (ltb n (2 ^ 31))) [
  | inl e ↦ rw e (NoNul-numeral b n)
  | inr e ↦ rw e (elim (Bool-cases (b == 10)) [
    | inl t ↦ rw t (NoNul-numeral b (2 ^ 32 - n))
    | inr t ↦ rw t (NoNul-numeral b (2 ^ 32 - n))
  ])
])

pub puts-word_text : (b n : ℕ) (s : Console) → puts (word_text b n) s ≡ put_all (word_text b n) s
puts-word_text b n s =
    puts-put_all (word_text b n) s ∙ ap (λ t. put_all t s) (c_string-word_text b n)

pub putdec-eq : (n : ℕ) (s : Console) → n < 2 ^ 32 → putdec n s ≡ some (put_all (word_text 10 n) s)
unfolding putdec
putdec-eq n s h =
    write_number_lem n 10 s (omega arith) (omega arith) h ∙ ap some (puts-word_text 10 n s)

pub putbin-eq : (n : ℕ) (s : Console) → n < 2 ^ 32 → putbin n s ≡ some (put_all (word_text 2 n) s)
unfolding putbin
putbin-eq n s h =
    write_number_lem n 2 s (omega arith) (omega arith) h ∙ ap some (puts-word_text 2 n s)

pub puthex-eq : (n : ℕ) (s : Console) → n < 2 ^ 32 → puthex n s ≡ some (put_all (hex_text n) s)
unfolding puthex hex_text
puthex-eq n s h =
    write_number_lem n 16 (puts (codes "0x") s) (omega arith) (omega arith) h
    ∙ ap some (
        puts-word_text 16 n (puts (codes "0x") s)
        ∙ ap (put_all (word_text 16 n)) (puts-put_all (codes "0x") s)
        ∙ sym (put_all-append (codes "0x") (word_text 16 n) s))

pub putptr-eq : (n : ℕ) (s : Console) → n < 2 ^ 32 → putptr n s ≡ some (put_all (ptr_text n) s)
unfolding putptr ptr_text put_all
putptr-eq n s h =
    rw
      (
        puthex-eq n s h,
        putdec-eq (n / 4096) (puts (codes "(Pg") (put_all (hex_text n) s)) (omega arith),
        putdec-eq (n / 1024) _ (omega arith),
      )
      (simp (puts-put_all, put_all-append))

pub target-eq :
    (o : Option (List ℕ)) (rest : List Arg) (s : Console)
    → (o >>= λ str. some (go_on rest (puts str s)))
      ≡ (o >>= λ str. some (c_string str) >>= λ t. some (go_on rest (put_all t s)))
target-eq none rest s = refl
target-eq (some str) rest s = ap (λ s'. some (go_on rest s')) (puts-put_all str s)

pub conversion-eq :
    (op : ℕ) (a : Arg) (rest : List Arg) (s : Console)
    → a.word < 2 ^ 32
    → is_specifier op ≡ true
    → conversion op (a ∷ rest) s ≡ (arg_text op a >>= λ t. some (go_on rest (put_all t s)))
unfolding conversion arg_text put_all
conversion-eq op a rest s h e = ground (
  arith,
  putdec-eq a.word s h,
  puthex-eq a.word s h,
  putbin-eq a.word s h,
  putptr-eq a.word s h,
  target-eq a.target rest s,
)

pub conversion-missing : (op : ℕ) (s : Console) → is_specifier op ≡ true → conversion op [] s ≡ none
unfolding conversion
conversion-missing op s e = ground arith

pub conversion-bad :
    (op : ℕ) (args : List Arg) (s : Console)
    → is_specifier op ≡ false
    → conversion op args s ≡ some (returned (puts (codes "bad specifier") s))
unfolding conversion
conversion-bad op args s e = ground arith
