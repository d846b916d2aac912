-- ===== src/Vga/Number.antt =====
-- arch/x86/kernel/vga.c: the printing of numbers, `vga_write_number` and its three callers.
use native.Mathlib.Nat.{mod-eq_of_lt}
use native.Mathlib.Decide.{dec_lt}
use brunix.Prelude.{
  ℕ, zero, suc, ◌-◌, ◌≤◌, ◌<◌, ◌^◌, ◌≡◌, refl, arith, ltb, ◌==◌, if◌then◌else◌, ap, ◌∙◌, Option,
  some, ◌>>=◌, u32, signed32, nat_abs, sym, pos, negsuc, ℤ, List, [], ◌∷◌, replicate, codes,
  c_string,
}
use brunix.Itoa.{itoa}
use brunix.Itoa.Numeral.{numeral}
use brunix.Itoa.Laws.{text}
use brunix.Itoa.RoundTrip.{itoa_fits}
use brunix.Vga.{Console, putc, puts}

-- `char str[64+1]`. What the array holds before the call makes no difference: see `itoa_fits`.
abbrev pub str_buffer : List ℕ
str_buffer = replicate 65 0

-- The parameter of `itoa` is an `int`, so a `uint32_t` is read in two's complement.
unfoldable pub write_number : ℕ → ℤ → Console → Option Console
write_number n base s = itoa (signed32 (u32 n)) str_buffer base >>= λ str. some (puts str s)

unfoldable pub puthex : ℕ → Console → Option Console
unfolding write_number
puthex n s = write_number n (pos 16) (puts (codes "0x") s)

unfoldable pub putdec : ℕ → Console → Option Console
unfolding write_number
putdec n s = write_number n (pos 10) s

unfoldable pub putbin : ℕ → Console → Option Console
unfolding write_number
putbin n s = write_number n (pos 2) s

-- What is printed for an unsigned number: its numeral below 2 ^ 31, and from there on the numeral of
-- what is missing to 2 ^ 32, with a '-' in base 10 only.
unfoldable pub word_text : ℕ → ℕ → List ℕ
word_text b n =
    if ltb n (2 ^ 31)
    then numeral b n
    else if b == 10
    then b'-' ∷ numeral b (2 ^ 32 - n)
    else numeral b (2 ^ 32 - n)

pub puts-c_string : (str : List ℕ) (s : Console) → puts (c_string str) s ≡ puts str s
unfolding puts
puts-c_string [] s = refl
puts-c_string (zero ∷ str) s = refl
puts-c_string (suc c ∷ str) s = puts-c_string str (putc (suc c) s)

text-signed32 : (n b : ℕ) → n < 2 ^ 32 → text (signed32 n) b ≡ word_text b n
unfolding word_text
text-signed32 n b h = elim (dec_lt n (2 ^ 31)) [
  | yes p ↦ rw (low p) (ground arith)
  | no p ↦ rw (high p) (ground (arith, ap (numeral b) (rest p)))
]
  where
    low : n < 2 ^ 31 → signed32 n ≡ pos n
    low p = ground arith

    high : ¬ (n < 2 ^ 31) → signed32 n ≡ negsuc (2 ^ 32 - n - 1)
    high p = ground arith

    rest : ¬ (n < 2 ^ 31) → suc (2 ^ 32 - n - 1) ≡ 2 ^ 32 - n
    rest p = omega arith

-- Printing through the buffer prints the text of the value.
puts-itoa :
    (v : ℤ) (b : ℕ) (s : Console)
    → 2 ≤ b
    → b ≤ 36
    → nat_abs v ≤ 2 ^ 31
    → (itoa v str_buffer (pos b) >>= λ str. some (puts str s)) ≡ some (puts (text v b) s)
puts-itoa v b s lo hi small =
    let (out, runs, string) = itoa_fits v b str_buffer lo hi small (omega arith) in
    rw (runs, ← puts-c_string out s, string)

nat_abs-signed32 : (n : ℕ) → n < 2 ^ 32 → nat_abs (signed32 n) ≤ 2 ^ 31
nat_abs-signed32 n h = ground arith

-- For a base from 2 to 36 and every `uint32_t`, `vga_write_number` prints the digits of the number, or
-- for a number from 2 ^ 31 on the digits of its negation modulo 2 ^ 32, with '-' in front in base
-- 10, and never leaves its buffer.
pub write_number_lem :
    (n b : ℕ) (s : Console)
    → 2 ≤ b
    → b ≤ 36
    → n < 2 ^ 32
    → write_number n (pos b) s ≡ some (puts (word_text b n) s)
unfolding write_number
write_number_lem n b s lo hi h =
    rw
      (mod-eq_of_lt h, puts-itoa (signed32 n) b s lo hi (nat_abs-signed32 n h), text-signed32 n b h)

word_text_ambiguous : (n : ℕ) → 2 ^ 31 < n → n < 2 ^ 32 → word_text 16 n ≡ word_text 16 (2 ^ 32 - n)
unfolding word_text
word_text_ambiguous n lo hi = ground arith

-- `vga_puthex` prints a `uint32_t` above 2 ^ 31 like its negation modulo 2 ^ 32.
pub puthex_ambiguous :
    (n : ℕ) (s : Console) → 2 ^ 31 < n → n < 2 ^ 32 → puthex n s ≡ puthex (2 ^ 32 - n) s
unfolding puthex
puthex_ambiguous n s lo hi =
    write_number_lem n 16 (puts (codes "0x") s) (omega arith) (omega arith) hi
    ∙ ap (λ t. some (puts t (puts (codes "0x") s))) (word_text_ambiguous n lo hi)
    ∙ sym (
        write_number_lem (2 ^ 32 - n) 16 (puts (codes "0x") s) (omega arith) (omega arith)
          (omega arith))
