-- ===== src/Monitor/Render.antt =====
-- printk.c against a formatter without a monitor.
use brunix.Prelude.{
  ℕ, zero, suc, ◌+◌, ◌-◌, ◌^◌, ◌<◌, ◌≡◌, u32, leb, ◌==◌, ◌&&◌, ◌||◌, Bool, false, if◌then◌else◌,
  Option, none, some, ◌>>=◌,
}
use brunix.Prelude.{List, [], ◌∷◌, ◌++◌, length, replicate, codes, c_string, NoNul}
use brunix.Itoa.Numeral.{numeral}
use brunix.Printk.{Arg, next_arg}
use brunix.Monitor.{Library, Place, plain, percent, sized}

-- A text brought to `size` bytes by '0' in front.
abbrev pub zero_fill : ℕ → List ℕ → List ℕ
zero_fill size t = replicate (size - length t) b'0' ++ t

-- What an `int` is printed as: its digits, and then once more with the sign and the padding.
abbrev pub decimal_text : ℕ → ℕ → Option (List ℕ)
decimal_text size w =
    if w == 2 ^ 31
    then none
    else if leb (2 ^ 31) w
    then some (numeral 10 (2 ^ 32 - w) ++ (b'-' ∷ zero_fill size (numeral 10 (2 ^ 32 - w))))
    else some (numeral 10 w ++ zero_fill size (numeral 10 w))

abbrev pub is_specifier : ℕ → Bool
is_specifier c =
    c == b'd'
    || (c == b'u' || (c == b'x' || (c == b'X' || (c == b'p' || (c == b's' || c == b'c')))))

-- The text of an argument under a specifier and a size.
abbrev pub arg_text : ℕ → ℕ → Arg → Option (List ℕ)
arg_text size c a =
    if c == b'd'
    then decimal_text size (u32 a.word)
    else if c == b'u'
    then some (zero_fill size (numeral 10 (u32 a.word)))
    else if c == b'x' || c == b'X'
    then some (codes "0x" ++ zero_fill size (numeral 16 (u32 a.word)))
    else if c == b'p'
    then some (codes "0x" ++ zero_fill 8 (numeral 16 (u32 a.word)))
    else if c == b's'
    then (a.target >>= λ str. some (c_string str))
    else some (a.word ∷ [])

-- What one character of the format gives: a text, with the place and the arguments behind it.
pub data Piece : Type 0 where
  text : List ℕ → Place → List Arg → Piece
  end : Piece

abbrev pub spec_text : ℕ → ℕ → List Arg → Option Piece
spec_text size c args =
    if is_specifier c
    then (next_arg args >>= λ (a, rest). arg_text size c a >>= λ t. some (text t plain rest))
    else some (text [] plain args)

abbrev pub piece : Place → ℕ → List Arg → Option Piece
piece plain c args =
    if c == 0
    then some end
    else if c == b'%'
    then some (text [] percent args)
    else some (text (c ∷ []) plain args)
piece percent c args =
    if leb b'0' c && leb c b'9' then some (text [] (sized (c - b'0')) args) else spec_text 0 c args
piece (sized n) c args = spec_text n c args

-- The text of a format and its arguments; there is none where the format ends inside a conversion.
unfoldable pub render : Place → List ℕ → List Arg → Option (List ℕ)
render p [] args = elim p [ plain ↦ some [] | percent ↦ none | sized n ↦ none ]
render p (c ∷ fmt) args = piece p c args >>= λ q. elim q [
  | end ↦ some []
  | text t p args ↦ render p fmt args >>= λ t'. some (t ++ t')
]

-- A string without '%' up to its first NUL.
abbrev pub IsPlain : List ℕ → Type 0
IsPlain [] = Unit {0}
IsPlain (zero ∷ str) = Unit {0}
IsPlain (suc c ∷ str) = ((suc c == b'%') ≡ false) × IsPlain str

abbrev pub IsPlainTarget : Option (List ℕ) → Type 0
IsPlainTarget none = Unit {0}
IsPlainTarget (some str) = IsPlain str

abbrev pub IsPlainArg : Arg → Type 0
IsPlainArg a = IsPlainTarget a.target

module _ {S : Type 0} (lib : Library S) where
  unfoldable pub put_str : List ℕ → S → S
  put_str [] s = s
  put_str (c ∷ t) s = put_str t (lib.monitor_put c s)

  -- What the file relies on of the functions that it calls: `itoa` leaves the digits and a NUL in a
  -- buffer that has room for them, `strlen` counts up to the NUL, `monitor_write` puts the bytes up to
  -- it, and `buf` has the 16 bytes of its declaration.
  pub record IsLibrary : Type 0 where
    pub itoa_leaves :
        (buf : List ℕ) (n b : ℕ)
        → length (numeral b n) < length buf
        → (rest : List ℕ) × (lib.itoa buf n b ≡ numeral b n ++ (0 ∷ rest))
          × (suc (length (numeral b n) + length rest) ≡ length buf)
    pub strlen_counts : (t rest : List ℕ) → NoNul t → lib.strlen (t ++ (0 ∷ rest)) ≡ length t
    pub monitor_write_puts :
        (t rest : List ℕ) (s : S) → NoNul t → lib.monitor_write (t ++ (0 ∷ rest)) s ≡ put_str t s
    pub stack_size : length lib.stack ≡ 16
