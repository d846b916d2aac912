-- ===== src/Printk/Formatter.antt =====
-- The text of a format and its arguments, without a screen.
use brunix.Prelude.{
  ℕ, zero, suc, ◌/◌, ◌==◌, ◌||◌, if◌then◌else◌, Bool, true, false, Option, some, ◌>>=◌,
}
use brunix.Prelude.{List, [], ◌∷◌, ◌++◌, codes, c_string}
use brunix.Vga.{Console, putc}
use brunix.Vga.Number.{word_text}
use brunix.Printk.{Arg, next_arg}

-- Bytes put one after the other; a NUL among them is put too.
unfoldable pub put_all : List ℕ → Console → Console
put_all [] s = s
put_all (c ∷ t) s = put_all t (putc c s)

abbrev pub is_specifier : ℕ → Bool
is_specifier op =
    op == b'c'
    || (op == b'd'
        || (op == b'i'
            || (op == b'u'
                || (op == b'x'
                    || (op == b'X'
                        || (op == b'p' || (op == b'b' || (op == b'B' || op == b's'))))))))

unfoldable pub hex_text : ℕ → List ℕ
hex_text w = codes "0x" ++ word_text 16 w

unfoldable pub ptr_text : ℕ → List ℕ
unfolding hex_text
ptr_text w =
    hex_text w
    ++ (codes "(Pg"
        ++ (word_text 10 (w / 4096) ++ (codes "; " ++ (word_text 10 (w / 1024) ++ codes "KB)"))))

-- The text of one argument under a specifier; `none` for a `%s` of what is no string.
unfoldable pub arg_text : ℕ → Arg → Option (List ℕ)
arg_text op a =
    if op == b'c'
    then some (a.word ∷ [])
    else if op == b's'
    then (a.target >>= λ str. some (c_string str))
    else if op == b'p'
    then some (ptr_text a.word)
    else if op == b'x' || op == b'X'
    then some (hex_text a.word)
    else if op == b'b' || op == b'B'
    then some (word_text 2 a.word)
    else some (word_text 10 a.word)

-- The whole text. A specifier that is not known ends it.
unfoldable pub render : List ℕ → List Arg → Option (List ℕ)
render [] args = some []
render (zero ∷ fmt) args = some []
render (suc c ∷ []) args = some (if suc c == b'%' then codes "bad specifier" else suc c ∷ [])
render (suc c ∷ op ∷ fmt) args = elim (suc c == b'%') [
  | false ↦ render (op ∷ fmt) args >>= λ t. some (suc c ∷ t)
  | true ↦
      if is_specifier op
      then (next_arg args >>= λ (a, rest).
          arg_text op a >>= λ t. render fmt rest >>= λ t'. some (t ++ t'))
      else some (codes "bad specifier")
]
