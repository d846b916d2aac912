-- ===== src/Printk.antt =====
-- libkern/stdio.c: `printk`, and the macros of include/brunix/stdio.h.
-- A variadic argument is a 32-bit word; where it is a `char *`, it has the string that it points to.
-- `none` is an argument that is missing, or a `%s` of what is no string.
pub mod Conversion
pub mod Formatter
pub mod Render
pub mod Shows
pub mod Debug
mod Tests
use brunix.Prelude.{
  ℕ, zero, suc, ◌/◌, ◌==◌, ◌||◌, true, false, if◌then◌else◌, Option, some, none, ◌>>=◌, u32, List,
  [], ◌∷◌, ◌++◌, codes,
}
use brunix.Vga
use brunix.Vga.{Console, putc, puts, set_foreground_color}
use brunix.Vga.Number.{puthex, putdec, putbin}

-- `video_init`
unfoldable pub video_init : Console → Console
video_init s = Vga.init s

unfoldable pub set_fg_color : ℕ → Console → Console
set_fg_color colour s = set_foreground_color colour s

pub record Arg : Type 0 where
  pub word : ℕ
  pub target : Option (List ℕ)

-- `va_arg`
unfoldable pub next_arg : List Arg → Option (Arg × List Arg)
next_arg [] = none
next_arg (a ∷ args) = some (a, args)

-- What a conversion leaves: the arguments behind its own, or an early return.
pub data Step : Type 0 where
  go_on : List Arg → Console → Step
  returned : Console → Step

-- The case 'p': the address, its page and its kilobyte.
unfoldable pub putptr : ℕ → Console → Option Console
putptr hex s = puthex hex s >>= λ s. putdec (hex / 4096) (puts (codes "(Pg") s) >>= λ s.
    putdec (hex / 1024) (puts (codes "; ") s) >>= λ s. some (puts (codes "KB)") s)

-- The `switch (op)`.
unfoldable pub conversion : ℕ → List Arg → Console → Option Step
unfolding next_arg
conversion op args s =
    if op == b'c'
    then (next_arg args >>= λ (a, rest). some (go_on rest (putc a.word s)))
    else if op == b'd' || op == b'i' || op == b'u'
    then (next_arg args >>= λ (a, rest). putdec a.word s >>= λ s. some (go_on rest s))
    else if op == b'x' || op == b'X'
    then (next_arg args >>= λ (a, rest). puthex a.word s >>= λ s. some (go_on rest s))
    else if op == b'p'
    then (next_arg args >>= λ (a, rest). putptr (u32 a.word) s >>= λ s. some (go_on rest s))
    else if op == b'b' || op == b'B'
    then (next_arg args >>= λ (a, rest). putbin a.word s >>= λ s. some (go_on rest s))
    else if op == b's'
    then (next_arg args >>= λ (a, rest). a.target >>= λ str. some (go_on rest (puts str s)))
    else some (returned (puts (codes "bad specifier") s))

-- The `while` loop; the format ends at its first NUL, also behind a '%'.
unfoldable pub printk : List ℕ → List Arg → Console → Option Console
printk [] args s = some s
printk (zero ∷ fmt) args s = some s
printk (suc c ∷ []) args s =
    if suc c == b'%' then some (puts (codes "bad specifier") s) else some (putc (suc c) s)
printk (suc c ∷ op ∷ fmt) args s = elim (suc c == b'%') [
  | true ↦ conversion op args s >>= λ r. elim r [
    | go_on rest s' ↦ printk fmt rest s'
    | returned s' ↦ some s'
  ]
  | false ↦ printk (op ∷ fmt) args (putc (suc c) s)
]

abbrev pub color_light_grey : ℕ
color_light_grey = 0x07

abbrev pub color_white : ℕ
color_white = 0x0f

abbrev pub color_red : ℕ
color_red = 0x04

-- `debug(module_name, fmt, ...)`, and `debug_noargs` without arguments.
unfoldable pub debug : List ℕ → List ℕ → List Arg → Console → Option Console
unfolding set_fg_color
debug module_name fmt args s =
    printk (codes "[" ++ (module_name ++ (codes "]: " ++ (fmt ++ (10 ∷ []))))) args
      (set_fg_color color_light_grey s)
    >>= λ s. some (set_fg_color color_white s)

-- What `panic_noargs(msg)` prints before it halts for ever.
unfoldable pub panic_noargs : List ℕ → List ℕ → ℕ → Console → Option Console
unfolding set_fg_color
panic_noargs msg file line s =
    printk (codes "Kernel panic: " ++ (msg ++ codes " (%s:%d)"))
      (record { word = 0; target = some file } ∷ record { word = line; target = none } ∷ [])
      (set_fg_color color_red s)
