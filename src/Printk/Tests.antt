-- ===== src/Printk/Tests.antt =====
-- Formats that `render` evaluates, and the theorems of `printk` at concrete inputs.
use brunix.Prelude.{ℕ, ◌≡◌, refl, arith, some, none, ◌>>=◌, List, [], ◌∷◌, codes}
use brunix.Itoa.Numeral.{numeral, low_digits, digit}
use brunix.Vga.{Console, blank}
use brunix.Vga.Number.{word_text}
use brunix.Vga.Terminal.{Shows}
use brunix.Vga.Puts.{empty_terminal}
use brunix.Printk.{Arg, next_arg, printk}
use brunix.Printk.Render.{Words, printk-render}
use brunix.Printk.Formatter.{render, arg_text, hex_text, ptr_text, put_all}

abbrev number : ℕ → Arg
number n = record { word = n; target = none }

abbrev text_at : ℕ → List ℕ → Arg
text_at address str = record { word = address; target = some str }

abbrev start : Console
start = record {
  cells = λ _. blank;
  cursor_x = 0;
  cursor_y = 0;
  back_colour = 0;
  fore_colour = 15;
  trace = [];
}

start-Shows : Shows start empty_terminal
start-Shows = record { on = omega arith; col = refl; row = refl; cell = λ r k hr hk. refl }

formats :
    (render (codes "a %d%%") (number 42 ∷ []) ≡ some (codes "a 42bad specifier"))
    × (render (codes "%s:%x") (text_at 7 (codes "vga") ∷ number 255 ∷ []) ≡ some (codes "vga:0xff"))
    × (render (codes "%u") (number 0xffffffff ∷ []) ≡ some (codes "-1"))
    × (render (codes "%p") (number 8192 ∷ []) ≡ some (codes "0x2000(Pg2; 8KB)"))
    × (render (codes "%d %d") (number 1 ∷ []) ≡ none)
unfolding render arg_text hex_text ptr_text word_text next_arg numeral low_digits digit
formats = (refl, refl, refl, refl, refl)

abbrev ticks : List ℕ
ticks = codes "Clock: %u"

ticks-render : render ticks (number 7 ∷ []) ≡ some (codes "Clock: 7")
unfolding render arg_text word_text next_arg numeral low_digits digit
ticks-render = refl

ticks-Words : Words (number 7 ∷ [])
ticks-Words = omega arith

printk-render_example :
    printk ticks (number 7 ∷ []) start
    ≡ (render ticks (number 7 ∷ []) >>= λ t. some (put_all t start))
printk-render_example = printk-render ticks (number 7 ∷ []) start ticks-Words
