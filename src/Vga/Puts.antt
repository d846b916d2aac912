-- ===== src/Vga/Puts.antt =====
-- `vga_puts` and `vga_clear` on the terminal.
use mathlib.Core.Path.{subst}
use brunix.Prelude.{ℕ, zero, suc, ◌+◌, ◌*◌, ◌≡◌, refl, arith, u8, List, [], ◌∷◌, c_string}
use brunix.Vga.{Console, blank, move_cursor, scroll, place, wrap, putc, clear, puts}
use brunix.Vga.Scroll.{fill-cell}
use brunix.Vga.Terminal.{Terminal, Shows, type, colour_of}
use brunix.Vga.Terminal.Refine.{putc_refines}

-- The bytes of a text, typed one after the other.
unfoldable pub type_all : ℕ → List ℕ → Terminal → Terminal
type_all colour [] t = t
type_all colour (c ∷ str) t = type_all colour str (type colour (u8 c) t)

-- The colours are the console's own.
pub colour-putc : (c : ℕ) (s : Console) → colour_of (putc c s) ≡ colour_of s
unfolding putc move_cursor scroll wrap place
colour-putc c s = ground arith

-- `vga_puts` shows what the terminal shows after the string up to its first NUL is typed in the
-- current colours.
pub puts_refines :
    (str : List ℕ) (s : Console) (t : Terminal)
    → Shows s t
    → Shows (puts str s) (type_all (colour_of s) (c_string str) t)
unfolding puts type_all
puts_refines [] s t h = h
puts_refines (zero ∷ str) s t h = h
puts_refines (suc c ∷ str) s t h =
    subst
      (λ colour.
        Shows (puts str (putc (suc c) s))
          (type_all colour (c_string str) (type (colour_of s) (u8 (suc c)) t)))
      (colour-putc (suc c) s)
      (puts_refines str (putc (suc c) s) (type (colour_of s) (u8 (suc c)) t)
        (putc_refines s t h (suc c)))

abbrev pub empty_terminal : Terminal
empty_terminal = record { col = 0; row = 0; cell = λ _ _. blank }

-- `vga_clear` shows the empty terminal, whatever the state before it, and writes no cell behind the
-- screen.
pub clear_lem :
    (s : Console)
    → Shows (clear s) empty_terminal × ((j : ℕ) → (clear s).cells (2000 + j) ≡ s.cells (2000 + j))
unfolding clear move_cursor
clear_lem s = (
  record {
    on = ground arith;
    col = refl;
    row = refl;
    cell = λ r k hr hk. ground (arith, fill-cell 0 2000 s.cells (r * 80 + k));
  },
  λ j. ground (arith, fill-cell 0 2000 s.cells (2000 + j)),
)
