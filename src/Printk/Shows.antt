-- ===== src/Printk/Shows.antt =====
-- `printk` on the terminal: from a format and its arguments to what a user sees.
use mathlib.Core.Path.{subst}
use brunix.Prelude.{ℕ, ◌≡◌, refl, ap, ◌∙◌, u8, some, ◌>>=◌, List, [], ◌∷◌, ◌++◌, codes}
use brunix.Vga.{Console, putc, set_foreground_color}
use brunix.Vga.Terminal.{Terminal, Shows, type, colour_of}
use brunix.Vga.Terminal.Refine.{putc_refines}
use brunix.Vga.Puts.{type_all, colour-putc}
use brunix.Printk.{Arg, printk, debug, set_fg_color, color_light_grey, color_white}
use brunix.Printk.Render.{Words, printk-render}
use brunix.Printk.Formatter.{put_all, render}

pub put_all-Shows :
    (str : List ℕ) (s : Console) (t : Terminal)
    → Shows s t
    → Shows (put_all str s) (type_all (colour_of s) str t)
unfolding put_all type_all
put_all-Shows [] s t h = h
put_all-Shows (c ∷ str) s t h =
    subst (λ k. Shows (put_all str (putc c s)) (type_all k str (type (colour_of s) (u8 c) t)))
      (colour-putc c s) (put_all-Shows str (putc c s) _ (putc_refines s t h c))

pub colour-put_all : (str : List ℕ) (s : Console) → colour_of (put_all str s) ≡ colour_of s
unfolding put_all
colour-put_all [] s = refl
colour-put_all (c ∷ str) s = colour-put_all str (putc c s) ∙ colour-putc c s

-- Where a format and its 32-bit arguments have a text, `printk` returns, the screen shows what the
-- terminal shows after that text is typed in the current colours, and the colours are as before.
pub printk-Shows :
    (fmt : List ℕ) (args : List Arg) (s : Console) (t : Terminal) {str : List ℕ}
    → Words args
    → render fmt args ≡ some str
    → Shows s t
    → (s' : Console) × (printk fmt args s ≡ some s')
      × Shows s' (type_all (colour_of s) str t)
      × (colour_of s' ≡ colour_of s)
printk-Shows fmt args s t {str} w text h = (
  put_all str s,
  printk-render fmt args s w ∙ ap (λ o. o >>= λ t. some (put_all t s)) text,
  put_all-Shows str s t h,
  colour-put_all str s,
)

pub Shows-colour :
    (colour : ℕ) (s : Console) (t : Terminal) → Shows s t → Shows (set_fg_color colour s) t
unfolding set_fg_color set_foreground_color
Shows-colour colour s t h = record {
  on = record { column = h.on.column; row = h.on.row };
  col = h.col;
  row = h.row;
  cell = h.cell;
}

-- A message of `debug` appears in light grey as "[module]: text" on a line of its own, and the
-- foreground is white afterwards.
pub debug-Shows :
    (name fmt : List ℕ) (args : List Arg) (s : Console) (t : Terminal) {str : List ℕ}
    → Words args
    → render (codes "[" ++ (name ++ (codes "]: " ++ (fmt ++ (10 ∷ []))))) args ≡ some str
    → Shows s t
    → (s' : Console) × (debug name fmt args s ≡ some s')
      × Shows s' (type_all (colour_of (set_fg_color color_light_grey s)) str t)
      × (s'.fore_colour ≡ color_white)
unfolding debug
debug-Shows name fmt args s t {str} w text h =
    let grey = set_fg_color color_light_grey s in
    let (s', runs, shown, same) =
      printk-Shows (codes "[" ++ (name ++ (codes "]: " ++ (fmt ++ (10 ∷ []))))) args grey t w text
        (Shows-colour color_light_grey s t h) in
    (
      set_fg_color color_white s',
      ap (λ o. o >>= λ s. some (set_fg_color color_white s)) runs,
      Shows-colour color_white s' _ shown,
      unfold set_fg_color set_foreground_color in refl,
    )
