-- ===== src/Log/Steps.antt =====
-- libkern/stdio.c, include/brunix/stdio.h: one message after the other.
use mathlib.Core.Path.{subst}
use brunix.Prelude.{
  u8, ℕ, ◌^◌, ◌<◌, ◌≡◌, refl, ap, ◌∙◌, arith, some, none, ◌>>=◌, List, [], ◌∷◌, ◌++◌, codes,
}
use brunix.Io.{Trace}
use brunix.Vga.{Console, set_foreground_color, putc, place, wrap, scroll, move_cursor}
use brunix.Vga.Terminal.Refine.{putc_refines}
use brunix.Vga.Terminal.{type, Terminal, Shows}
use brunix.Vga.Puts.{type_all}
use brunix.Printk.{
  Arg, printk, debug, panic_noargs, set_fg_color, color_light_grey, color_white, color_red,
}
use brunix.Printk.Debug.{Prints-trans, put_all-Prints, set_fg_color-Prints}
use brunix.Printk.Formatter.{render, put_all}
use brunix.Printk.Render.{Words, printk-render}
use brunix.Printk.Shows.{put_all-Shows, Shows-colour}
use brunix.Kernel.{Kernel, Outcome, halted, ◌|>◌, on_console, print}
use brunix.Log.{Plain, Displays}

-- Printing keeps both colours.
colours-putc :
    (c : ℕ) (s : Console)
    → ((putc c s).back_colour ≡ s.back_colour) × ((putc c s).fore_colour ≡ s.fore_colour)
unfolding putc place wrap scroll move_cursor
colours-putc c s = (ground arith, ground arith)

colours-put_all :
    (t : List ℕ) (s : Console)
    → ((put_all t s).back_colour ≡ s.back_colour) × ((put_all t s).fore_colour ≡ s.fore_colour)
unfolding put_all
colours-put_all [] s = (refl, refl)
colours-put_all (c ∷ t) s =
    let (b, f) = colours-putc c s in let (b', f') = colours-put_all t (putc c s) in (b' ∙ b, f' ∙ f)

-- A text in the colours of the console.
printk-put_all :
    (fmt : List ℕ) (args : List Arg) (text : List ℕ) (s : Console)
    → Words args
    → render fmt args ≡ some text
    → printk fmt args s ≡ some (put_all text s)
printk-put_all fmt args text s w e =
    printk-render fmt args s w ∙ ap (λ o. o >>= λ t. some (put_all t s)) e

-- A text in a foreground colour, from a console in white on black.
in_colour :
    (colour : ℕ) (text : List ℕ) (s : Console) (t : Terminal)
    → colour < 16
    → Plain s t
    → Shows (put_all text (set_fg_color colour s)) (type_all colour text t)
unfolding set_fg_color set_foreground_color
in_colour colour text s t h p =
    let s1 = set_fg_color colour s in
    subst (λ c. Shows (put_all text s1) (type_all c text t)) (omega (arith, p.back))
      (put_all-Shows text s1 t (Shows-colour colour s t p.shows))

pub print-Displays :
    (fmt : List ℕ) (args : List Arg) (k : Kernel) (t : Terminal) {text : List ℕ}
    → Words args
    → render fmt args ≡ some text
    → Plain k.con t
    → Displays (print fmt args k) k (type_all 15 text t)
print-Displays fmt args k t {text} w e p =
    let (b, f) = colours-put_all text k.con in
    record {
      con = put_all text k.con;
      runs = ap (λ o. on_console o k) (printk-put_all fmt args text k.con w e);
      plain = record {
        shows =
            subst (λ c. Shows (put_all text k.con) (type_all c text t))
              (omega (arith, p.back, p.fore)) (put_all-Shows text k.con t p.shows);
        back = b ∙ p.back;
        fore = f ∙ p.fore;
      };
      prints = put_all-Prints text k.con;
    }

pub debug-Displays :
    (name fmt : List ℕ) (args : List Arg) (k : Kernel) (t : Terminal) {text : List ℕ}
    → Words args
    → render (codes "[" ++ (name ++ (codes "]: " ++ (fmt ++ (10 ∷ []))))) args ≡ some text
    → Plain k.con t
    → Displays (on_console (debug name fmt args k.con) k) k (type_all 7 text t)
unfolding debug
debug-Displays name fmt args k t {text} w e p =
    let s = put_all text (set_fg_color color_light_grey k.con) in
    let (b, _) = colours-put_all text (set_fg_color color_light_grey k.con) in
    record {
      con = set_fg_color color_white s;
      runs =
          ap (λ o. on_console (o >>= λ s. some (set_fg_color color_white s)) k)
            (printk-put_all _ args text _ w e);
      plain = record {
        shows =
            Shows-colour color_white s _ (in_colour color_light_grey text k.con t (omega arith) p);
        back = unfold set_fg_color set_foreground_color in (b ∙ p.back);
        fore = unfold set_fg_color set_foreground_color in refl;
      };
      prints =
          Prints-trans k.con _ _
            (Prints-trans k.con _ _ (set_fg_color-Prints color_light_grey k.con)
              (put_all-Prints text (set_fg_color color_light_grey k.con)))
            (set_fg_color-Prints color_white s);
    }

-- A panic halts, and its message is in red.
pub panic_displays :
    (msg file : List ℕ) (line : ℕ) (k : Kernel) (t : Terminal) {text : List ℕ}
    → line < 2 ^ 32
    → render
        (codes "Kernel panic: " ++ (msg ++ codes " (%s:%d)"))
        (record { word = 0; target = some file } ∷ record { word = line; target = none } ∷ [])
      ≡ some text
    → Plain k.con t
    → (c : Console) × ((on_console (panic_noargs msg file line k.con) k |> halted)
        ≡ halted (record k { con = c }))
      × Shows c (type_all 4 text t)
      × (c.fore_colour ≡ color_red)
unfolding panic_noargs
panic_displays msg file line k t {text} h e p =
    let s = set_fg_color color_red k.con in
    let (_, f) = colours-put_all text s in
    (
      put_all text s,
      ap (λ o. on_console o k |> halted) (printk-put_all _ _ text s (omega arith) e),
      in_colour color_red text k.con t (omega arith) p,
      f ∙ unfold set_fg_color set_foreground_color in refl,
    )

pub chain :
    (o : Outcome) (k : Kernel) (f : Kernel → Outcome) {t t' : Terminal}
    → Displays o k t
    → ((c : Console) → Plain c t → Displays (f (record k { con = c })) (record k { con = c }) t')
    → Displays (o |> f) k t'
chain o k f d g =
    let e = g d.con d.plain in
    record {
      con = e.con;
      runs = ap (λ o. o |> f) d.runs ∙ e.runs;
      plain = e.plain;
      prints = Prints-trans k.con d.con e.con d.prints e.prints;
    }

-- A change of the trace is not seen.
pub Plain-trace :
    (s : Console) (t : Terminal) (u : Trace) → Plain s t → Plain (record s { trace = u }) t
Plain-trace s t u p = record {
  shows = record {
    on = record { column = p.shows.on.column; row = p.shows.on.row };
    col = p.shows.col;
    row = p.shows.row;
    cell = p.shows.cell;
  };
  back = p.back;
  fore = p.fore;
}

-- A single byte.
pub Plain-putc :
    (c : ℕ) (s : Console) (t : Terminal) → Plain s t → Plain (putc c s) (type_all 15 (c ∷ []) t)
unfolding type_all
Plain-putc c s t p =
    let (b, f) = colours-putc c s in
    record {
      shows =
          subst (λ k. Shows (putc c s) (type k (u8 c) t)) (omega (arith, p.back, p.fore))
            (putc_refines s t p.shows c);
      back = b ∙ p.back;
      fore = f ∙ p.fore;
    }
