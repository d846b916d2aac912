-- ===== src/Printk/Debug.antt =====
-- include/brunix/stdio.h: where a debug message and a panic's leave the console.
use brunix.Prelude.{
  ℕ, ◌^◌, ◌<◌, ◌≡◌, refl, ap, ◌∙◌, arith, u8, some, none, ◌>>=◌, List, [], ◌∷◌, ◌++◌, codes,
}
use brunix.Vga.{Console, putc, place, wrap, scroll, move_cursor, set_foreground_color}
use brunix.Vga.Cursor.{IsOnScreen, putc-IsOnScreen}
use brunix.Pic.Controller.{controller}
use brunix.Printk.{Arg, debug, panic_noargs, set_fg_color, color_light_grey, color_white, color_red}
use brunix.Printk.Render.{Words, IsText, printk_returns}
use brunix.Printk.Formatter.{render, put_all}

fore-putc : (c : ℕ) (s : Console) → (putc c s).fore_colour ≡ s.fore_colour
unfolding putc place wrap scroll move_cursor
fore-putc c s = ground arith

fore-put_all : (t : List ℕ) (s : Console) → (put_all t s).fore_colour ≡ s.fore_colour
unfolding put_all
fore-put_all [] s = refl
fore-put_all (c ∷ t) s = fore-put_all t (putc c s) ∙ fore-putc c s

pub trace-settled : (c : ℕ) (s : Console) → (scroll (wrap (place c s))).trace ≡ s.trace
unfolding scroll wrap place
trace-settled c s = ground arith

controller-move_cursor :
    (s : Console)
    → (controller 0x20 (move_cursor s).trace ≡ controller 0x20 s.trace)
      × (controller 0xa0 (move_cursor s).trace ≡ controller 0xa0 s.trace)
unfolding move_cursor controller
controller-move_cursor s = (refl, refl)

-- The screen's ports are not the controllers'.
pub controller-putc :
    (c : ℕ) (s : Console)
    → (controller 0x20 (putc c s).trace ≡ controller 0x20 s.trace)
      × (controller 0xa0 (putc c s).trace ≡ controller 0xa0 s.trace)
unfolding putc
controller-putc c s =
    let e = trace-settled (u8 c) s in
    let (m, l) = controller-move_cursor (scroll (wrap (place (u8 c) s))) in
    (m ∙ ap (controller 0x20) e, l ∙ ap (controller 0xa0) e)

-- What printing leaves alone: a cursor on the screen stays there, and neither interrupt controller
-- is written to.
pub record Prints (s s' : Console) : Type 0 where
  pub on : IsOnScreen s → IsOnScreen s'
  pub master : controller 0x20 s'.trace ≡ controller 0x20 s.trace
  pub slave : controller 0xa0 s'.trace ≡ controller 0xa0 s.trace

pub put_all-Prints : (t : List ℕ) (s : Console) → Prints s (put_all t s)
unfolding put_all
put_all-Prints [] s = record { on = λ h. h; master = refl; slave = refl }
put_all-Prints (c ∷ t) s =
    let (m, l) = controller-putc c s in
    let p = put_all-Prints t (putc c s) in
    record { on = λ h. p.on (putc-IsOnScreen c s h); master = p.master ∙ m; slave = p.slave ∙ l }

pub set_fg_color-Prints : (c : ℕ) (s : Console) → Prints s (set_fg_color c s)
unfolding set_fg_color set_foreground_color
set_fg_color-Prints c s = record {
  on = λ h. record { column = h.column; row = h.row };
  master = refl;
  slave = refl;
}

pub Prints-trans : (a b c : Console) → Prints a b → Prints b c → Prints a c
Prints-trans a b c p q = record {
  on = λ h. q.on (p.on h);
  master = q.master ∙ p.master;
  slave = q.slave ∙ p.slave;
}

-- A debug message whose format has a text is printed.
pub debug_returns :
    (name fmt : List ℕ) (args : List Arg) (s : Console)
    → Words args
    → IsText (render (codes "[" ++ (name ++ (codes "]: " ++ (fmt ++ (10 ∷ []))))) args)
    → (s' : Console) × (debug name fmt args s ≡ some s') × Prints s s'
unfolding debug
debug_returns name fmt args s w h =
    let grey = set_fg_color color_light_grey s in
    let (t, e) =
      printk_returns (codes "[" ++ (name ++ (codes "]: " ++ (fmt ++ (10 ∷ []))))) args grey w h in
    (
      set_fg_color color_white (put_all t grey),
      ap (λ o. o >>= λ s. some (set_fg_color color_white s)) e,
      Prints-trans s (put_all t grey) _
          (Prints-trans s grey _ (set_fg_color-Prints color_light_grey s) (put_all-Prints t grey))
          (set_fg_color-Prints color_white (put_all t grey)),
    )

pub panic_returns :
    (msg file : List ℕ) (line : ℕ) (s : Console)
    → line < 2 ^ 32
    → IsText (
        render
          (codes "Kernel panic: " ++ (msg ++ codes " (%s:%d)"))
          (record { word = 0; target = some file } ∷ record { word = line; target = none } ∷ []))
    → (s' : Console) × (panic_noargs msg file line s ≡ some s') × (s'.fore_colour ≡ color_red)
unfolding panic_noargs set_fg_color set_foreground_color
panic_returns msg file line s small h =
    let red = record s { fore_colour = color_red } in
    let (t, e) =
      printk_returns (codes "Kernel panic: " ++ (msg ++ codes " (%s:%d)"))
        (record { word = 0; target = some file } ∷ record { word = line; target = none } ∷ []) red
        (omega arith) h in
    (put_all t red, e, fore-put_all t red)
