-- ===== src/Vga/Cursor.antt =====
-- Where the cursor is: on the screen, after every operation.
use brunix.Prelude.{
  ℕ, zero, suc, ◌+◌, ◌-◌, ◌*◌, ◌/◌, ◌≤◌, ◌<◌, ◌^◌, ◌≡◌, refl, arith, ◌==◌, bit_and, u8, true_below,
  true_below_sound, true, ==_iff, List, [], ◌∷◌,
}
use brunix.Vga.{Console, move_cursor, scroll, place, wrap, putc, clear, puts}

-- The cursor is on the screen of 80 columns and 25 rows.
pub record IsOnScreen (s : Console) : Type 0 where
  pub column : s.cursor_x < 80
  pub row : s.cursor_y < 25

-- The next multiple of 8, as the code computes it on an `int`.
tab_table : true_below 256 (λ x. bit_and (x + 8) (2 ^ 32 - 8) == (x + 8) / 8 * 8) ≡ true
unfolding true_below
tab_table = refl

pub tab_stop : (x : ℕ) → x < 256 → bit_and (x + 8) (2 ^ 32 - 8) ≡ (x + 8) / 8 * 8
tab_stop x h = (==_iff _ _).0 (true_below_sound 256 _ x tab_table h)

-- Between the branches of `putc` and the wrapping.
pub record IsPlaced (s : Console) : Type 0 where
  pub column : s.cursor_x ≤ 80
  pub row : s.cursor_y ≤ 25
  pub corner : s.cursor_y ≡ 25 → s.cursor_x ≡ 0

pub place-IsPlaced : (c : ℕ) (s : Console) → IsOnScreen s → IsPlaced (place c s)
unfolding place
place-IsPlaced c s on = ground (arith, tab_stop s.cursor_x)

wrap_bounds : (s : Console) → IsPlaced s → ((wrap s).cursor_x < 80) × ((wrap s).cursor_y ≤ 25)
unfolding wrap
wrap_bounds s p = ground arith

scroll_bounds : (s : Console) → s.cursor_x < 80 → s.cursor_y ≤ 25 → IsOnScreen (scroll s)
unfolding scroll
scroll_bounds s hx hy = ground arith

pub settled-IsOnScreen :
    (c : ℕ) (s : Console) → IsOnScreen s → IsOnScreen (scroll (wrap (place c s)))
settled-IsOnScreen c s on =
    let (hx, hy) = wrap_bounds (place c s) (place-IsPlaced c s on) in
    scroll_bounds (wrap (place c s)) hx hy

-- `vga_putc` leaves the cursor on the screen, whatever the character.
pub putc-IsOnScreen : (c : ℕ) (s : Console) → IsOnScreen s → IsOnScreen (putc c s)
unfolding putc move_cursor
putc-IsOnScreen c s on =
    let on' = settled-IsOnScreen (u8 c) s on in record { column = on'.column; row = on'.row }

-- So does `vga_puts`.
pub puts-IsOnScreen : (str : List ℕ) (s : Console) → IsOnScreen s → IsOnScreen (puts str s)
unfolding puts
puts-IsOnScreen [] s on = on
puts-IsOnScreen (zero ∷ str) s on = on
puts-IsOnScreen (suc c ∷ str) s on =
    puts-IsOnScreen str (putc (suc c) s) (putc-IsOnScreen (suc c) s on)

pub clear-IsOnScreen : (s : Console) → IsOnScreen (clear s)
unfolding clear move_cursor
clear-IsOnScreen s = ground arith
