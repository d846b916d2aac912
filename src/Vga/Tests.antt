-- ===== src/Vga/Tests.antt =====
-- The screen's theorems at concrete inputs.
use brunix.Prelude.{ℕ, ◌+◌, ◌*◌, ◌≡◌, refl, arith, u8, some, [], codes, pos}
use brunix.Vga.{Console, blank, move_cursor, putc, puts}
use brunix.Vga.Cursor.{IsOnScreen}
use brunix.Vga.Terminal.{Terminal, Shows, type}
use brunix.Vga.Terminal.Refine.{putc_refines}
use brunix.Vga.Hardware.{location, location-move_cursor, puts_safe}
use brunix.Vga.Number.{word_text, write_number, write_number_lem}

-- White on black, at the last cell of the last row.
abbrev corner : Console
corner = record {
  cells = λ _. blank;
  cursor_x = 79;
  cursor_y = 24;
  back_colour = 0;
  fore_colour = 15;
  trace = [];
}

abbrev full : Terminal
full = record { col = 79; row = 24; cell = λ _ _. blank }

corner-IsOnScreen : IsOnScreen corner
corner-IsOnScreen = omega arith

corner-Shows : Shows corner full
corner-Shows = record { on = corner-IsOnScreen; col = refl; row = refl; cell = λ r k hr hk. refl }

putc_refines_example : Shows (putc b'A' corner) (type 15 (u8 b'A') full)
putc_refines_example = putc_refines corner full corner-Shows b'A'

write_number_lem_example :
    write_number 4000000000 (pos 10) corner ≡ some (puts (word_text 10 4000000000) corner)
write_number_lem_example =
    write_number_lem 4000000000 10 corner (omega arith) (omega arith) (omega arith)

-- The hardware cursor stands at the corner.
abbrev at_corner : Console
at_corner = record corner { trace = (move_cursor corner).trace }

puts_safe_example :
    IsOnScreen (puts (codes "ab") at_corner)
    × ((j : ℕ) → (puts (codes "ab") at_corner).cells (2000 + j) ≡ blank)
    × (location (puts (codes "ab") at_corner).trace
        ≡ (puts (codes "ab") at_corner).cursor_y * 80 + (puts (codes "ab") at_corner).cursor_x)
puts_safe_example =
    puts_safe (codes "ab") at_corner (omega arith) (location-move_cursor corner corner-IsOnScreen)
