-- ===== src/Vga.antt =====
-- arch/x86/kernel/vga.c, without the printing of numbers: the text screen.
-- The frame buffer at VIDEO_MEM_ADDR is a function from a cell's index to its 16-bit word, so that a
-- write past the screen is a write like any other; the cursor and the colours are bytes.
pub mod Cursor
pub mod Scroll
pub mod Terminal
pub mod Hardware
pub mod Puts
pub mod Number
mod Tests
use brunix.Prelude.{
  ℕ, zero, suc, ◌+◌, ◌-◌, ◌*◌, ◌^◌, bit_and, bit_or, u8, u16, ◌<<<◌, ◌>>>◌, ltb, leb, ◌==◌, Bool,
  not, ◌&&◌, if◌then◌else◌, List, [], ◌∷◌, for_up,
}
use brunix.Io.{Trace, outb}

pub record Console : Type 0 where
  pub cells : ℕ → ℕ
  pub cursor_x : ℕ
  pub cursor_y : ℕ
  pub back_colour : ℕ
  pub fore_colour : ℕ
  pub trace : Trace

-- `video_memory[i] = w`
abbrev pub poke : ℕ → ℕ → (ℕ → ℕ) → ℕ → ℕ
poke i w cells j = if j == i then w else cells j

unfoldable pub set_foreground_color : ℕ → Console → Console
set_foreground_color colour s = record s { fore_colour = u8 colour }

-- FB_COMMAND_PORT and FB_DATA_PORT, FB_HIGH_BYTE_COMMAND and FB_LOW_BYTE_COMMAND
abbrev pub command_port : ℕ
command_port = 0x3d4

abbrev pub data_port : ℕ
data_port = 0x3d5

abbrev pub high_byte_command : ℕ
high_byte_command = 14

abbrev pub low_byte_command : ℕ
low_byte_command = 15

unfoldable pub move_cursor : Console → Console
unfolding outb
move_cursor s =
    let location = u16 (s.cursor_y * 80 + s.cursor_x) in
    let t = outb command_port high_byte_command s.trace in
    let t = outb data_port (location >>> 8) t in
    let t = outb command_port low_byte_command t in
    let t = outb data_port location t in record s { trace = t }

-- A space in white on black, as `scroll` and `vga_clear` compute it.
abbrev pub blank : ℕ
blank = u16 (bit_or 0x20 (u8 (bit_or (0 <<< 4) (bit_and 15 0x0f)) <<< 8))

-- The two loops of `scroll`.
unfoldable pub copy_up : (ℕ → ℕ) → ℕ → ℕ
unfolding for_up
copy_up cells = for_up (24 * 80) 0 (λ i m. poke i (m (i + 80)) m) cells

unfoldable pub fill : ℕ → ℕ → (ℕ → ℕ) → ℕ → ℕ
unfolding for_up
fill from count cells = for_up count from (λ i m. poke i blank m) cells

unfoldable pub scroll : Console → Console
scroll s =
    if leb 25 s.cursor_y
    then record s { cells = fill (24 * 80) 80 (copy_up s.cells); cursor_y = 24 }
    else s

unfoldable pub attribute : Console → ℕ
attribute s = u16 (u8 (bit_or (s.back_colour <<< 4) (bit_and s.fore_colour 0x0f)) <<< 8)

-- The branches of `vga_putc` on the character.
unfoldable pub place : ℕ → Console → Console
unfolding attribute
place c s =
    if c == 0x08 && not (s.cursor_x == 0)
    then record s { cursor_x = u8 (s.cursor_x + 2 ^ 8 - 1) }
    else if c == 0x09
    then record s { cursor_x = u8 (bit_and (s.cursor_x + 8) (2 ^ 32 - 8)) }
    else if c == b'\r'
    then record s { cursor_x = 0 }
    else if c == b'\n'
    then record s { cursor_x = 0; cursor_y = u8 (s.cursor_y + 1) }
    else if leb b' ' c
    then record s {
      cells = poke (s.cursor_y * 80 + s.cursor_x) (u16 (bit_or c (attribute s))) s.cells;
      cursor_x = u8 (s.cursor_x + 1);
    }
    else s

-- A new line where the end of the row has been reached.
unfoldable pub wrap : Console → Console
wrap s = if leb 80 s.cursor_x then record s { cursor_x = 0; cursor_y = u8 (s.cursor_y + 1) } else s

unfoldable pub putc : ℕ → Console → Console
putc c s = move_cursor (scroll (wrap (place (u8 c) s)))

unfoldable pub clear : Console → Console
clear s = move_cursor (record s { cells = fill 0 (80 * 25) s.cells; cursor_x = 0; cursor_y = 0 })

unfoldable pub init : Console → Console
init s = clear s

-- `for (i = 0; str[i]; i++) vga_putc(str[i]);`: it ends at the first NUL.
unfoldable pub puts : List ℕ → Console → Console
puts [] s = s
puts (zero ∷ str) s = s
puts (suc c ∷ str) s = puts str (putc (suc c) s)
