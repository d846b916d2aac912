-- ===== src/Vga/Terminal.antt =====
-- A terminal of 25 rows and 80 columns, as a user sees it, and `vga_putc` as its implementation.
pub mod Refine
use brunix.Prelude.{
  ℕ, zero, suc, ◌+◌, ◌-◌, ◌*◌, ◌/◌, ◌%◌, ◌≤◌, ◌<◌, ◌^◌, ◌≡◌, refl, arith, ltb, leb, ◌==◌, ◌&&◌,
  if◌then◌else◌, bit_and, bit_or, u8, bit_or_high, bit_or_low, Bool-cases, inl, inr, ◌≢◌,
  bit_and_mask, List, [], ◌∷◌, ap, ◌∙◌,
}
use brunix.Vga.{
  Console, poke, blank, attribute, move_cursor, scroll, place, wrap, putc, clear, puts,
}
use brunix.Vga.Scroll.{scroll-cell, scroll_same}
use brunix.Vga.Cursor.{IsOnScreen, tab_stop, putc-IsOnScreen}

pub record Terminal : Type 0 where
  pub col : ℕ
  pub row : ℕ
  pub cell : ℕ → ℕ → ℕ

-- The start of the next row; from the last row everything moves up by one.
unfoldable pub feed : Terminal → Terminal
feed t =
    if ltb t.row 24
    then record t { col = 0; row = t.row + 1 }
    else record t { col = 0; row = 24; cell = λ r k. if ltb r 24 then t.cell (r + 1) k else blank }

-- The cursor to a column, or to the next row behind the last column.
unfoldable pub to_column : ℕ → Terminal → Terminal
to_column k t = if ltb k 80 then record t { col = k } else feed t

unfoldable pub write : ℕ → Terminal → Terminal
write w t = record t { cell = λ r k. if r == t.row && k == t.col then w else t.cell r k }

-- A byte in a colour: backspace, tab, carriage return, line feed and the printable ones; the other
-- control characters are ignored.
unfoldable pub type : ℕ → ℕ → Terminal → Terminal
type colour c t =
    if c == 8
    then record t { col = t.col - 1 }
    else if c == 9
    then to_column (t.col / 8 * 8 + 8) t
    else if c == 13
    then record t { col = 0 }
    else if c == 10
    then feed t
    else if leb 32 c
    then to_column (t.col + 1) (write (colour * 256 + c) t)
    else t

-- The low halves of the background and the foreground colour.
abbrev pub colour_of : Console → ℕ
colour_of s = s.back_colour % 16 * 16 + s.fore_colour % 16

-- A console whose screen and cursor are those of a terminal.
pub record Shows (s : Console) (t : Terminal) : Type 0 where
  pub on : IsOnScreen s
  pub col : s.cursor_x ≡ t.col
  pub row : s.cursor_y ≡ t.row
  pub cell : (r k : ℕ) → r < 25 → k < 80 → s.cells (r * 80 + k) ≡ t.cell r k

pub attribute-eq : (s : Console) → attribute s ≡ colour_of s * 256
unfolding attribute
attribute-eq s = ground (
  arith,
  bit_and_mask 4 s.fore_colour,
  bit_or_high 4 s.back_colour (s.fore_colour % 16) (omega arith),
)

-- What `putc` does before it moves the hardware cursor.
abbrev pub settle : Console → Console
settle s = scroll (wrap s)

module _ (s : Console) (t : Terminal) (h : Shows s t) where
  -- A row further down, at any column.
  pub scroll-Shows-feed :
      Shows (scroll (record s { cursor_x = 0; cursor_y = s.cursor_y + 1 })) (feed t)
  unfolding feed
  scroll-Shows-feed =
      let s' = record s { cursor_x = 0; cursor_y = s.cursor_y + 1 } in
      record {
        on = unfold scroll in ground (arith, h.on, h.row);
        col = unfold scroll in ground (arith, h.on, h.row);
        row = unfold scroll in ground (arith, h.on, h.row);
        cell = λ r k hr hk. ground (
          arith,
          h.on,
          h.row,
          scroll-cell s' (r * 80 + k),
          scroll_same s',
          h.cell (r + 1) k,
          h.cell r k,
        );
      }

  wrap-eq :
      (k : ℕ)
      → k ≤ 80
      → wrap (record s { cursor_x = k }) ≡ (
          if ltb k 80
          then record s { cursor_x = k }
          else record s { cursor_x = 0; cursor_y = s.cursor_y + 1 })
  unfolding wrap
  wrap-eq k hk = ground (arith, h.on)

  -- A column on the screen, or the one behind its end.
  pub settle-Shows-column :
      (k : ℕ) → k ≤ 80 → Shows (settle (record s { cursor_x = k })) (to_column k t)
  unfolding to_column
  settle-Shows-column k hk = elim (Bool-cases (ltb k 80)) [
    | inl e ↦
        rw (wrap-eq k hk, e, scroll_same (record s { cursor_x = k }) (h.on.row))
          (record { on = ground (arith, h.on); col = refl; row = h.row; cell = h.cell })
    | inr e ↦ rw (wrap-eq k hk, e) scroll-Shows-feed
  ]

  pub write-Shows :
      (w : ℕ)
      → Shows (record s { cells = poke (s.cursor_y * 80 + s.cursor_x) w s.cells }) (write w t)
  unfolding write
  write-Shows w = record {
    on = record { column = h.on.column; row = h.on.row };
    col = h.col;
    row = h.row;
    cell = λ r k hr hk. ground (arith, h.on, h.row, h.col, h.cell r k);
  }
