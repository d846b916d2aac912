-- ===== src/Shared/Within.antt =====
-- arch/x86/kernel/vga.c: `vga_putc` with an interrupt in the middle.
pub mod Keys
pub mod Races
pub mod Scrolling
use brunix.Prelude.{ℕ, ◌+◌, ◌*◌, ◌≡◌, bit_or, u8, u16, leb, ◌>>>◌, if◌then◌else◌}
use brunix.Io.{outb}
use brunix.Vga.{
  Console, poke, command_port, data_port, high_byte_command, low_byte_command, scroll, attribute,
  copy_up, fill, move_cursor, place, wrap,
}
use brunix.Kernel.{Kernel, Outcome, running, ◌|>◌}

abbrev pub with_con : (Console → Console) → Kernel → Kernel
with_con f k = record k { con = f k.con }

-- The printable branch: `location` is computed, and then the character stored there and the cursor
-- moved on; `between` comes behind the first of these lines.
unfoldable pub store_around : (Kernel → Outcome) → ℕ → Kernel → Outcome
unfolding attribute
store_around between c k =
    let location = k.con.cursor_y * 80 + k.con.cursor_x in
    let word = u16 (bit_or c (attribute k.con)) in
    between k |> λ k. running (
      with_con
        (λ s. record s { cells = poke location word s.cells; cursor_x = u8 (s.cursor_x + 1) }) k)

-- `move_cursor`; `between` comes behind its first `outb`.
unfoldable pub move_around : (Kernel → Outcome) → Kernel → Outcome
unfolding outb
move_around between k =
    let location = u16 (k.con.cursor_y * 80 + k.con.cursor_x) in
    running (with_con (λ s. record s { trace = outb command_port high_byte_command s.trace }) k)
    |> between
    |> λ k. running (
        with_con
          (λ s.
            let t = outb data_port (location >>> 8) s.trace in
            let t = outb command_port low_byte_command t in
            record s { trace = outb data_port location t })
          k)

unfoldable pub putc_around : (Kernel → Outcome) → (Kernel → Outcome) → ℕ → Kernel → Outcome
unfolding store_around move_around
putc_around at_store at_port c k =
    (if leb b' ' (u8 c)
      then store_around at_store (u8 c) k
      else running (with_con (place (u8 c)) k))
    |> (λ k. running (with_con (λ s. scroll (wrap s)) k))
    |> move_around at_port

-- `scroll`; `between` comes behind its test of the row.
unfoldable pub scroll_around : (Kernel → Outcome) → Kernel → Outcome
scroll_around between k =
    if leb 25 k.con.cursor_y
    then (between k |> λ k.
        running (
          with_con (λ s. record s { cells = fill (24 * 80) 80 (copy_up s.cells); cursor_y = 24 })
            k))
    else running k

unfoldable pub putc_scrolled : (Kernel → Outcome) → ℕ → Kernel → Outcome
unfolding scroll_around
putc_scrolled between c k =
    running (with_con (λ s. wrap (place (u8 c) s)) k) |> scroll_around between |> λ k.
    running (with_con move_cursor k)
