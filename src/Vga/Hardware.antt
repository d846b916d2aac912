-- ===== src/Vga/Hardware.antt =====
-- What reaches the hardware: the cursor registers of the CRT controller, and the memory behind the
-- screen.
use native.Mathlib.Decide.{dec_lt}
use brunix.Prelude.{
  ℕ, zero, suc, ◌+◌, ◌*◌, ◌≤◌, ◌≡◌, refl, arith, ◌==◌, ◌&&◌, if◌then◌else◌, u8, List, [], ◌∷◌, ◌∙◌,
}
use brunix.Io.{sent, read, Trace}
use brunix.Vga.{Console, move_cursor, scroll, place, wrap, putc, puts}
use brunix.Vga.Cursor.{IsOnScreen, putc-IsOnScreen, settled-IsOnScreen}
use brunix.Vga.Scroll.{scroll-cell, scroll_same}

-- The CRT controller: port 0x3d4 selects a register, port 0x3d5 writes it; registers 14 and 15 are
-- the halves of the cursor's location.
pub record Crtc : Type 0 where
  pub index : ℕ
  pub high : ℕ
  pub low : ℕ

unfoldable pub receive : ℕ → ℕ → Crtc → Crtc
receive port v d =
    if port == 0x3d4
    then record d { index = v }
    else if port == 0x3d5 && d.index == 14
    then record d { high = v }
    else if port == 0x3d5 && d.index == 15
    then record d { low = v }
    else d

-- Its state after a trace.
unfoldable pub crtc : Trace → Crtc
crtc [] = record { index = 0; high = 0; low = 0 }
crtc (sent port v ∷ t) = receive port v (crtc t)
crtc (read port v ∷ t) = crtc t

-- The cell at which the hardware cursor stands.
unfoldable pub location : Trace → ℕ
location t = (crtc t).high * 256 + (crtc t).low

pub location-move_cursor :
    (s : Console) → IsOnScreen s → location (move_cursor s).trace ≡ s.cursor_y * 80 + s.cursor_x
unfolding location crtc receive move_cursor
location-move_cursor s on = omega (arith, on)

-- After `vga_putc` the hardware cursor stands where the kernel's cursor does, whatever the ports have
-- been used for before.
pub location-putc :
    (c : ℕ) (s : Console)
    → IsOnScreen s
    → location (putc c s).trace ≡ (putc c s).cursor_y * 80 + (putc c s).cursor_x
unfolding putc move_cursor
location-putc c s on =
    location-move_cursor (scroll (wrap (place (u8 c) s))) (settled-IsOnScreen (u8 c) s on)

cells-place : (c j : ℕ) (s : Console) → IsOnScreen s → 2000 ≤ j → (place c s).cells j ≡ s.cells j
unfolding place
cells-place c j s on h = ground arith

cells-wrap : (j : ℕ) (s : Console) → (wrap s).cells j ≡ s.cells j
unfolding wrap
cells-wrap j s = ground arith

cells-scroll : (j : ℕ) (s : Console) → 2000 ≤ j → (scroll s).cells j ≡ s.cells j
cells-scroll j s h = elim (dec_lt s.cursor_y 25) [
  | yes p ↦ rw (scroll_same s p)
  | no p ↦ ground (arith, scroll-cell s j)
]

-- `vga_putc` with the cursor on the screen writes no memory behind the 2000 cells of the screen.
pub cells-putc : (c j : ℕ) (s : Console) → IsOnScreen s → 2000 ≤ j → (putc c s).cells j ≡ s.cells j
unfolding putc move_cursor
cells-putc c j s on h =
    cells-scroll j (wrap (place (u8 c) s)) h
    ∙ cells-wrap j (place (u8 c) s)
    ∙ cells-place (u8 c) j s on h

-- From a state with the cursor on the screen and the hardware's cursor at the same place, `vga_puts`
-- keeps the cursor on the screen and the hardware's cursor with it, and writes no cell behind the
-- 2000 of the screen.
pub puts_safe :
    (str : List ℕ) (s : Console)
    → IsOnScreen s
    → location s.trace ≡ s.cursor_y * 80 + s.cursor_x
    → let s' = puts str s in
      IsOnScreen s'
      × ((j : ℕ) → s'.cells (2000 + j) ≡ s.cells (2000 + j))
      × (location s'.trace ≡ s'.cursor_y * 80 + s'.cursor_x)
unfolding puts
puts_safe [] s on at = (on, (λ j. refl), at)
puts_safe (zero ∷ str) s on at = (on, (λ j. refl), at)
puts_safe (suc c ∷ str) s on at =
    let (on', safe, at') =
      puts_safe str (putc (suc c) s) (putc-IsOnScreen (suc c) s on) (location-putc (suc c) s on) in
    (on', (λ j. safe j ∙ cells-putc (suc c) (2000 + j) s on (omega arith)), at')
