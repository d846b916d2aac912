-- ===== src/Shared/Within/Scrolling.antt =====
-- arch/x86/kernel/vga.c: `scroll` with an interrupt in the middle.
use native.Mathlib.Nat.{mod-eq_of_lt}
use brunix.Prelude.{
  ℕ, ◌+◌, ◌*◌, ◌<◌, ◌≤◌, ◌≡◌, refl, ap, ◌∙◌, arith, u8, u16, ltb, leb, ◌==◌, true, if◌then◌else◌,
  Bool-cases, inl, inr, bit_or, bit_or_low,
}
use brunix.Io.{Devices, Trace}
use brunix.Vga.{
  Console, poke, blank, copy_up, fill, attribute, move_cursor, place, wrap, scroll, putc,
}
use brunix.Vga.Scroll.{scroll-cell, fill-cell, copy_up-cell}
use brunix.Vga.Terminal.{colour_of, attribute-eq}
use brunix.Kernel.{Kernel, Registers, Outcome, running, ◌|>◌}
use brunix.Dispatch.{irq_handler}
use brunix.Dispatch.Irq.{IsReady}
use brunix.Shared.{put_byte}
use brunix.Shared.Within.{with_con, scroll_around, putc_scrolled}
use brunix.Shared.Within.Keys.{place-control, wrap_same, Holds, irq_handler-key}

-- With nothing in the middle it is `vga_putc`.
putc_scrolled-putc : (c : ℕ) (k : Kernel) → putc_scrolled running c k ≡ running (put_byte c k)
unfolding putc_scrolled scroll_around putc scroll
putc_scrolled-putc c k = elim (Bool-cases (leb 25 (wrap (place (u8 c) k.con)).cursor_y)) [
  | inl e ↦ rw e refl
  | inr e ↦ rw e refl
]

-- A line feed on the last row, before the scrolling.
abbrev below : Console → Console
below s = record s { cursor_x = 0; cursor_y = 25 }

-- A key in the row behind the screen, and scrolled.
abbrev typed_below : ℕ → Console → Console
typed_below key s = record s {
  cells = poke 2000 (colour_of s * 256 + key) s.cells;
  cursor_x = 1;
  cursor_y = 25;
}

typed-scrolled :
    (key : ℕ) (u : Trace) (s : Console)
    → 32 ≤ key
    → key < 256
    → putc key (record (below s) { trace = u })
      ≡ move_cursor (scroll (typed_below key (record s { trace = u })))
unfolding putc
typed-scrolled key u s low high =
    let s1 = record (below s) { trace = u } in
    let printable : leb 32 key ≡ true = ground arith in
    let word : u16 (bit_or key (attribute s1)) ≡ colour_of s * 256 + key =
      ground (arith, attribute-eq s1, bit_or_low 8 key (colour_of s) high) in
    ap (λ c. move_cursor (scroll (wrap (place c s1)))) (mod-eq_of_lt high)
    ∙ ap (λ s. move_cursor (scroll (wrap s))) (place-control key s1 printable)
    ∙ ap
        (λ (w : ℕ).
          move_cursor (scroll (wrap (record s1 { cells = poke 2000 w s.cells; cursor_x = 1 }))))
        word
    ∙ ap (λ s. move_cursor (scroll s))
        (wrap_same (typed_below key (record s { trace = u })) (omega arith))

-- The cells after both scrollings.
scrolled_twice :
    (w j : ℕ) (s : Console)
    → let once = scroll (record s { cells = poke 2000 w s.cells; cursor_x = 1; cursor_y = 25 }) in
      fill 1920 80 (copy_up once.cells) j ≡ (
        if ltb j 1840
        then s.cells (j + 160)
        else if ltb j 2000
        then blank
        else if j == 2000
        then w
        else s.cells j)
scrolled_twice w j s =
    let first = record s { cells = poke 2000 w s.cells; cursor_x = 1; cursor_y = 25 } in
    let once = scroll first in
    ground (
      arith,
      fill-cell 1920 80 (copy_up once.cells) j,
      copy_up-cell once.cells j,
      scroll-cell first (j + 80),
      scroll-cell first j,
    )

-- For a line feed on the last row, a pressed key with a printable byte, both handlers registered, and
-- the cursor on the screen: `putc_scrolled` with nothing in the middle is `vga_putc`; and where the
-- interrupt of the key comes behind the test of `scroll`, the screen scrolls by two rows, so that a
-- row is lost, the key is not on the screen but in the cell behind it, and the cursor has moved on
-- by the key.
pub row_lost :
    (devices : Devices) (cr2 b key : ℕ) (regs : Registers) (k : Kernel)
    → Holds devices b key
    → 32 ≤ key
    → key < 256
    → regs.int_no ≡ 33
    → IsReady k
    → k.con.cursor_y ≡ 24
    → (putc_scrolled running b'\n' k ≡ running (put_byte b'\n' k))
      × ((k' : Kernel) × (putc_scrolled (irq_handler devices cr2 regs) b'\n' k ≡ running k')
          × ((j : ℕ)
              → k'.con.cells j ≡ (
                  if ltb j 1840
                  then k.con.cells (j + 160)
                  else if ltb j 2000
                  then blank
                  else if j == 2000
                  then colour_of k.con * 256 + key
                  else k.con.cells j))
          × (k'.con.cursor_x ≡ 1)
          × (k'.con.cursor_y ≡ 24))
unfolding putc_scrolled scroll_around place wrap move_cursor
row_lost devices cr2 b key regs k held low high vector ready last =
    let s1 = below k.con in
    let k1 = record k { con = s1 } in
    let (u, e) = irq_handler-key devices cr2 b key regs k1 held vector ready.kbd in
    let once = scroll (typed_below key (record k.con { trace = u })) in
    let down : u8 (k.con.cursor_y + 1) ≡ 25 = omega arith in
    let rest = λ (o : Outcome).
      o
      |> (λ k. running (
          with_con (λ s. record s { cells = fill (24 * 80) 80 (copy_up s.cells); cursor_y = 24 })
            k))
      |> λ k. running (with_con move_cursor k) in
    (
      putc_scrolled-putc b'\n' k,
      (
        record k {
          con = move_cursor (record (move_cursor once) {
            cells = fill (24 * 80) 80 (copy_up once.cells);
            cursor_y = 24;
          });
        },
        ap
              (λ y.
                running (record k { con = record k.con { cursor_x = 0; cursor_y = y } })
                |> scroll_around (irq_handler devices cr2 regs)
                |> λ k. running (with_con move_cursor k))
              down
            ∙ ap rest e
            ∙ ap (λ s. rest (running (record k { con = s }))) (typed-scrolled key u k.con low high),
        λ j. scrolled_twice (colour_of k.con * 256 + key) j (record k.con { trace = u }),
        unfold scroll in refl,
        refl,
      ),
    )
