-- ===== src/Shared/Within/Keys.antt =====
-- arch/x86/kernel/vga.c and irq.c: a printable byte, and the interrupt of a key, on a screen with room.
use native.Mathlib.Nat.{mod-eq_of_lt}
use mathlib.Core.Option.{some-injective}
use brunix.Prelude.{
  ℕ, ◌+◌, ◌*◌, ◌≤◌, ◌<◌, ◌≡◌, refl, sym, ap, ◌∙◌, arith, u8, u16, leb, true, Bool-cases, inl, inr,
  bit_or, some, get_elem?,
}
use brunix.Io.{Devices, Trace, inb}
use brunix.Vga.{Console, poke, attribute, move_cursor, scroll, place, wrap, putc}
use brunix.Vga.Scroll.{scroll_same}
use brunix.Vga.Cursor.{IsOnScreen}
use brunix.Vga.Terminal.{colour_of}
use brunix.Vga.Terminal.Refine.{place-printable}
use brunix.Kernel.{Kernel, Registers, Outcome, running, ◌|>◌, on_trace, kbd_callback}
use brunix.Pic.{pic_acknowledge}
use brunix.Keyboard.{kbd_us}
use brunix.Keyboard.Press.{press_pressed}
use brunix.Dispatch.{irq_handler}
use brunix.Dispatch.Irq.{IsReady, irq_keyboard}
use brunix.Shared.{put_byte}
use brunix.Shared.Within.{with_con, store_around, move_around, putc_around}

pub place-control :
    (c : ℕ) (s : Console)
    → leb 32 c ≡ true
    → place c s ≡ record s {
      cells = poke (s.cursor_y * 80 + s.cursor_x) (u16 (bit_or c (attribute s))) s.cells;
      cursor_x = u8 (s.cursor_x + 1);
    }
unfolding place
place-control c s h = ground arith

abbrev pub finish : (Kernel → Outcome) → Outcome → Outcome
finish at_port o = o |> (λ k. running (with_con (λ s. scroll (wrap s)) k)) |> move_around at_port

-- With nothing in the middle it is `vga_putc`.
pub putc_around-putc :
    (c : ℕ) (k : Kernel) → putc_around running running c k ≡ running (put_byte c k)
unfolding putc_around store_around move_around putc move_cursor
putc_around-putc c k = elim (Bool-cases (leb 32 (u8 c))) [
  | inl e ↦ rw e (
      ap (λ s. finish running (running (record k { con = s })))
        (sym (place-control (u8 c) k.con e)))
  | inr e ↦ rw e refl
]

pub wrap_same : (s : Console) → s.cursor_x < 80 → wrap s ≡ s
unfolding wrap
wrap_same s h = ground arith

pub settle_same : (s : Console) → IsOnScreen s → scroll (wrap s) ≡ s
settle_same s on = ap scroll (wrap_same s on.column) ∙ scroll_same s on.row

-- A printable byte before the last column.
abbrev pub printed : ℕ → Console → Console
printed c s = record s {
  cells = poke (s.cursor_y * 80 + s.cursor_x) (colour_of s * 256 + c) s.cells;
  cursor_x = s.cursor_x + 1;
}

putc-printable :
    (c : ℕ) (s : Console)
    → IsOnScreen s
    → s.cursor_x < 79
    → 32 ≤ c
    → c < 256
    → putc c s ≡ move_cursor (printed c s)
unfolding putc
putc-printable c s on room low high =
    ap (λ c. move_cursor (scroll (wrap (place c s)))) (mod-eq_of_lt high)
    ∙ ap (λ s. move_cursor (scroll (wrap s))) (place-printable s on c low high)
    ∙ ap move_cursor (settle_same (printed c s) (record { column = omega arith; row = on.row }))

-- A key that is held: every read of the keyboard's port gives its scancode.
abbrev pub Holds : Devices → ℕ → ℕ → Type 0
Holds devices b key =
    ((t : Trace) → devices t 0x60 ≡ b) × (b < 128) × (get_elem? kbd_us b ≡ some key)

pub irq_handler-key :
    (devices : Devices) (cr2 b key : ℕ) (regs : Registers) (k : Kernel)
    → Holds devices b key
    → regs.int_no ≡ 33
    → k.irq_handlers 33 ≡ some kbd_callback
    → (u : Trace) × (irq_handler devices cr2 regs k
        ≡ running (with_con (λ s. putc key (record s { trace = u })) k))
unfolding inb
irq_handler-key devices cr2 b key regs k (held, small, entry) vector h =
    let k1 = on_trace (pic_acknowledge devices 33) k in
    let read : u8 (devices k1.con.trace 0x60) ≡ b =
      ap u8 (held k1.con.trace) ∙ mod-eq_of_lt (omega arith) in
    let (c, e, runs) = press_pressed devices regs k1 (omega (arith, read)) in
    let same : c ≡ key = some-injective c key (sym e ∙ ap (λ b. get_elem? kbd_us b) read ∙ entry) in
    (
      (inb devices 0x60 k1.con.trace).1,
      irq_keyboard devices cr2 regs k vector h
          ∙ runs
          ∙ ap
              (λ c.
                running (
                  with_con (λ s. putc c (record s { trace = (inb devices 0x60 k1.con.trace).1 }))
                    k))
              same,
    )

-- A key's interrupt types the key.
pub irq_handler-printed :
    (devices : Devices) (cr2 b key : ℕ) (regs : Registers) (k : Kernel)
    → Holds devices b key
    → 32 ≤ key
    → key < 256
    → regs.int_no ≡ 33
    → IsReady k
    → k.con.cursor_x < 79
    → (u : Trace) × (irq_handler devices cr2 regs k
        ≡ running (with_con (λ s. move_cursor (printed key (record s { trace = u }))) k))
irq_handler-printed devices cr2 b key regs k held low high vector ready room =
    let (u, e) = irq_handler-key devices cr2 b key regs k held vector ready.kbd in
    let on : IsOnScreen (record k.con { trace = u }) = record {
      column = ready.on.column;
      row = ready.on.row;
    } in
    (
      u,
      e
          ∙ ap (λ s. running (record k { con = s }))
              (putc-printable key (record k.con { trace = u }) on room low high),
    )
