-- ===== src/Shared/Within/Races.antt =====
-- arch/x86/kernel/vga.c: what an interrupt of the keyboard in the middle of `vga_putc` does.
use native.Mathlib.Nat.{mod-eq_of_lt}
use brunix.Prelude.{
  ℕ, ◌+◌, ◌*◌, ◌/◌, ◌%◌, ◌≤◌, ◌<◌, ◌≡◌, ◌≢◌, refl, sym, ap, ◌∙◌, arith, u8, u16, leb, ◌==◌, ◌>>>◌,
  Bool, true, if◌then◌else◌, bit_or, bit_or_low,
}
use brunix.Io.{Devices, outb}
use brunix.Vga.{
  Console, poke, command_port, data_port, low_byte_command, high_byte_command, attribute,
  move_cursor, place,
}
use brunix.Vga.Cursor.{IsOnScreen}
use brunix.Vga.Terminal.{colour_of, attribute-eq}
use brunix.Vga.Terminal.Refine.{place-printable}
use brunix.Vga.Hardware.{location, crtc, receive}
use brunix.Kernel.{Kernel, Registers, running, ◌|>◌}
use brunix.Dispatch.{irq_handler}
use brunix.Dispatch.Irq.{IsReady}
use brunix.Shared.{put_byte}
use brunix.Shared.Within.{with_con, store_around, move_around, putc_around}
use brunix.Shared.Within.Keys.{
  place-control, finish, putc_around-putc, settle_same, printed, Holds, irq_handler-printed,
}

-- For a printable byte, a pressed key with a printable byte, both handlers registered, and the cursor
-- on the screen in a column below 78: `putc_around` with nothing in the middle is `vga_putc`; and
-- where the interrupt of the key comes between the computation of the byte's location and its store,
-- only the cell of the cursor changes, to the byte in the current colours, so that the key is not on the
-- screen, but the cursor has moved two columns on.
pub key_lost :
    (devices : Devices) (cr2 b key c : ℕ) (regs : Registers) (k : Kernel)
    → Holds devices b key
    → 32 ≤ key
    → key < 256
    → 32 ≤ c
    → c < 256
    → regs.int_no ≡ 33
    → IsReady k
    → k.con.cursor_x < 78
    → (putc_around running running c k ≡ running (put_byte c k))
      × ((k' : Kernel) × (putc_around (irq_handler devices cr2 regs) running c k ≡ running k')
          × ((j : ℕ)
              → k'.con.cells j ≡ (
                  if j == k.con.cursor_y * 80 + k.con.cursor_x
                  then colour_of k.con * 256 + c
                  else k.con.cells j))
          × (k'.con.cursor_x ≡ k.con.cursor_x + 2)
          × (k'.con.cursor_y ≡ k.con.cursor_y))
unfolding putc_around store_around move_around move_cursor
key_lost devices cr2 b key c regs k held low high clow chigh vector ready room =
    let (u, e) =
      irq_handler-printed devices cr2 b key regs k held low high vector ready (omega arith) in
    let here = k.con.cursor_y * 80 + k.con.cursor_x in
    let word = u16 (bit_or c (attribute k.con)) in
    let s1 = move_cursor (printed key (record k.con { trace = u })) in
    let s2 = record s1 {
      cells = poke here word s1.cells;
      cursor_x = u8 (k.con.cursor_x + 1 + 1);
    } in
    let on : IsOnScreen s2 = record { column = omega arith; row = ready.on.row } in
    let printable : leb 32 c ≡ true = ground arith in
    (
      putc_around-putc c k,
      (
        record k { con = move_cursor s2 },
        ap
              (λ c. finish running (
                if leb 32 c
                then store_around (irq_handler devices cr2 regs) c k
                else running (with_con (place c) k)))
              (mod-eq_of_lt chigh)
            ∙ ap
                (λ (d : Bool). finish running (
                  if d
                  then store_around (irq_handler devices cr2 regs) c k
                  else running (with_con (place c) k)))
                printable
            ∙ ap
                (λ o. finish running (
                  o |> λ k. running (
                    with_con
                      (λ s. record s {
                        cells = poke here word s.cells;
                        cursor_x = u8 (s.cursor_x + 1);
                      })
                      k)))
                e
            ∙ ap (λ s. running (record k { con = s }) |> move_around running) (settle_same s2 on),
        λ j. ground (arith, attribute-eq k.con, bit_or_low 8 c (colour_of k.con) chigh),
        omega arith,
        refl,
      ),
    )

-- The rest of `move_cursor` for one location, behind the whole of it for another.
location-crossed :
    (first : ℕ) (s : Console)
    → IsOnScreen s
    → first < 2000
    → location (
        outb data_port (u16 first) (
          outb command_port low_byte_command
            (outb data_port (u16 first >>> 8) (move_cursor s).trace)))
      ≡ (s.cursor_y * 80 + s.cursor_x) / 256 * 256 + first % 256
unfolding location crtc receive move_cursor outb
location-crossed first s on small = omega (arith, on)

-- For a printable byte, a pressed key with a printable byte, both handlers registered, and the cursor
-- on the screen in a column below 78: where the interrupt of the key comes behind the first write
-- of `move_cursor`, the byte and the key are both on the screen, one behind the other in the current
-- colours, but the hardware's cursor is not at the kernel's.
pub cursor_stale :
    (devices : Devices) (cr2 b key c : ℕ) (regs : Registers) (k : Kernel)
    → Holds devices b key
    → 32 ≤ key
    → key < 256
    → 32 ≤ c
    → c < 256
    → regs.int_no ≡ 33
    → IsReady k
    → k.con.cursor_x < 78
    → (k' : Kernel) × (putc_around running (irq_handler devices cr2 regs) c k ≡ running k')
      × (k'.con.cells (k.con.cursor_y * 80 + k.con.cursor_x) ≡ colour_of k.con * 256 + c)
      × (k'.con.cells (k.con.cursor_y * 80 + k.con.cursor_x + 1) ≡ colour_of k.con * 256 + key)
      × (location k'.con.trace ≢ k'.con.cursor_y * 80 + k'.con.cursor_x)
unfolding putc_around store_around move_around
cursor_stale devices cr2 b key c regs k held low high clow chigh vector ready room =
    let s1 = printed c k.con in
    let on1 : IsOnScreen s1 = record { column = omega arith; row = ready.on.row } in
    let at = u16 (s1.cursor_y * 80 + s1.cursor_x) in
    let k1 = record k {
      con = record s1 { trace = outb command_port high_byte_command s1.trace };
    } in
    let ready1 : IsReady k1 = record {
      timer = ready.timer;
      kbd = ready.kbd;
      on = record { column = on1.column; row = on1.row };
      ticks = ready.ticks;
    } in
    let (u, e) =
      irq_handler-printed devices cr2 b key regs k1 held low high vector ready1 (omega arith) in
    let s2 = printed key (record s1 { trace = u }) in
    let on2 : IsOnScreen s2 = record { column = omega arith; row = ready.on.row } in
    let printable : leb 32 c ≡ true = ground arith in
    let rest = λ (s : Console). record s {
      trace =
          outb data_port at
            (outb command_port low_byte_command (outb data_port (at >>> 8) s.trace));
    } in
    let here = location-crossed (s1.cursor_y * 80 + s1.cursor_x) s2 on2 (omega arith) in
    (
      record k { con = rest (move_cursor s2) },
      ap
            (λ c.
              finish (irq_handler devices cr2 regs)
                (if leb 32 c then store_around running c k else running (with_con (place c) k)))
            (mod-eq_of_lt chigh)
          ∙ ap
              (λ (d : Bool).
                finish (irq_handler devices cr2 regs)
                  (if d then store_around running c k else running (with_con (place c) k)))
              printable
          ∙ ap (λ s. finish (irq_handler devices cr2 regs) (running (record k { con = s })))
              (sym (place-control c k.con printable) ∙ place-printable k.con ready.on c clow chigh)
          ∙ ap (λ s. running (record k { con = s }) |> move_around (irq_handler devices cr2 regs))
              (settle_same s1 on1)
          ∙ ap (λ o. o |> λ k. running (with_con rest k)) e,
      unfold move_cursor in ground arith,
      unfold move_cursor in ground arith,
      λ equal.
          (let kept : (move_cursor s2).cursor_y * 80 + (move_cursor s2).cursor_x
                ≡ s1.cursor_y * 80 + s1.cursor_x + 1 =
              unfold move_cursor in omega arith in
            let apart = sym here ∙ equal ∙ kept in absurd (omega (arith, apart))),
    )
