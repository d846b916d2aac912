-- ===== src/Shared/Programs/Loads.antt =====
-- kernel/timer.c: what the interval timer is loaded with, whatever interrupts arrive meanwhile.
use mathlib.Core.Path.{subst}
use brunix.Prelude.{
  ℕ, ◌/◌, ◌%◌, ◌^◌, ◌<◌, ◌≤◌, ◌≡◌, ◌↔◌, refl, sym, ap, ◌∙◌, arith, true, false, bit_and, u8, ◌>>>◌,
  List, [], ◌∷◌, All,
}
use brunix.Io.{Devices, outb}
use brunix.Kernel.{Kernel, Registers, running, ◌|>◌, on_trace}
use brunix.Timer.{program}
use brunix.Timer.Divisor.{Pit, pit, pit_write, program_lem}
use brunix.Dispatch.Early.{CanServe, irq_handler-Serves}
use brunix.Shared.Programs.{serve, program_around}
use brunix.Shared.Programs.Counter.{SameCounter, irq_handler-SameCounter}

-- The vectors that the controllers raise.
abbrev pub IsIrq : Registers → Type 0
IsIrq regs = (32 ≤ regs.int_no) × (regs.int_no < 48)

module _ (devices : Devices) (cr2 : ℕ) where
  serve_lem :
      (is : List Registers) (k : Kernel)
      → All IsIrq is
      → CanServe k
      → (k' : Kernel) × (serve devices cr2 is k ≡ running k')
        × CanServe k'
        × (pit k'.con.trace ≡ pit k.con.trace)
  unfolding serve
  serve_lem [] k h can = (k, refl, can, refl)
  serve_lem (regs ∷ is) k h can =
      let (k1, e1, can1, _) = irq_handler-Serves devices cr2 regs k (omega (arith, h.0)) can in
      let same : pit k1.con.trace ≡ pit k.con.trace =
        subst (λ o. SameCounter o k) e1
          (irq_handler-SameCounter devices cr2 regs k (omega (arith, h.0)) can) in
      let (k2, e2, can2, kept) = serve_lem is k1 h.1 can1 in
      (k2, ap (λ o. o |> serve devices cr2 is) e1 ∙ e2, can2, kept ∙ same)

  on_trace-CanServe :
      (port value : ℕ) (k : Kernel) → CanServe k → CanServe (on_trace (outb port value) k)
  on_trace-CanServe port value k can = record {
    entries = can.entries;
    on = record { column = can.on.column; row = can.on.row };
    ticks = can.ticks;
  }

  -- For every frequency but 0, with the cursor on the screen, a clock that fits its 64 bits, and no
  -- entry of the table of IRQs but NULL and the handlers of the timer and the keyboard: with no
  -- interrupts the writes are those of `timer_init`; and with whatever interrupts of the 16 lines
  -- between them nothing faults or halts, the state is such a state again, and
  -- counter 0 is accessed by both bytes and expects the low one, a binary square wave with the divisor
  -- modulo 2 ^ 16 as its reload value, which is the divisor itself exactly for
  -- the frequencies from 19 on.
  pub program_loads :
      (first second : List Registers) (frequency : ℕ) (k : Kernel)
      → 0 < frequency
      → All IsIrq first
      → All IsIrq second
      → CanServe k
      → (program_around devices cr2 [] [] (1193180 / frequency) k
          ≡ running (on_trace (program (1193180 / frequency)) k))
        × ((k' : Kernel) × (program_around devices cr2 first second (1193180 / frequency) k
              ≡ running k')
            × CanServe k'
            × ((pit k'.con.trace).access ≡ 3)
            × ((pit k'.con.trace).decimal ≡ false)
            × ((pit k'.con.trace).square_wave ≡ true)
            × ((pit k'.con.trace).high_next ≡ false)
            × ((pit k'.con.trace).reload ≡ 1193180 / frequency % 2 ^ 16)
            × (((pit k'.con.trace).reload ≡ 1193180 / frequency) ↔ (19 ≤ frequency)))
  unfolding program_around serve program
  program_loads first second frequency k pos h1 h2 can =
      let divisor = 1193180 / frequency in
      let low = u8 (bit_and divisor 0xff) in
      let high = u8 (bit_and (divisor >>> 8) 0xff) in
      let k1 = on_trace (outb 0x43 0x36) k in
      let (k2, e2, can2, same2) = serve_lem first k1 h1 (on_trace-CanServe 0x43 0x36 k can) in
      let k3 = on_trace (outb 0x40 low) k2 in
      let (k4, e4, can4, same4) = serve_lem second k3 h2 (on_trace-CanServe 0x40 low k2 can2) in
      let loaded : pit (outb 0x40 high k4.con.trace) ≡ pit (program divisor k.con.trace) =
        unfold outb pit in
        ap (pit_write 0x40 (u8 high)) (same4 ∙ ap (pit_write 0x40 (u8 low)) same2) in
      let (both, binary, square, low_next, reload, fits) = program_lem frequency k.con.trace pos in
      (
        refl,
        (
          on_trace (outb 0x40 high) k4,
          ap
                (λ o.
                  o
                  |> (λ k. running (on_trace (outb 0x40 low) k))
                  |> serve devices cr2 second
                  |> λ k. running (on_trace (outb 0x40 high) k))
                e2
              ∙ ap (λ o. o |> λ k. running (on_trace (outb 0x40 high) k)) e4,
          on_trace-CanServe 0x40 high k4 can4,
          ap (λ (d : Pit). d.access) loaded ∙ both,
          ap (λ (d : Pit). d.decimal) loaded ∙ binary,
          ap (λ (d : Pit). d.square_wave) loaded ∙ square,
          ap (λ (d : Pit). d.high_next) loaded ∙ low_next,
          ap (λ (d : Pit). d.reload) loaded ∙ reload,
          (
            (λ e. fits.0 (ap (λ (d : Pit). d.reload) (sym loaded) ∙ e)),
            (λ big. ap (λ (d : Pit). d.reload) loaded ∙ fits.1 big),
          ),
        ),
      )
