-- ===== src/Timer.antt =====
-- kernel/timer.c: the clock tick and the programming of the interval timer.
-- The busy waits between the writes change no state; Processor has them.
pub mod Divisor
use brunix.Prelude.{
  ℕ, ◌+◌, ◌/◌, ◌^◌, ◌%◌, bit_and, u8, u32, ◌>>>◌, ◌==◌, if◌then◌else◌, Option, some, none, List, [],
  ◌∷◌,
}
use brunix.Io.{Trace, outb}
use brunix.Kernel.{
  Kernel, Registers, Handler, timer_callback, Outcome, running, fault, ◌|>◌, on_trace,
  register_irq_handler,
}

abbrev pub irq0 : ℕ
irq0 = 32

unfoldable pub get_clock_tick : Kernel → ℕ
get_clock_tick k = k.timer_ticks

-- `timer_callback`; the counter is a `uint64_t`.
unfoldable pub tick : Registers → Kernel → Outcome
tick regs k = running (record k { timer_ticks = (k.timer_ticks + 1) % 2 ^ 64 })

-- The command byte and the two halves of the divisor.
unfoldable pub program : ℕ → Trace → Trace
unfolding outb
program divisor t =
    let t = outb 0x43 0x36 t in
    let t = outb 0x40 (u8 (bit_and divisor 0xff)) t in
    outb 0x40 (u8 (bit_and (divisor >>> 8) 0xff)) t

-- A division by zero is an exception.
unfoldable pub timer_init : (Handler → ℕ) → ℕ → Kernel → Outcome
unfolding program
timer_init address frequency k = register_irq_handler address irq0 timer_callback k |> λ k.
    if frequency == 0 then fault else running (on_trace (program (1193180 / frequency)) k)
