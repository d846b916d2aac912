-- ===== src/Shared/Programs.antt =====
-- kernel/timer.c and arch/x86/kernel/irq.c: the writes that program the interval timer, with
-- interrupts between them.
pub mod Counter
pub mod Loads
use brunix.Prelude.{ℕ, bit_and, u8, ◌>>>◌, List, [], ◌∷◌}
use brunix.Io.{Devices, outb}
use brunix.Kernel.{Kernel, Registers, Outcome, running, ◌|>◌, on_trace}
use brunix.Dispatch.{irq_handler}

-- Interrupts, one after the other.
unfoldable pub serve : Devices → ℕ → List Registers → Kernel → Outcome
serve devices cr2 [] k = running k
serve devices cr2 (regs ∷ rest) k = irq_handler devices cr2 regs k |> serve devices cr2 rest

-- The command byte and the two halves of the divisor, with interrupts in the two busy waits.
unfoldable pub program_around : Devices → ℕ → List Registers → List Registers → ℕ → Kernel → Outcome
unfolding outb
program_around devices cr2 first second divisor k =
    running (on_trace (outb 0x43 0x36) k)
    |> serve devices cr2 first
    |> (λ k. running (on_trace (outb 0x40 (u8 (bit_and divisor 0xff))) k))
    |> serve devices cr2 second
    |> λ k. running (on_trace (outb 0x40 (u8 (bit_and (divisor >>> 8) 0xff))) k)
