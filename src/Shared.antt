-- ===== src/Shared.antt =====
-- libkern/stdio.c, kernel/timer.c, arch/x86/kernel/vga.c and irq.c together: `printk` and the writes of
-- `timer_init` while interrupts arrive.
-- The screen and its cursor are shared with `kbd_callback`, which prints too.
pub mod Merges
pub mod Within
pub mod Programs
mod Tests
use brunix.Prelude.{ℕ, ◌+◌, List, [], ◌∷◌}
use brunix.Io.{Devices}
use brunix.Vga.{putc}
use brunix.Printk.Formatter.{put_all}
use brunix.Kernel.{Kernel, Outcome, running, ◌|>◌}
use brunix.Dispatch.{irq_handler}
use brunix.Dispatch.Irq.{Source, clock, keyboard}
use brunix.Dispatch.Serve.{Interrupt, raised, stub_regs}

-- What the processor does next: the next byte of the text, or an interrupt.
pub data Turn : Type 0 where
  byte : Turn
  arrival : Interrupt → Turn

abbrev pub put_byte : ℕ → Kernel → Kernel
put_byte c k = record k { con = putc c k.con }

-- The bytes of a text, with interrupts before and between them; behind the last turn the rest of
-- the text is put without one.
unfoldable pub put_text : Devices → ℕ → List Turn → List ℕ → Kernel → Outcome
put_text devices cr2 [] text k = running (record k { con = put_all text k.con })
put_text devices cr2 (byte ∷ turns) [] k = put_text devices cr2 turns [] k
put_text devices cr2 (byte ∷ turns) (c ∷ text) k = put_text devices cr2 turns text (put_byte c k)
put_text devices cr2 (arrival i ∷ turns) text k =
    irq_handler devices cr2 (stub_regs i) k |> put_text devices cr2 turns text
