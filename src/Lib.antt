-- ===== src/Lib.antt =====
-- The kernel Brunix for the 32-bit PC: its console, its descriptor tables, its interrupts and its paging.
--
-- The parts and the files that model them:
-- - kernel/main.c, arch/x86/include/asm/multiboot.h: `kmain`, which calls the initialisations of the
--   other parts in turn. Boot (definitions), Boot/Returns, Boot/Phases, Boot/Start
--   and Boot/Ticks (proofs); Boot/Messages has the text that the start prints, Boot/Lines and Boot/Shown the screen
--   behind it; Boot/Interleaved has the calls behind `sti` as steps between which interrupts arrive, and
--   Boot/Deliberate the page fault behind `paging_init`.
-- - arch/x86/kernel/entry_point.asm, multiboot_header.asm: from the boot loader's jump to `kmain`. Entry.
-- - arch/x86/kernel/interrupt.asm: the stubs, instruction by instruction. Stubs; Stubs/Irqs runs them
--   around `irq_handler`.
-- - arch/x86/kernel/vga.c: the text screen. Vga; the specification is the terminal of Vga/Terminal,
--   a cursor and 25 rows of 80 cells on which a byte is typed.
-- - libkern/stdlib.c: `itoa`. Itoa; Itoa/Numeral has the digits of a number, and Itoa/Emit and
--   Itoa/Invert have the two loops.
-- - libkern/stdio.c, include/brunix/stdio.h: `printk`, `debug` and `panic_noargs`. Printk;
--   Printk/Formatter has a formatter that knows no screen.
--   Log has what a sequence of messages leaves on the terminal, each in its colour; Kernel/Shown,
--   Paging/Shown, Dispatch/Shown, Boot/Shown, Boot/Interleaved/Shown
--   and Boot/Deliberate/Shown use it.
-- - arch/x86/include/asm/io.h: `outb`, `inb` and `inw`. Io.
-- - arch/x86/kernel/gdt.c and descriptor_tables.asm: the segments. Gdt.
-- - arch/x86/kernel/idt.c, with the gates of isr.c and irq.c: Idt.
-- - arch/x86/kernel/irq.c: the two interrupt controllers. Pic; Pic/Controller replays an 8259A from
--   what was sent to its ports.
-- - arch/x86/kernel/isr.c and irq.c: the registration of handlers (Kernel, with the state that the
--   handlers share) and the dispatch of interrupts (Dispatch).
-- - kernel/timer.c: Timer; Timer/Divisor replays the interval timer. kernel/keyboard.c: Keyboard.
-- - arch/x86/kernel/memory.c, arch/x86/include/asm/paging.h and paging.asm: Paging; Paging/Identity has
--   the processor's walk through the tables. Control has the two functions of paging.asm,
--   instruction by instruction.
-- - The packed structs of paging.h, gdt.h and idt.h, as words and as the values that their fields can
--   hold: Layout; Layout/Walk is the processor's walk through memory, Layout/Words has the words of
--   the descriptors and gates.
-- - libkern/stdio.c, arch/x86/kernel/vga.c and irq.c together: interrupts that arrive while a text is put.
--   Shared has them between the bytes, Shared/Within between the statements of `vga_putc`
--   and of its `scroll`, and Shared/Programs between the writes of `timer_init`.
-- - libkern/string.c: `memset`, and four functions with empty bodies. Str.
-- - printk.c of the root directory and include/asm/asm.h: an older `printk`, with its padding, its calls
--   of itself and the panics. Monitor; Monitor/Render has the text that it should print. The monitor,
--   `itoa` and `strlen` of that file are in headers that the repository does not have, and are the
--   record `Library`, of which `IsLibrary` says what the names promise.
-- - arch/x86/include/asm/processor.h: `rdtsc`, `msb`, `lsb`, and the busy wait of kernel/timer.c. Processor.
-- - arch/x86/include/asm/stddef.h: the types of numbers, and the conversions to them. Types;
--   Types/Limits has the limits that a 32-bit C gives them.
-- - include/brunix/errno.h: Errno.
--
-- How they interact: an interrupt's stub calls `isr_handler` or `irq_handler`, these look the handler
-- up in a table and call it, and the handlers print through `printk`, which puts one byte after the
-- other on the screen. Every access of a port extends one trace (Io), on which what a device
-- answers may depend; `Devices` is a parameter everywhere. The state is a record that the operations
-- take and return: `Console` for the screen, `Kernel` for all that the handlers reach. An operation
-- that C leaves undefined gives `none` on the console and `fault` on the kernel; a panic gives
-- `halted`. A pointer to a function is one of the three callbacks that the kernel has.
--
-- Numbers are natural numbers with the wrap-around of their C type written out (u8, u16, u32 and
-- `% 2 ^ 64`); the `int` of `itoa` is an integer. Addresses that the linker chooses and the strings
-- that the boot loader leaves are parameters.
--
-- Fuel: the loop of `itoa` that emits the digits has one round more than the number's absolute value,
-- which each round divides by a base of at least 2; the exchange of the digits has one round more
-- than the place behind the last digit, and its two ends meet halfway. The theorems on `itoa` say
-- that the result is reached. The older `printk` has a bound on the depth of its calls of itself, of
-- which 3 is enough, since its calls of itself pass at most one argument, and the calls in those none;
-- the busy wait has a round for each cycle that it waits, and one more. The other loops have their
-- bounds in the source.
--
-- Not modelled: the cache and barrier instructions; an interrupt in the middle of another call than
-- those of `vga_putc`, `printk` and `timer_init`, and one during the start before `sti`, which the processor keeps off; the idle
-- loop; how the compiler lays out the C functions, which are taken to leave the words of the stubs on
-- the stack as they are; the build files, and the boot loader under misc.
pub mod Prelude
pub mod Io
pub mod Itoa
pub mod Vga
pub mod Printk
pub mod Gdt
pub mod Idt
pub mod Pic
pub mod Kernel
pub mod Timer
pub mod Keyboard
pub mod Paging
pub mod Dispatch
pub mod Entry
pub mod Errno
pub mod Boot
pub mod Str
pub mod Layout
pub mod Monitor
pub mod Processor
pub mod Stubs
pub mod Control
pub mod Log
pub mod Types
pub mod Shared
