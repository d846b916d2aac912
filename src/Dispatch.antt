-- ===== src/Dispatch.antt =====
-- arch/x86/kernel/isr.c and irq.c: the C handlers that the assembly stubs call, and what they call.
pub mod Irq
pub mod Early
pub mod Serve
pub mod Start
pub mod Isr
pub mod Shown
pub mod Noise
mod Tests
use brunix.Prelude.{
  ℕ, suc, ◌+◌, ◌-◌, ◌^◌, ◌%◌, bit_and, u8, u32, ◌==◌, ltb, ◌||◌, if◌then◌else◌, Option, some, none,
  List, [], ◌∷◌, ◌++◌, codes,
}
use brunix.Io.{Devices}
use brunix.Printk.{printk, debug}
use brunix.Kernel.{
  Kernel, Registers, Handler, timer_callback, kbd_callback, page_fault_callback, Outcome, running,
  halted, fault, ◌|>◌, on_console, on_trace, number,
}
use brunix.Timer.{tick}
use brunix.Keyboard.{press}
use brunix.Paging.{page_fault}
use brunix.Pic.{pic_acknowledge}

-- The call through a function pointer. `cr2` is the processor's register of the address that faulted.
unfoldable pub call : Devices → ℕ → Handler → Registers → Kernel → Outcome
call devices cr2 timer_callback regs k = tick regs k
call devices cr2 kbd_callback regs k = press devices regs k
call devices cr2 page_fault_callback regs k = page_fault cr2 regs k

-- The call of an entry of a table, and what is done where it is NULL.
unfoldable pub call_entry :
    Devices → ℕ → Option Handler → (Kernel → Outcome) → Registers → Kernel → Outcome
call_entry devices cr2 none otherwise regs k = otherwise k
call_entry devices cr2 (some h) otherwise regs k = call devices cr2 h regs k

-- `isr_handler`
unfoldable pub isr_handler : Devices → ℕ → Registers → Kernel → Outcome
isr_handler devices cr2 regs k =
    on_console (printk (codes "Calling isr_handler()!\n") [] k.con) k |> λ k.
    let int_no = u8 (bit_and regs.int_no 0xff) in
    call_entry devices cr2 (k.interrupt_handlers int_no)
      (λ k.
        on_console
          (printk (codes "*** Unhandled interrupt: %d (error code: %d)\n")
            (number regs.int_no ∷ number regs.err_code ∷ []) k.con)
          k)
      regs k

-- The message about an IRQ that is neither the timer's nor the keyboard's.
unfoldable pub report_irq : ℕ → Kernel → Outcome
report_irq int_no k =
    if int_no == 32 || int_no == 33
    then running k
    else on_console
        (debug (codes "isr") (codes "Calling isr_handler() for IRQ %d!")
          (number (u32 int_no + 2 ^ 32 - 32) ∷ []) k.con)
        k

-- `irq_handler`. The table is indexed by the 32 bits of `int_no`: outside its 256 entries C leaves
-- the read undefined.
unfoldable pub irq_handler : Devices → ℕ → Registers → Kernel → Outcome
irq_handler devices cr2 regs k = report_irq regs.int_no k |> λ k.
    running (on_trace (pic_acknowledge devices regs.int_no) k) |> λ k.
    if ltb regs.int_no 256
    then call_entry devices cr2 (k.irq_handlers regs.int_no) running regs k
    else fault
