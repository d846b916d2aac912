-- ===== src/Dispatch/Isr.antt =====
-- arch/x86/kernel/isr.c: what `isr_handler` does with an exception.
use brunix.Prelude.{
  ℕ, ◌%◌, ◌≡◌, refl, ap, ◌∙◌, arith, bit_and, bit_and_mask, u8, some, none, List, [], ◌∷◌, codes,
}
use brunix.Io.{Devices}
use brunix.Vga.{Console}
use brunix.Printk.{printk, next_arg, color_red}
use brunix.Printk.Render.{printk_returns}
use brunix.Printk.Formatter.{render, arg_text, put_all}
use brunix.Kernel.{
  Kernel, Registers, Handler, page_fault_callback, running, halted, ◌|>◌, number,
  register_interrupt_handler,
}
use brunix.Kernel.Register.{set_entry, register_interrupt_handler_lem}
use brunix.Paging.Fault.{page_fault_lem}
use brunix.Dispatch.{call, call_entry, isr_handler}

abbrev greeting : List ℕ
greeting = codes "Calling isr_handler()!\n"

greeting_returns : (s : Console) → (s' : Console) × (printk greeting [] s ≡ some s')
greeting_returns s =
    let (t, e) = printk_returns greeting [] s tt (unfold render in tt) in (put_all t s, e)

unhandled_returns :
    (a b : ℕ) (s : Console)
    → (s' : Console) × (printk
          (codes "*** Unhandled interrupt: %d (error code: %d)\n")
          (number a ∷ number b ∷ [])
          s
        ≡ some s')
unhandled_returns a b s =
    let (t, e) =
      printk_returns (codes "*** Unhandled interrupt: %d (error code: %d)\n")
        (number a ∷ number b ∷ []) s (omega arith) (unfold render arg_text next_arg in tt) in
    (put_all t s, e)

low_byte : (n : ℕ) → u8 (bit_and n 0xff) ≡ n % 256
low_byte n = omega (arith, bit_and_mask 8 n)

-- `isr_handler` looks at the low 8 bits of the interrupt's number only: where their entry is NULL, it
-- returns with both tables and the clock as they were.
isr_handler-unhandled :
    (devices : Devices) (cr2 : ℕ) (regs : Registers) (k : Kernel)
    → k.interrupt_handlers (regs.int_no % 256) ≡ none
    → (s : Console) × (isr_handler devices cr2 regs k ≡ running (record k { con = s }))
unfolding isr_handler call_entry
isr_handler-unhandled devices cr2 regs k h =
    let (s1, e1) = greeting_returns k.con in
    let (s2, e2) = unhandled_returns regs.int_no regs.err_code s1 in
    (s2, rw (e1, low_byte regs.int_no, h, e2) refl)

-- Where that entry is `page_fault_callback`, it halts, in red, with the rest as it was.
pub isr_handler-page_fault :
    (devices : Devices) (cr2 : ℕ) (regs : Registers) (k : Kernel)
    → k.interrupt_handlers (regs.int_no % 256) ≡ some page_fault_callback
    → (s : Console) × (isr_handler devices cr2 regs k ≡ halted (record k { con = s }))
      × (s.fore_colour ≡ color_red)
unfolding isr_handler call_entry call
isr_handler-page_fault devices cr2 regs k h =
    let (s1, e1) = greeting_returns k.con in
    let (s3, e3, red) = page_fault_lem cr2 regs (record k { con = s1 }) in
    (s3, rw (e1, low_byte regs.int_no, h, e3) refl, red)

-- After the registration that `paging_init` makes, in whatever state, `isr_handler` halts for every
-- interrupt whose number has the low 8 bits 14, in red and with nothing changed but that entry and
-- the console.
isr_handler-register_interrupt_handler :
    (devices : Devices) (address : Handler → ℕ) (cr2 : ℕ) (regs : Registers) (k : Kernel)
    → regs.int_no % 256 ≡ 14
    → (s : Console) × ((register_interrupt_handler address 14 page_fault_callback k
          |> isr_handler devices cr2 regs)
        ≡ halted (record k {
          con = s;
          interrupt_handlers = set_entry k.interrupt_handlers 14 page_fault_callback;
        }))
      × (s.fore_colour ≡ color_red)
isr_handler-register_interrupt_handler devices address cr2 regs k vector =
    let (s1, e1, _) = register_interrupt_handler_lem address 14 page_fault_callback k in
    let k1 = record k {
      con = s1;
      interrupt_handlers = set_entry k.interrupt_handlers 14 page_fault_callback;
    } in
    let (s2, e2, red) = isr_handler-page_fault devices cr2 regs k1 (rw vector refl) in
    (s2, ap (λ o. o |> isr_handler devices cr2 regs) e1 ∙ e2, red)
