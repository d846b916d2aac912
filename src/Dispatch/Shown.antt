-- ===== src/Dispatch/Shown.antt =====
-- arch/x86/kernel/isr.c and irq.c: what an exception, and an interrupt of a line without a handler, leave on
-- the screen.
use mathlib.Core.Path.{subst}
use brunix.Prelude.{
  List, ◌+◌, ◌++◌, ◌-◌, ◌^◌, ◌≤◌, ◌<◌, u32, ltb, leb, ◌==◌, ◌||◌, false, true, if◌then◌else◌, ℕ,
  ◌%◌, ◌≡◌, refl, ap, ◌∙◌, arith, bit_and, bit_and_mask, u8, some, none, [], ◌∷◌, codes,
}
use brunix.Io.{Devices}
use brunix.Vga.{Console}
use brunix.Vga.Terminal.{Terminal, Shows}
use brunix.Printk.{next_arg, color_red}
use brunix.Printk.Formatter.{render, arg_text}
use brunix.Kernel.{
  Kernel, Registers, Handler, page_fault_callback, running, halted, ◌|>◌, number, print,
  register_interrupt_handler,
}
use brunix.Kernel.Register.{set_entry}
use brunix.Kernel.Shown.{interrupt_message, register_interrupt_handler_shows}
use brunix.Paging.Shown.{page_fault_shows}
use brunix.Paging.Messages.{fault_log}
use brunix.Vga.Number.{word_text}
use brunix.Vga.Puts.{type_all}
use brunix.Pic.{pic_acknowledge}
use brunix.Pic.Controller.{Controller, controller, pic_acknowledge_lem}
use brunix.Dispatch.{call, call_entry, isr_handler, report_irq, irq_handler}
use brunix.Log.{Message, type_log, decimal_of, white, grey, Plain, Displays}
use brunix.Log.Steps.{print-Displays, debug-Displays, Plain-trace}

abbrev pub called_message : Message
called_message = white (codes "Calling isr_handler()!\n" ∷ [])

abbrev pub unhandled_message : Registers → Message
unhandled_message regs = white (
    codes "*** Unhandled interrupt: "
    ∷ decimal_of regs.int_no
    ∷ codes " (error code: "
    ∷ decimal_of regs.err_code
    ∷ codes ")\n"
    ∷ [])

unhandled_text :
    (regs : Registers)
    → render
        (codes "*** Unhandled interrupt: %d (error code: %d)\n")
        (number regs.int_no ∷ number regs.err_code ∷ [])
      ≡ some (unhandled_message regs).text
unfolding render arg_text next_arg
unhandled_text regs = refl

called-Displays :
    (k : Kernel) (t : Terminal)
    → Plain k.con t
    → Displays (print (codes "Calling isr_handler()!\n") [] k) k (type_log (called_message ∷ []) t)
unfolding type_log render
called-Displays k t p = print-Displays (codes "Calling isr_handler()!\n") [] k t tt refl p

low_byte : (n : ℕ) → u8 (bit_and n 0xff) ≡ n % 256
low_byte n = omega (arith, bit_and_mask 8 n)

-- On a console in white on black, where the entry of the low 8 bits of the interrupt's number is NULL:
-- `isr_handler` returns with nothing but the console changed, and the screen shows its two messages,
-- the second with the whole number and the error code.
pub unhandled_shows :
    (devices : Devices) (cr2 : ℕ) (regs : Registers) (k : Kernel) (t : Terminal)
    → k.interrupt_handlers (regs.int_no % 256) ≡ none
    → Plain k.con t
    → (c : Console) × (isr_handler devices cr2 regs k ≡ running (record k { con = c }))
      × Plain c (type_log (called_message ∷ unhandled_message regs ∷ []) t)
unfolding isr_handler call_entry type_log
unhandled_shows devices cr2 regs k t h p =
    let d = called-Displays k t p in
    let e =
      print-Displays (codes "*** Unhandled interrupt: %d (error code: %d)\n") _
        (record k { con = d.con }) _ (omega arith) (unhandled_text regs) d.plain in
    (e.con, rw (d.runs, low_byte regs.int_no, h) e.runs, e.plain)

-- Where that entry is `page_fault_callback`, it halts with the messages of a page fault.
pub isr_handler-page_fault_shows :
    (devices : Devices) (cr2 : ℕ) (regs : Registers) (k : Kernel) (t : Terminal)
    → k.interrupt_handlers (regs.int_no % 256) ≡ some page_fault_callback
    → Plain k.con t
    → (c : Console) × (isr_handler devices cr2 regs k ≡ halted (record k { con = c }))
      × Shows c (type_log (called_message ∷ fault_log cr2 regs) t)
      × (c.fore_colour ≡ color_red)
unfolding isr_handler call_entry call type_log
isr_handler-page_fault_shows devices cr2 regs k t h p =
    let d = called-Displays k t p in
    let (c, e, shown, red) = page_fault_shows cr2 regs (record k { con = d.con }) _ d.plain in
    (c, rw (d.runs, low_byte regs.int_no, h) e, shown, red)

-- On a console in white on black, after the registration that `paging_init` makes, in whatever state:
-- `isr_handler` halts for every interrupt whose number has the low 8 bits 14, in red and with nothing
-- changed but that entry and the console, and the screen shows the message of the registration and
-- those of `isr_handler` and of the page fault.
pub registered_page_fault_shows :
    (devices : Devices) (address : Handler → ℕ) (cr2 : ℕ) (regs : Registers) (k : Kernel)
    (t : Terminal)
    → regs.int_no % 256 ≡ 14
    → Plain k.con t
    → (c : Console) × ((register_interrupt_handler address 14 page_fault_callback k
          |> isr_handler devices cr2 regs)
        ≡ halted (record k {
          con = c;
          interrupt_handlers = set_entry k.interrupt_handlers 14 page_fault_callback;
        }))
      × Shows c (
          type_log
            (interrupt_message 14 (address page_fault_callback)
              ∷ called_message
              ∷ fault_log cr2 regs)
            t)
      × (c.fore_colour ≡ color_red)
unfolding type_log
registered_page_fault_shows devices address cr2 regs k t vector p =
    let (s1, e1, p1) = register_interrupt_handler_shows address 14 page_fault_callback k t p in
    let k1 = record k {
      con = s1;
      interrupt_handlers = set_entry k.interrupt_handlers 14 page_fault_callback;
    } in
    let (s2, e2, shown, red) =
      isr_handler-page_fault_shows devices cr2 regs k1 _ (rw vector refl) p1 in
    (s2, ap (λ o. o |> isr_handler devices cr2 regs) e1 ∙ e2, shown, red)

-- The message about an interrupt of another line than the timer's and the keyboard's.
abbrev line_message_of : ℕ → List ℕ
line_message_of w = codes "[isr]: Calling isr_handler() for IRQ " ++ (word_text 10 w ++ codes "!\n")

abbrev pub line_message : ℕ → Message
line_message line =
    grey (codes "isr") (codes "Calling isr_handler() for IRQ " ∷ decimal_of line ∷ codes "!\n" ∷ [])

pub line_text :
    (n : ℕ)
    → render
        (codes "["
          ++ (codes "isr"
              ++ (codes "]: " ++ (codes "Calling isr_handler() for IRQ %d!" ++ (10 ∷ [])))))
        (number n ∷ [])
      ≡ some (line_message n).text
unfolding render arg_text next_arg
line_text n = refl

-- On a console in white on black, for an interrupt of the lines 2 to 15 whose entry is NULL:
-- `irq_handler` returns with its message on the screen, which has the line's number, and with one end of
-- interrupt sent to the master controller and, for the lines from 8 on, one to the slave.
pub line_shows :
    (devices : Devices) (cr2 : ℕ) (regs : Registers) (k : Kernel) (t : Terminal)
    → 34 ≤ regs.int_no
    → regs.int_no < 48
    → k.irq_handlers regs.int_no ≡ none
    → Plain k.con t
    → (c : Console) × (irq_handler devices cr2 regs k ≡ running (record k { con = c }))
      × Plain c (type_log (line_message (regs.int_no - 32) ∷ []) t)
      × (controller 0x20 c.trace
          ≡ record (controller 0x20 k.con.trace) { ends = (controller 0x20 k.con.trace).ends + 1 })
      × (controller 0xa0 c.trace ≡ (
          if leb 40 regs.int_no
          then record (controller 0xa0 k.con.trace) {
            ends = (controller 0xa0 k.con.trace).ends + 1;
          }
          else controller 0xa0 k.con.trace))
unfolding irq_handler report_irq call_entry type_log
line_shows devices cr2 regs k t low high h p =
    let line : u32 (u32 regs.int_no + 2 ^ 32 - 32) ≡ u32 (regs.int_no - 32) = omega arith in
    let other : (regs.int_no == 32 || regs.int_no == 33) ≡ false = ground arith in
    let inside : ltb regs.int_no 256 ≡ true = ground arith in
    let d =
      debug-Displays (codes "isr") (codes "Calling isr_handler() for IRQ %d!")
        (number (u32 regs.int_no + 2 ^ 32 - 32) ∷ []) k t (omega arith)
        (line_text (u32 regs.int_no + 2 ^ 32 - 32)) p in
    let u = pic_acknowledge devices regs.int_no d.con.trace in
    let (master, slave) = pic_acknowledge_lem devices regs.int_no d.con.trace in
    (
      record d.con { trace = u },
      rw (other, d.runs, inside, h) refl,
      Plain-trace d.con _ u
          (subst (λ (w : ℕ). Plain d.con (type_all 7 (line_message_of w) t)) line d.plain),
      master ∙ ap (λ (c : Controller). record c { ends = c.ends + 1 }) d.prints.master,
      slave
          ∙ ap
              (λ (c : Controller). if leb 40 regs.int_no then record c { ends = c.ends + 1 } else c)
              d.prints.slave,
    )
