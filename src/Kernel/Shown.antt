-- ===== src/Kernel/Shown.antt =====
-- arch/x86/kernel/isr.c and irq.c: what the registrations leave on the screen.
use brunix.Prelude.{ℕ, ◌+◌, ◌-◌, ◌^◌, ◌≡◌, refl, ap, arith, u8, some, [], ◌∷◌, ◌++◌, codes}
use brunix.Vga.{Console}
use brunix.Vga.Terminal.{Terminal}
use brunix.Printk.{next_arg}
use brunix.Printk.Formatter.{render, arg_text, hex_text}
use brunix.Kernel.{
  Kernel, Handler, running, number, ◌|>◌, register_interrupt_handler, register_irq_handler,
}
use brunix.Kernel.Register.{set_entry}
use brunix.Log.{Message, type_log, decimal_of, hex_of, grey, Plain}
use brunix.Log.Steps.{debug-Displays}

abbrev pub interrupt_message : ℕ → ℕ → Message
interrupt_message n address = grey (codes "ISR") (
    codes "Registering interrupt handler number "
    ∷ decimal_of n
    ∷ codes ", handler "
    ∷ hex_of address
    ∷ codes "!\n"
    ∷ [])

-- The number counted from 32 on, and from 0.
abbrev pub irq_message : ℕ → ℕ → ℕ → Message
irq_message line n address = grey (codes "irq") (
    codes "Registering IRQ handler number "
    ∷ decimal_of line
    ∷ codes " ("
    ∷ decimal_of n
    ∷ codes "), handler "
    ∷ hex_of address
    ∷ codes "!...\n"
    ∷ [])

interrupt_text :
    (a b : ℕ)
    → render
        (codes "["
          ++ (codes "ISR"
              ++ (codes "]: "
                  ++ (codes "Registering interrupt handler number %d, handler %x!" ++ (10 ∷ [])))))
        (number a ∷ number b ∷ [])
      ≡ some (interrupt_message a b).text
unfolding render arg_text next_arg hex_text
interrupt_text a b = refl

irq_text :
    (a b c : ℕ)
    → render
        (codes "["
          ++ (codes "irq"
              ++ (codes "]: "
                  ++ (codes "Registering IRQ handler number %d (%d), handler %x!..."
                      ++ (10 ∷ [])))))
        (number a ∷ number b ∷ number c ∷ [])
      ≡ some (irq_message a b c).text
unfolding render arg_text next_arg hex_text
irq_text a b c = refl

pub register_interrupt_handler_shows :
    (address : Handler → ℕ) (n : ℕ) (handler : Handler) (k : Kernel) (t : Terminal)
    → Plain k.con t
    → (c : Console) × (register_interrupt_handler address n handler k
        ≡ running (record k {
          con = c;
          interrupt_handlers = set_entry k.interrupt_handlers (u8 n) handler;
        }))
      × Plain c (type_log (interrupt_message (u8 n) (address handler) ∷ []) t)
unfolding register_interrupt_handler type_log
register_interrupt_handler_shows address n handler k t p =
    let d =
      debug-Displays (codes "ISR") (codes "Registering interrupt handler number %d, handler %x!") _
        k t (omega arith) (interrupt_text (u8 n) (address handler)) p in
    (
      d.con,
      ap
          (λ o. o |> λ k.
            running
              (record k { interrupt_handlers = set_entry k.interrupt_handlers (u8 n) handler }))
          d.runs,
      d.plain,
    )

pub register_irq_handler_shows :
    (address : Handler → ℕ) (n : ℕ) (handler : Handler) (k : Kernel) (t : Terminal)
    → Plain k.con t
    → (c : Console) × (register_irq_handler address n handler k
        ≡ running (record k { con = c; irq_handlers = set_entry k.irq_handlers (u8 n) handler }))
      × Plain c (type_log (irq_message (u8 n + 2 ^ 32 - 32) (u8 n) (address handler) ∷ []) t)
unfolding register_irq_handler type_log
register_irq_handler_shows address n handler k t p =
    let d =
      debug-Displays (codes "irq") (codes "Registering IRQ handler number %d (%d), handler %x!...")
        _ k t (omega arith) (irq_text (u8 n + 2 ^ 32 - 32) (u8 n) (address handler)) p in
    (
      d.con,
      ap
          (λ o.
            o |> λ k. running (record k { irq_handlers = set_entry k.irq_handlers (u8 n) handler }))
          d.runs,
      d.plain,
    )
