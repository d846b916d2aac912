-- ===== src/Kernel/Register.antt =====
-- The registration of handlers, and the state that the kernel's start leaves for the interrupts.
use brunix.Prelude.{
  ℕ, ◌+◌, ◌-◌, ◌^◌, ◌≡◌, refl, arith, u8, ◌==◌, if◌then◌else◌, Option, some, [], ◌∷◌, codes,
}
use brunix.Vga.{Console}
use brunix.Printk.{debug, next_arg}
use brunix.Printk.Formatter.{render, arg_text}
use brunix.Printk.Debug.{Prints, debug_returns}
use brunix.Kernel.{
  Kernel, Handler, running, number, register_interrupt_handler, register_irq_handler,
}

abbrev pub set_entry : (ℕ → Option Handler) → ℕ → Handler → ℕ → Option Handler
set_entry table n handler j = if j == n then some handler else table j

interrupt_message :
    (a b : ℕ) (s : Console)
    → (s' : Console) × (debug
          (codes "ISR")
          (codes "Registering interrupt handler number %d, handler %x!")
          (number a ∷ number b ∷ [])
          s
        ≡ some s')
      × Prints s s'
interrupt_message a b s =
    debug_returns (codes "ISR") (codes "Registering interrupt handler number %d, handler %x!")
      (number a ∷ number b ∷ []) s (omega arith) (unfold render arg_text next_arg in tt)

irq_message :
    (a b c : ℕ) (s : Console)
    → (s' : Console) × (debug
          (codes "irq")
          (codes "Registering IRQ handler number %d (%d), handler %x!...")
          (number a ∷ number b ∷ number c ∷ [])
          s
        ≡ some s')
      × Prints s s'
irq_message a b c s =
    debug_returns (codes "irq") (codes "Registering IRQ handler number %d (%d), handler %x!...")
      (number a ∷ number b ∷ number c ∷ []) s (omega arith) (unfold render arg_text next_arg in tt)

-- `register_interrupt_handler` returns for every vector, handler and state; the entry of the low 8
-- bits of the vector is the handler, the rest of both tables and the clock are as they were, a cursor
-- on the screen stays there, and the interrupt controllers are not written to.
pub register_interrupt_handler_lem :
    (address : Handler → ℕ) (n : ℕ) (handler : Handler) (k : Kernel)
    → (s : Console) × (register_interrupt_handler address n handler k
        ≡ running (record k {
          con = s;
          interrupt_handlers = set_entry k.interrupt_handlers (u8 n) handler;
        }))
      × Prints k.con s
unfolding register_interrupt_handler
register_interrupt_handler_lem address n handler k =
    let (s, e, on) = interrupt_message (u8 n) (address handler) k.con in (s, rw e refl, on)

-- `register_irq_handler` returns for every vector, handler and state; the entry of the low 8 bits of
-- the vector in its own table is the handler, the rest of both tables and the clock are as they were,
-- a cursor on the screen stays there, and the interrupt controllers are not written to.
pub register_irq_handler_lem :
    (address : Handler → ℕ) (n : ℕ) (handler : Handler) (k : Kernel)
    → (s : Console) × (register_irq_handler address n handler k
        ≡ running (record k { con = s; irq_handlers = set_entry k.irq_handlers (u8 n) handler }))
      × Prints k.con s
unfolding register_irq_handler
register_irq_handler_lem address n handler k =
    let (s, e, on) = irq_message (u8 n + 2 ^ 32 - 32) (u8 n) (address handler) k.con in
    (s, rw e refl, on)
