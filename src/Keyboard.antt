-- ===== src/Keyboard.antt =====
-- kernel/keyboard.c: the scancode table and the callback.
pub mod Press
mod Tests
use brunix.Prelude.{
  ℕ, zero, suc, ◌+◌, bit_and, ◌==◌, if◌then◌else◌, Option, some, none, List, [], ◌∷◌, ◌++◌,
  get_elem?, replicate, codes,
}
use brunix.Io.{Devices, inb}
use brunix.Printk.{printk}
use brunix.Kernel.{
  Kernel, Registers, Handler, kbd_callback, Outcome, running, fault, ◌|>◌, on_console, number,
  register_irq_handler,
}

abbrev pub irq1 : ℕ
irq1 = 33

-- `kbd_US`: 89 initialisers, and zeros up to 128.
abbrev pub kbd_us : List ℕ
kbd_us =
    (0 ∷ 27 ∷ codes "1234567890-=")
    ++ ((8 ∷ 9 ∷ codes "qwertyuiop[]")
        ++ ((10 ∷ 0 ∷ codes "asdfghjkl;'`")
            ++ ((0 ∷ codes "\\zxcvbnm,./")
                ++ ((0 ∷ b'*' ∷ 0 ∷ b' ' ∷ 0 ∷ replicate 15 0)
                    ++ ((b'-' ∷ 0 ∷ 0 ∷ 0 ∷ b'+' ∷ []) ++ replicate 49 0)))))

-- `kbd_callback`
unfoldable pub press : Devices → Registers → Kernel → Outcome
press devices regs k =
    let (scancode, t) = inb devices 0x60 k.con.trace in
    let k = record k { con = record k.con { trace = t } } in
    if bit_and scancode 0x80 == 0
    then elim (get_elem? kbd_us scancode) [
      | none ↦ fault
      | some c ↦ on_console (printk (codes "%c") (number c ∷ []) k.con) k
    ]
    else running k

unfoldable pub kbd_init : (Handler → ℕ) → Kernel → Outcome
kbd_init address k = register_irq_handler address irq1 kbd_callback k
