-- ===== src/Dispatch/Early.antt =====
-- arch/x86/kernel/irq.c: an interrupt of any line, whether or not its handler is registered yet.
use native.Mathlib.Decide.{dec_lt}
use brunix.Prelude.{
  ℕ, ◌+◌, ◌-◌, ◌%◌, ◌^◌, ◌<◌, ◌≡◌, refl, ap, ◌∙◌, arith, u32, ltb, ◌==◌, ◌||◌, true, if◌then◌else◌,
  Bool-cases, inl, inr, Option, some, none, [], ◌∷◌, codes,
}
use brunix.Io.{Devices, inb}
use brunix.Vga.{Console, putc}
use brunix.Vga.Cursor.{IsOnScreen, putc-IsOnScreen}
use brunix.Printk.{next_arg}
use brunix.Printk.Formatter.{render, arg_text}
use brunix.Printk.Debug.{debug_returns}
use brunix.Kernel.{
  Kernel, Registers, Handler, timer_callback, kbd_callback, page_fault_callback, running, ◌|>◌,
  on_trace, number, Outcome, fault,
}
use brunix.Timer.{tick}
use brunix.Keyboard.Press.{press_released, press_pressed}
use brunix.Pic.{pic_acknowledge}
use brunix.Dispatch.{call, call_entry, report_irq, irq_handler}

-- An entry of the table of IRQs: NULL, or the handler of a device.
abbrev pub IsDevice : Option Handler → Type 0
IsDevice none = Unit {0}
IsDevice (some timer_callback) = Unit {0}
IsDevice (some kbd_callback) = Unit {0}
IsDevice (some page_fault_callback) = ⊥

-- The state in which interrupts can be taken.
pub record CanServe (k : Kernel) : Type 0 where
  pub entries : (n : ℕ) → IsDevice (k.irq_handlers n)
  pub on : IsOnScreen k.con
  pub ticks : k.timer_ticks < 2 ^ 64

-- What an interrupt leaves alone.
pub record Keeps (k k' : Kernel) : Type 0 where
  pub handlers : k'.irq_handlers ≡ k.irq_handlers
  pub segmentation : k'.segmentation ≡ k.segmentation
  pub idt : k'.idt ≡ k.idt
  pub interrupts : k'.interrupts ≡ k.interrupts

-- An outcome that returns to such a state.
abbrev pub Serves : Outcome → Kernel → Type 0
Serves o k = (k' : Kernel) × (o ≡ running k') × CanServe k' × Keeps k k'

abbrev settled : Console → ℕ → Kernel → Kernel
settled c t k = record k { con = c; timer_ticks = t }

settled-Keeps : (c : Console) (t : ℕ) (k : Kernel) → Keeps k (settled c t k)
settled-Keeps c t k = record { handlers = refl; segmentation = refl; idt = refl; interrupts = refl }

settled-CanServe :
    (c : Console) (t : ℕ) (k : Kernel)
    → CanServe k
    → IsOnScreen c
    → t < 2 ^ 64
    → CanServe (settled c t k)
settled-CanServe c t k can on small = record { entries = can.entries; on = on; ticks = small }

pub Keeps-trans : (a b c : Kernel) → Keeps a b → Keeps b c → Keeps a c
Keeps-trans a b c p q = record {
  handlers = q.handlers ∙ p.handlers;
  segmentation = q.segmentation ∙ p.segmentation;
  idt = q.idt ∙ p.idt;
  interrupts = q.interrupts ∙ p.interrupts;
}

Serves-bind :
    (o : Outcome) (k : Kernel) (f : Kernel → Outcome)
    → Serves o k
    → ((k1 : Kernel) → CanServe k1 → Serves (f k1) k1)
    → Serves (o |> f) k
Serves-bind o k f (k1, e1, c1, h1) g =
    let (k2, e2, c2, h2) = g k1 c1 in (k2, ap (λ o. o |> f) e1 ∙ e2, c2, Keeps-trans k k1 k2 h1 h2)

module _ (devices : Devices) (cr2 : ℕ) where
  report_irq_returns : (n : ℕ) (k : Kernel) → CanServe k → Serves (report_irq n k) k
  unfolding report_irq render arg_text next_arg
  report_irq_returns n k can = elim (Bool-cases (n == 32 || n == 33)) [
    | inl e ↦ (k, rw e refl, can, settled-Keeps k.con k.timer_ticks k)
    | inr e ↦
        let (c, runs, prints) =
          debug_returns (codes "isr") (codes "Calling isr_handler() for IRQ %d!")
            (number (u32 n + 2 ^ 32 - 32) ∷ []) k.con (omega arith) tt in
        (
          record k { con = c },
          rw (e, runs) refl,
          settled-CanServe c k.timer_ticks k can (prints.on can.on) can.ticks,
          settled-Keeps c k.timer_ticks k,
        )
  ]

  call_entry_returns :
      (e : Option Handler) (regs : Registers) (k : Kernel)
      → IsDevice e
      → CanServe k
      → Serves (call_entry devices cr2 e running regs k) k
  unfolding call_entry call inb
  call_entry_returns none regs k d can = (k, refl, can, settled-Keeps k.con k.timer_ticks k)
  call_entry_returns (some timer_callback) regs k d can =
      let t = (k.timer_ticks + 1) % 2 ^ 64 in
      (
        settled k.con t k,
        unfold tick in refl,
        settled-CanServe k.con t k can can.on (omega arith),
        settled-Keeps k.con t k,
      )
  call_entry_returns (some kbd_callback) regs k d can =
      let con = record k.con { trace = (inb devices 0x60 k.con.trace).1 } in
      let on : IsOnScreen con = record { column = can.on.column; row = can.on.row } in
      elim (dec_lt (inb devices 0x60 k.con.trace).0 128) [
        | no p ↦ (
          record k { con = con },
          press_released devices regs k (omega arith),
          settled-CanServe con k.timer_ticks k can on can.ticks,
          settled-Keeps con k.timer_ticks k,
        )
        | yes p ↦
            let (c, _, runs) = press_pressed devices regs k p in
            (
              record k { con = putc c con },
              runs,
              settled-CanServe (putc c con) k.timer_ticks k can (putc-IsOnScreen c con on)
                  can.ticks,
              settled-Keeps (putc c con) k.timer_ticks k,
            )
      ]
  call_entry_returns (some page_fault_callback) regs k d can = absurd d

  acknowledged :
      (n : ℕ) (k : Kernel)
      → CanServe k
      → Serves (running (on_trace (pic_acknowledge devices n) k)) k
  acknowledged n k can =
      let c = (on_trace (pic_acknowledge devices n) k).con in
      (
        settled c k.timer_ticks k,
        refl,
        settled-CanServe c k.timer_ticks k can (record { column = can.on.column; row = can.on.row })
            can.ticks,
        settled-Keeps c k.timer_ticks k,
      )

  -- With the cursor on the screen and no entry of the table of IRQs but NULL and the handlers of the
  -- timer and the keyboard, an interrupt of any number below 256 is handled without a fault: the
  -- state is such a state again, with the same table, segments and gates, and interrupts enabled as
  -- they were.
  pub irq_handler-Serves :
      (regs : Registers) (k : Kernel)
      → regs.int_no < 256
      → CanServe k
      → Serves (irq_handler devices cr2 regs k) k
  unfolding irq_handler
  irq_handler-Serves regs k small can =
      let inside : ltb regs.int_no 256 ≡ true = ground arith in
      Serves-bind (report_irq regs.int_no k) k _ (report_irq_returns regs.int_no k can) (λ k1 c1.
        Serves-bind _ k1 looked_up (acknowledged regs.int_no k1 c1) (λ k2 c2.
          rw inside
            (call_entry_returns (k2.irq_handlers regs.int_no) regs k2 (c2.entries regs.int_no) c2)))
    where
      looked_up : Kernel → Outcome
      looked_up k =
          if ltb regs.int_no 256
          then call_entry devices cr2 (k.irq_handlers regs.int_no) running regs k
          else fault
