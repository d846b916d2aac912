-- ===== src/Kernel.antt =====
-- The state that the kernel's handlers share, and how an operation on it can end.
-- arch/x86/include/asm/isr.h: `registers_t`; arch/x86/kernel/isr.c and irq.c: the tables of handlers.
pub mod Register
pub mod Shown
pub mod Samples
mod Tests
use brunix.Prelude.{
  ℕ, ◌-◌, ◌+◌, ◌^◌, u8, u32, ◌==◌, Bool, if◌then◌else◌, Option, some, none, List, [], ◌∷◌, codes,
}
use brunix.Io.{Trace}
use brunix.Vga.{Console}
use brunix.Gdt.{Segmentation}
use brunix.Idt.{Idt}
use brunix.Printk.{Arg, printk, debug}

-- `struct registers_t`, in the order in which the assembly stubs push it.
pub record Registers : Type 0 where
  pub ds : ℕ
  pub edi : ℕ
  pub esi : ℕ
  pub ebp : ℕ
  pub esp : ℕ
  pub ebx : ℕ
  pub edx : ℕ
  pub ecx : ℕ
  pub eax : ℕ
  pub int_no : ℕ
  pub err_code : ℕ
  pub eip : ℕ
  pub cs : ℕ
  pub eflags : ℕ
  pub useresp : ℕ
  pub ss : ℕ

-- The functions whose addresses the kernel registers: an `isr_t` is NULL (`none`) or one of these.
pub data Handler : Type 0 where
  timer_callback kbd_callback page_fault_callback : Handler

-- The static variables, and whether the processor takes interrupts.
pub record Kernel : Type 0 where
  pub con : Console
  pub interrupt_handlers : ℕ → Option Handler
  pub irq_handlers : ℕ → Option Handler
  pub timer_ticks : ℕ
  pub segmentation : Segmentation
  pub idt : Idt
  pub interrupts : Bool
  pub initial_esp : ℕ

-- An operation returns, halts the processor for ever, or does what C leaves undefined.
pub data Outcome : Type 0 where
  running : Kernel → Outcome
  halted : Kernel → Outcome
  fault : Outcome

infixl 5 ◌|>◌
abbrev pub ◌|>◌ : Outcome → (Kernel → Outcome) → Outcome
running k |> f = f k
halted k |> f = halted k
fault |> f = fault

-- An operation on the console, as one on the kernel.
abbrev pub on_console : Option Console → Kernel → Outcome
on_console none k = fault
on_console (some c) k = running (record k { con = c })

abbrev pub on_trace : (Trace → Trace) → Kernel → Kernel
on_trace f k = record k { con = record k.con { trace = f k.con.trace } }

-- An argument that is a number, and one that is a string literal; nothing prints the latter's address.
abbrev pub number : ℕ → Arg
number n = record { word = u32 n; target = none }

abbrev pub string : List ℕ → Arg
string str = record { word = 0; target = some str }

-- `printk` in the middle of a handler or of the start.
abbrev pub print : List ℕ → List Arg → Kernel → Outcome
print fmt args k = on_console (printk fmt args k.con) k

-- `register_interrupt_handler(n, handler)`; `address` gives the address of each function.
unfoldable pub register_interrupt_handler : (Handler → ℕ) → ℕ → Handler → Kernel → Outcome
register_interrupt_handler address n handler k =
    on_console
      (debug (codes "ISR") (codes "Registering interrupt handler number %d, handler %x!")
        (number (u8 n) ∷ number (address handler) ∷ []) k.con)
      k
    |> λ k. running (record k {
      interrupt_handlers = λ j. if j == u8 n then some handler else k.interrupt_handlers j;
    })

-- `register_irq_handler(n, handler)`; `n - 32` is an `int`.
unfoldable pub register_irq_handler : (Handler → ℕ) → ℕ → Handler → Kernel → Outcome
register_irq_handler address n handler k =
    on_console
      (debug (codes "irq") (codes "Registering IRQ handler number %d (%d), handler %x!...")
        (number (u8 n + 2 ^ 32 - 32) ∷ number (u8 n) ∷ number (address handler) ∷ []) k.con)
      k
    |> λ k.
        running
          (record k { irq_handlers = λ j. if j == u8 n then some handler else k.irq_handlers j })
