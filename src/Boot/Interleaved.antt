-- ===== src/Boot/Interleaved.antt =====
-- kernel/main.c: the calls of `kmain` behind `sti`, with interrupts between them.
pub mod Calls
pub mod Good
pub mod Boots
pub mod Shown
use brunix.Prelude.{
  ℕ, ◌^◌, ◌/◌, ◌≤◌, ◌<◌, ◌≡◌, refl, ap, ◌∙◌, arith, true, Bool, ◌==◌, if◌then◌else◌, Bool-cases,
  inl, inr, Option, some, none, [], codes,
}
use brunix.Io.{Devices}
use brunix.Vga.{Console}
use brunix.Vga.Cursor.{IsOnScreen}
use brunix.Printk.Formatter.{render}
use brunix.Printk.Debug.{Prints}
use brunix.Kernel.{
  Kernel, Registers, Handler, timer_callback, kbd_callback, Outcome, running, halted, fault, ◌|>◌,
  on_trace, print,
}
use brunix.Kernel.Register.{set_entry, register_irq_handler_lem}
use brunix.Timer.{program, timer_init}
use brunix.Keyboard.{irq1, kbd_init}
use brunix.Dispatch.{irq_handler}
use brunix.Dispatch.Irq.{IsReady}
use brunix.Dispatch.Early.{CanServe, IsDevice, Keeps, irq_handler-Serves}
use brunix.Dispatch.Start.{timer_init_returns}
use brunix.Boot.{Image, print_timer_ticks}
use brunix.Boot.Returns.{Returned, print-Returned, ticks-Returned}

-- The calls from `timer_init` to the message about the paging.
pub data Call : Type 0 where
  call_timer_init call_print_timer_ticks call_print_keyboard call_kbd_init call_print_vmm
        call_print_paging :
      Call

pub data Place : Type 0 where
  before : Call → Place
  at_paging : Place

unfoldable pub perform : Image → Call → Kernel → Outcome
perform image call_timer_init k = timer_init image.handler 100 k
perform image call_print_timer_ticks k = print_timer_ticks k
perform image call_print_keyboard k = print (codes "Keyboard...") [] k
perform image call_kbd_init k = kbd_init image.handler k
perform image call_print_vmm k = print (codes "VMM...") [] k
perform image call_print_paging k = print (codes "Init paging...\n") [] k

abbrev pub behind : Call → Place
behind call_timer_init = before call_print_timer_ticks
behind call_print_timer_ticks = before call_print_keyboard
behind call_print_keyboard = before call_kbd_init
behind call_kbd_init = before call_print_vmm
behind call_print_vmm = before call_print_paging
behind call_print_paging = at_paging

-- Where `kmain` stands, and what has become of the kernel so far.
pub data Point : Type 0 where
  at : Place → Outcome → Point

-- The next call is made, or an interrupt of one of the 16 lines arrives; nothing happens to a kernel
-- that has halted or faulted.
pub data Step (devices : Devices) (image : Image) : Point → Point → Type 0 where
  called :
      (c : Call) (o : Outcome)
      → Step devices image (at (before c) o) (at (behind c) (o |> perform image c))
  interrupted :
      (p : Place) (o : Outcome) (cr2 : ℕ) (regs : Registers)
      → 32 ≤ regs.int_no
      → regs.int_no < 48
      → Step devices image (at p o) (at p (o |> irq_handler devices cr2 regs))

pub data Reach (devices : Devices) (image : Image) (x : Point) : Point → Type 0 where
  here : Reach devices image x x
  next : {y z : Point} → Reach devices image x y → Step devices image y z → Reach devices image x z
