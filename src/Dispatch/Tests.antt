-- ===== src/Dispatch/Tests.antt =====
-- The handlers at concrete inputs: three interrupts, and two exceptions.
use brunix.Prelude.{
  ◌+◌, ◌-◌, ◌%◌, ◌^◌, ◌≡◌, refl, arith, none, List, [], ◌∷◌, length, leb, if◌then◌else◌, codes,
}
use brunix.Io.{Devices}
use brunix.Vga.{Console}
use brunix.Printk.{color_red}
use brunix.Kernel.{
  Kernel, timer_callback, kbd_callback, page_fault_callback, running, halted, ◌|>◌,
  register_interrupt_handler,
}
use brunix.Kernel.Samples.{started, stacked, address}
use brunix.Kernel.Register.{set_entry}
use brunix.Pic.Controller.{controller}
use brunix.Dispatch.{isr_handler, irq_handler}
use brunix.Dispatch.Irq.{IsReady, clock, keyboard}
use brunix.Dispatch.Serve.{Interrupt, raised, deliver, clocks, deliver_lem}
use brunix.Vga.Terminal.{Shows}
use brunix.Vga.Puts.{empty_terminal}
use brunix.Vga.Number.{word_text}
use brunix.Itoa.Numeral.{numeral, low_digits, digit}
use brunix.Kernel.Shown.{interrupt_message}
use brunix.Paging.Messages.{fault_log}
use brunix.Dispatch.Shown.{
  line_message, line_shows, called_message, unhandled_message, unhandled_shows,
  registered_page_fault_shows,
}
use brunix.Log.{type_log, Plain}
use brunix.Log.Samples.{started-Plain}

abbrev key_a : Devices
key_a t port = 0x1e

abbrev three : List Interrupt
three = raised clock (stacked 0 0) ∷ raised keyboard (stacked 0 0) ∷ raised clock (stacked 0 0) ∷ []

-- Both handlers are registered, and the counter is about to wrap.
abbrev late : Kernel
late = record started {
  irq_handlers = set_entry (set_entry (λ _. none) 32 timer_callback) 33 kbd_callback;
  timer_ticks = 2 ^ 64 - 1;
}

late-IsReady : IsReady late
late-IsReady = record {
  timer = refl;
  kbd = refl;
  on = record { column = omega arith; row = omega arith };
  ticks = omega arith;
}

deliver_lem_example :
    (k' : Kernel) × (deliver key_a 0 three late ≡ running k')
    × IsReady k'
    × (k'.timer_ticks ≡ (late.timer_ticks + clocks three) % 2 ^ 64)
    × ((controller 0x20 k'.con.trace).ends ≡ (controller 0x20 late.con.trace).ends + length three)
    × (controller 0xa0 k'.con.trace ≡ controller 0xa0 late.con.trace)
deliver_lem_example = deliver_lem key_a 0 three late late-IsReady

-- A system call, whose vector the processor has extended by its sign.
unhandled_shows_example :
    (c : Console) × (isr_handler key_a 0 (stacked 0xffffff80 0) started
      ≡ running (record started { con = c }))
    × Plain c
        (type_log (called_message ∷ unhandled_message (stacked 0xffffff80 0) ∷ []) empty_terminal)
unhandled_shows_example =
    unhandled_shows key_a 0 (stacked 0xffffff80 0) started empty_terminal refl started-Plain

unhandled_text :
    (unhandled_message (stacked 0xffffff80 0)).text
    ≡ codes "*** Unhandled interrupt: -128 (error code: 0)\n"
unfolding word_text numeral low_digits digit
unhandled_text = refl

registered_page_fault_shows_example :
    (c : Console) × ((register_interrupt_handler address 14 page_fault_callback started
        |> isr_handler key_a 0x400000 (stacked 14 0))
      ≡ halted (record started {
        con = c;
        interrupt_handlers = set_entry started.interrupt_handlers 14 page_fault_callback;
      }))
    × Shows c (
        type_log
          (interrupt_message 14 (address page_fault_callback)
            ∷ called_message
            ∷ fault_log 0x400000 (stacked 14 0))
          empty_terminal)
    × (c.fore_colour ≡ color_red)
registered_page_fault_shows_example =
    registered_page_fault_shows key_a address 0x400000 (stacked 14 0) started empty_terminal refl
      started-Plain

-- An interrupt of the disk, line 14.
line_shows_example :
    (c : Console) × (irq_handler key_a 0 (stacked 46 0) started
      ≡ running (record started { con = c }))
    × Plain c (type_log (line_message 14 ∷ []) empty_terminal)
    × (controller 0x20 c.trace
        ≡ record (controller 0x20 []) { ends = (controller 0x20 []).ends + 1 })
    × (controller 0xa0 c.trace ≡ (
        if leb 40 46
        then record (controller 0xa0 []) { ends = (controller 0xa0 []).ends + 1 }
        else controller 0xa0 []))
line_shows_example =
    line_shows key_a 0 (stacked 46 0) started empty_terminal (omega arith) (omega arith) refl
      started-Plain
