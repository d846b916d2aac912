-- ===== src/Stubs/Tests.antt =====
-- A kernel that is interrupted in the middle of `kmain`, by compiled functions that leave 7 everywhere.
use brunix.Prelude.{true, ℕ, ◌≡◌, refl, arith, none, some, [], ◌∷◌}
use brunix.Io.{Devices}
use brunix.Kernel.{Kernel, Registers, running}
use brunix.Kernel.Samples.{started}
use brunix.Kernel.Register.{set_entry}
use brunix.Kernel.{timer_callback, kbd_callback}
use brunix.Dispatch.{isr_handler}
use brunix.Dispatch.Irq.{IsReady, clock, keyboard}
use brunix.Dispatch.Serve.{deliver, raised}
use brunix.Vga.{Console}
use brunix.Printk.{color_red}
use brunix.Kernel.{page_fault_callback}
use brunix.Paging.{TableEntry, Tables, page_size, map_memory}
use brunix.Paging.Samples.{zeroed}
use brunix.Boot.Deliberate.{generate_page_fault}
use brunix.Boot.Deliberate.Shown.{generating_message, generate_page_fault_shows}
use brunix.Vga.Terminal.{Shows}
use brunix.Vga.Puts.{empty_terminal}
use brunix.Paging.Messages.{fault_log}
use brunix.Dispatch.Shown.{called_message}
use brunix.Log.{type_log}
use brunix.Log.Samples.{started-Plain}
use brunix.Prelude.{Option, ◌*◌, ◌==◌, if◌then◌else◌}
use brunix.Stubs.{stopped}
use brunix.Stubs.{Cpu, Clobbered, isr_macro, isr_noerrcode, isr, resumed, ended, common_stub}
use brunix.Stubs.Frames.{enter, has_error_code, IsCpu, handed, isr_misaligned}
use brunix.Stubs.Irqs.{interrupts, interrupts-deliver}

abbrev in_kmain : Cpu
in_kmain = record {
  eax = 0x12345678;
  ecx = 1;
  edx = 2;
  ebx = 3;
  ebp = 0x8ff0;
  esi = 5;
  edi = 6;
  ds = 0x10;
  es = 0x10;
  fs = 0x10;
  gs = 0x10;
  cs = 8;
  eip = 0x100123;
  eflags = 0x202;
  stack_base = 0x9000;
  stack = 0x2badb002 ∷ 0x9000 ∷ 0x100010 ∷ [];
}

in_kmain-IsCpu : IsCpu in_kmain 0x2badb002 0x9000 (0x100010 ∷ [])
in_kmain-IsCpu = record { ds = omega arith; cs = omega arith; stack = refl }

abbrev sevens : Registers → Kernel → Clobbered
sevens regs k = record { eax = 7; ecx = 7; edx = 7; ebx = 7; ebp = 7; esi = 7; edi = 7; eflags = 7 }

abbrev quiet : Devices
quiet t port = 0x9e

-- An alignment check, whose error code is 0, resumes at address 0.
abbrev shifted : Cpu
shifted = record in_kmain { eip = 0; cs = 0x100123; eflags = 8; stack = 0x202 ∷ in_kmain.stack }

isr_misaligned_example :
    (has_error_code 17 ≡ true)
    × (isr_macro 17 ≡ some isr_noerrcode)
    × (common_stub
          (isr_handler quiet 0)
          sevens
          (isr isr_noerrcode 17 (enter (some 0) in_kmain))
          started
        ≡ ended
            (isr_handler quiet 0 (handed 17 0 0x202 0x2badb002 shifted) started)
            (some (record shifted { cs = 0x123 })))
unfolding has_error_code
isr_misaligned_example =
    isr_misaligned (isr_handler quiet 0) sevens 17 0 0x2badb002 0x9000 (0x100010 ∷ []) in_kmain
      started in_kmain-IsCpu refl

abbrev ready : Kernel
ready = record started {
  irq_handlers = set_entry (set_entry (λ _. none) 32 timer_callback) 33 kbd_callback;
}

ready-IsReady : IsReady ready
ready-IsReady = record {
  timer = refl;
  kbd = refl;
  on = record { column = omega arith; row = omega arith };
  ticks = omega arith;
}

interrupts-deliver_example :
    (k' : Kernel) × (interrupts quiet 0 sevens (clock ∷ keyboard ∷ []) in_kmain ready
      ≡ resumed in_kmain k')
    × (deliver quiet 0
          (raised clock (handed 32 0 0x2badb002 0x9000 in_kmain)
            ∷ raised keyboard (handed 33 0 0x2badb002 0x9000 in_kmain)
            ∷ [])
          ready
        ≡ running k')
    × IsReady k'
interrupts-deliver_example =
    interrupts-deliver quiet 0 sevens (clock ∷ keyboard ∷ []) 0x2badb002 0x9000 (0x100010 ∷ [])
      in_kmain ready in_kmain-IsCpu refl ready-IsReady

-- The first table stands at page 0x108.
abbrev laid_out : Tables
laid_out = map_memory 0x107000 (0x108 * page_size) zeroed

abbrev memory : ℕ → Option (ℕ → TableEntry)
memory n = if n == 0x108 then some laid_out.first_page_table else none

abbrev guarded_kernel : Kernel
guarded_kernel = record started {
  interrupt_handlers = set_entry (λ _. none) 14 page_fault_callback;
}

generate_page_fault_shows_example :
    (c : Console) × (generate_page_fault quiet sevens memory laid_out in_kmain guarded_kernel
      ≡ stopped (record guarded_kernel { con = c }))
    × Shows c (
        type_log
          (generating_message
            ∷ called_message
            ∷ fault_log 0x400000 (handed 14 0 0x2badb002 0x9000 in_kmain))
          empty_terminal)
    × (c.fore_colour ≡ color_red)
generate_page_fault_shows_example =
    generate_page_fault_shows quiet sevens memory 0x107000 0x108 0x2badb002 0x9000 zeroed
      (0x100010 ∷ []) in_kmain guarded_kernel empty_terminal (omega arith) refl in_kmain-IsCpu refl
      started-Plain
