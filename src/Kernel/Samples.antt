-- ===== src/Kernel/Samples.antt =====
-- A state and registers for the tests of the kernel's handlers.
use brunix.Prelude.{ℕ, none, [], replicate, false}
use brunix.Vga.{blank}
use brunix.Idt.{no_gate}
use brunix.Kernel.{Kernel, Registers, Handler}

abbrev pub started : Kernel
started = record {
  con = record {
    cells = λ _. blank;
    cursor_x = 0;
    cursor_y = 0;
    back_colour = 0;
    fore_colour = 15;
    trace = [];
  };
  interrupt_handlers = λ _. none;
  irq_handlers = λ _. none;
  timer_ticks = 0;
  segmentation = record {
    gdt = replicate 5 (record {
      limit_low = 0;
      base_low = 0;
      base_middle = 0;
      access = 0;
      granularity = 0;
      base_high = 0;
    });
    gdt_ptr = record { limit = 0; base = 0 };
    gdtr = record { limit = 0; base = 0 };
    cs = 0x10;
    ds = 0x18;
    es = 0x18;
    fs = 0x18;
    gs = 0x18;
    ss = 0x18;
  };
  idt = record {
    entry = λ _. no_gate;
    idt_ptr = record { limit = 0; base = 0 };
    idtr = record { limit = 0; base = 0 };
  };
  interrupts = false;
  initial_esp = 0;
}

-- The registers behind the stub of a vector.
abbrev pub stacked : ℕ → ℕ → Registers
stacked vector error = record {
  ds = 0x10;
  edi = 0;
  esi = 0;
  ebp = 0;
  esp = 0x9000;
  ebx = 0;
  edx = 0;
  ecx = 0;
  eax = 0;
  int_no = vector;
  err_code = error;
  eip = 0x100123;
  cs = 8;
  eflags = 0x202;
  useresp = 0;
  ss = 0x10;
}

abbrev pub address : Handler → ℕ
address h = 0x102000
