-- ===== src/Boot/Tests.antt =====
-- A start by a boot loader with 128 MB of memory, and one by what is no boot loader.
use brunix.Prelude.{ℕ, ◌+◌, ◌*◌, ◌≡◌, refl, arith, true, Option, some, List, [], ◌∷◌, ◌++◌, codes}
use brunix.Io.{Devices}
use brunix.Vga.{Console}
use brunix.Printk.{color_red}
use brunix.Kernel.{Kernel, running, halted, fault}
use brunix.Kernel.Samples.{started, address}
use brunix.Paging.Samples.{zeroed}
use brunix.Boot.{Image, MultibootInfo, start, kmain}
use brunix.Boot.Interleaved.Shown.{Seen, kmain_shows}
use brunix.Boot.Messages.{greeted_log, guarded_log, ticks_message, boot_log, refusal_log}
use brunix.Boot.Shown.{start_shows, start_refuses_shows}
use brunix.Log.{type_log}
use brunix.Vga.Terminal.{Shows}
use brunix.Vga.Puts.{empty_terminal}
use brunix.Vga.Number.{word_text}
use brunix.Itoa.Numeral.{numeral, low_digits, digit}
use brunix.Dispatch.{irq_handler}
use brunix.Dispatch.Irq.{IsReady}
use brunix.Dispatch.Early.{CanServe}
use brunix.Kernel.{Outcome, ◌|>◌}
use brunix.Kernel.Samples.{stacked}
use brunix.Boot.Interleaved.{
  call_timer_init, call_print_timer_ticks, before, at_paging, perform, at, called, interrupted,
  Reach, here, next,
}
use brunix.Boot.Interleaved.Boots.{enabled, kmain_interleaved}
use brunix.Boot.Start.{kmain_faults}

abbrev image : Image
image = record {
  kernel_start = 0x100000;
  kernel_end = 0x10a000;
  bss_start = 0x104000;
  bss_end = 0x10a000;
  build_date = 20200601;
  build_time = 101500;
  gdt = 0x105000;
  idt = 0x106000;
  stub = λ v. 0x101000 + 16 * v;
  handler = address;
  page_directory = 0x107000;
  first_page_table = 0x108000;
}

abbrev silent : Devices
silent t port = 0xff

abbrev loader : ℕ → Option (List ℕ)
loader p = some (codes "GRUB 2.02")

abbrev info : MultibootInfo
info = record {
  flags = 0x24f;
  mem_lower = 639;
  mem_upper = 130944;
  boot_device = 0;
  cmdline = 0x10078;
  mods_count = 0;
  mods_addr = 0;
  elf_sec = record { num = 0; size = 0; addr = 0; shndx = 0 };
  mmap_length = 144;
  mmap_addr = 0x100a8;
  drives_length = 0;
  drives_addr = 0;
  config_table = 0;
  boot_loader_name = 0x1009c;
  apm_table = 0;
  vbe = record {
    control_info = 0;
    mode_info = 0;
    mode = 0;
    interface_seg = 0;
    interface_off = 0;
    interface_len = 0;
  };
}

-- A year and a half at 100 Hz.
abbrev late : Kernel
late = record started { timer_ticks = 5000000000 }

late_text : (ticks_message 5000000000).text ≡ codes "[kmain]: Clock ticks: 705032704" ++ (10 ∷ [])
unfolding word_text numeral low_digits digit
late_text = refl

start_shows_example :
    (k' : Kernel) × (start silent image loader info 0x2badb002 0x9000 late ≡ running k')
    × Shows k'.con (
        type_log
          (boot_log image info (codes "GRUB 2.02") (codes "GRUB 2.02") 0x9000 5000000000)
          empty_terminal)
    × (k'.con.fore_colour ≡ 15)
start_shows_example =
    start_shows silent image loader info 0x2badb002 0x9000 (codes "GRUB 2.02") (codes "GRUB 2.02")
      late refl refl refl refl refl

start_refuses_shows_example :
    (c : Console) × (start silent image loader info 0x1badb002 0x9000 started
      ≡ halted (record started { initial_esp = 0x9000; con = c }))
    × Shows c (type_log refusal_log empty_terminal)
    × (c.fore_colour ≡ color_red)
start_refuses_shows_example =
    start_refuses_shows silent image loader info 0x1badb002 0x9000 started
      (λ e. absurd (omega (arith, e))) refl refl

kmain_faults_example : kmain silent image loader info 0x2badb002 0x9000 zeroed started ≡ fault
kmain_faults_example =
    kmain_faults silent image loader info 0x2badb002 0x9000 (codes "GRUB 2.02") (codes "GRUB 2.02")
      zeroed started refl refl refl

-- An interrupt of line 8 before `timer_init`, and one of the timer behind it.
abbrev interrupted_twice : Outcome
interrupted_twice =
    enabled silent image loader info 0x2badb002 0x9000 started
    |> irq_handler silent 0 (stacked 40 0)
    |> perform image call_timer_init
    |> irq_handler silent 0 (stacked 32 0)

two_interrupts :
    Reach silent image
      (at (before call_timer_init) (enabled silent image loader info 0x2badb002 0x9000 started))
      (at (before call_print_timer_ticks) interrupted_twice)
two_interrupts =
    next
      (next (next here (interrupted _ _ 0 (stacked 40 0) (omega arith) (omega arith)))
        (called call_timer_init _))
      (interrupted _ _ 0 (stacked 32 0) (omega arith) (omega arith))

kmain_interleaved_example :
    ((k' : Kernel) × (interrupted_twice ≡ running k') × CanServe k' × (k'.interrupts ≡ true))
    × ((k' : Kernel) × Reach silent image
          (at (before call_print_timer_ticks) interrupted_twice)
          (at at_paging (running k'))
        × IsReady k')
kmain_interleaved_example =
    kmain_interleaved silent image loader info 0x2badb002 0x9000 (codes "GRUB 2.02")
      (codes "GRUB 2.02") started (before call_print_timer_ticks) interrupted_twice refl refl refl
      (omega arith) (λ n. tt) two_interrupts

kmain_shows_example :
    (k' : Kernel) × (interrupted_twice ≡ running k')
    × Seen image
        (type_log
          (greeted_log image info (codes "GRUB 2.02") (codes "GRUB 2.02") 0x9000 ++ guarded_log)
          empty_terminal)
        (before call_print_timer_ticks)
        k'
kmain_shows_example =
    kmain_shows silent image loader info 0x2badb002 0x9000 (codes "GRUB 2.02") (codes "GRUB 2.02")
      started (before call_print_timer_ticks) interrupted_twice refl refl refl refl refl
      (omega arith) (λ n. tt) two_interrupts
