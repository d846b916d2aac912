-- ===== src/Entry/Tests.antt =====
-- The loader GRUB, and the header that it finds.
use brunix.Prelude.{ℕ, ◌+◌, ◌*◌, ◌%◌, ◌^◌, ◌≡◌, refl, arith, Option, some, List, [], ◌∷◌, codes}
use brunix.Io.{Devices}
use brunix.Idt.Gates.{LeadsTo}
use brunix.Kernel.{Kernel, running}
use brunix.Kernel.Samples.{started, address}
use brunix.Stubs.{Cpu}
use brunix.Boot.{Image, MultibootInfo}
use brunix.Boot.Messages.{boot_log}
use brunix.Vga.Terminal.{Shows}
use brunix.Vga.Puts.{empty_terminal}
use brunix.Log.{type_log}
use brunix.Boot.Start.{IsStarted}
use brunix.Entry.{multiboot_header, entry, call_kmain}
use brunix.Entry.Boots.{entry_boots}

abbrev total : List ℕ → ℕ
total [] = 0
total (w ∷ ws) = w + total ws

-- The header's first three words add up to nothing.
header_adds_up : total (0x1badb002 ∷ 7 ∷ 0xe4524ff7 ∷ []) % 2 ^ 32 ≡ 0
header_adds_up = refl

header_words :
    multiboot_header ≡ 0x1badb002 ∷ 7 ∷ 0xe4524ff7 ∷ 0 ∷ 0 ∷ 0 ∷ 0 ∷ 0 ∷ 1 ∷ 0 ∷ 0 ∷ 32 ∷ []
header_words = refl

abbrev from_loader : Cpu
from_loader = record {
  eax = 0x2badb002;
  ecx = 0;
  edx = 0;
  ebx = 0x10000;
  ebp = 0;
  esi = 0;
  edi = 0;
  ds = 0x18;
  es = 0x18;
  fs = 0x18;
  gs = 0x18;
  cs = 0x10;
  eip = 0x100030;
  eflags = 2;
  stack_base = 0x7ff00;
  stack = [];
}

abbrev image : Image
image = record {
  kernel_start = 0x100000;
  kernel_end = 0x10a000;
  bss_start = 0x104000;
  bss_end = 0x10a000;
  build_date = 20200601;
  build_time = 101500;
  gdt = 0x105000;
  idt = 0x106000;
  stub = λ v. 0x101000 + 16 * v;
  handler = address;
  page_directory = 0x107000;
  first_page_table = 0x108000;
}

abbrev silent : Devices
silent t port = 0xff

abbrev strings : ℕ → Option (List ℕ)
strings p = some (codes "GRUB 2.02")

abbrev info : MultibootInfo
info = record {
  flags = 0x24f;
  mem_lower = 639;
  mem_upper = 130944;
  boot_device = 0;
  cmdline = 0x10078;
  mods_count = 0;
  mods_addr = 0;
  elf_sec = record { num = 0; size = 0; addr = 0; shndx = 0 };
  mmap_length = 144;
  mmap_addr = 0x100a8;
  drives_length = 0;
  drives_addr = 0;
  config_table = 0;
  boot_loader_name = 0x1009c;
  apm_table = 0;
  vbe = record {
    control_info = 0;
    mode_info = 0;
    mode = 0;
    interface_seg = 0;
    interface_off = 0;
    interface_len = 0;
  };
}

abbrev info_at : ℕ → Option MultibootInfo
info_at p = some info

entry_boots_example :
    (k' : Kernel) × (call_kmain silent image info_at strings
        (entry 0x7000 0x100040 from_loader).stack
        started
      ≡ running k')
    × IsStarted k'
    × (k'.timer_ticks ≡ 0)
    × LeadsTo (k'.idt.entry 14) 0x1010e0
    × (k'.initial_esp ≡ 0x9000)
    × Shows k'.con (
        type_log
          (boot_log image info (codes "GRUB 2.02") (codes "GRUB 2.02") 0x9000 0)
          empty_terminal)
entry_boots_example =
    entry_boots silent image info_at strings 0x7000 0x100040 14 (codes "GRUB 2.02")
      (codes "GRUB 2.02") info from_loader started (omega arith) refl refl refl refl refl
      (omega arith) (omega arith) refl (omega arith) refl refl
