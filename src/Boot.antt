-- ===== src/Boot.antt =====
-- kernel/main.c: `kmain` and what it prints about the kernel; arch/x86/kernel/irq.c: `irq_init`.
-- The definitions of this file are the lines up to the return of `paging_init`, in a run in which no
-- interrupt arrives; Interleaved has the interrupts, and Deliberate the lines behind.
pub mod Lines
pub mod SetUp
pub mod Returns
pub mod Phases
pub mod Start
pub mod Ticks
pub mod Messages
pub mod Shown
pub mod Deliberate
pub mod Interleaved
mod Tests
use brunix.Prelude.{
  ℕ, ◌+◌, ◌-◌, ◌*◌, ◌/◌, ◌%◌, ◌^◌, u32, ◌==◌, ltb, true, if◌then◌else◌, Option, some, none, List,
  [], ◌∷◌, ◌++◌, codes,
}
use brunix.Io.{Devices}
use brunix.Printk.{Arg, debug, panic_noargs, video_init}
use brunix.Gdt.{Segmentation, gdt_init}
use brunix.Idt.{Idt, init_idt, isr_install, irq_gates}
use brunix.Pic.{pic_remap}
use brunix.Kernel.{
  Kernel, Handler, Outcome, running, halted, fault, ◌|>◌, on_console, on_trace, number, print,
}
use brunix.Timer.{get_clock_tick, timer_init}
use brunix.Keyboard.{kbd_init}
use brunix.Paging.{Tables, paging_init}

-- `elf_sec` and `vbe`
pub record ElfSec : Type 0 where
  pub num : ℕ
  pub size : ℕ
  pub addr : ℕ
  pub shndx : ℕ

pub record Vbe : Type 0 where
  pub control_info : ℕ
  pub mode_info : ℕ
  pub mode : ℕ
  pub interface_seg : ℕ
  pub interface_off : ℕ
  pub interface_len : ℕ

-- `multiboot_info_t`
pub record MultibootInfo : Type 0 where
  pub flags : ℕ
  pub mem_lower : ℕ
  pub mem_upper : ℕ
  pub boot_device : ℕ
  pub cmdline : ℕ
  pub mods_count : ℕ
  pub mods_addr : ℕ
  pub elf_sec : ElfSec
  pub mmap_length : ℕ
  pub mmap_addr : ℕ
  pub drives_length : ℕ
  pub drives_addr : ℕ
  pub config_table : ℕ
  pub boot_loader_name : ℕ
  pub apm_table : ℕ
  pub vbe : Vbe

abbrev pub multiboot_header_magic : ℕ
multiboot_header_magic = 0x2badb002

-- What the linker chooses: its symbols, and the addresses of the functions and static arrays.
pub record Image : Type 0 where
  pub kernel_start : ℕ
  pub kernel_end : ℕ
  pub bss_start : ℕ
  pub bss_end : ℕ
  pub build_date : ℕ
  pub build_time : ℕ
  pub gdt : ℕ
  pub idt : ℕ
  pub stub : ℕ → ℕ
  pub handler : Handler → ℕ
  pub page_directory : ℕ
  pub first_page_table : ℕ

-- The difference of two addresses over 1024, as C divides a `ptrdiff_t`: towards 0.
unfoldable pub kilobytes : ℕ → ℕ → ℕ
kilobytes end start =
    let d = u32 (end + (2 ^ 32 - u32 start)) in
    if ltb d (2 ^ 31) then d / 1024 else u32 (2 ^ 32 - (2 ^ 32 - d) / 1024)

-- A `char *` that the boot loader left; `string_at` reads its memory.
abbrev pub pointer : (ℕ → Option (List ℕ)) → ℕ → Arg
pointer string_at address = record { word = u32 address; target = string_at address }

unfoldable pub print_kernel_context_info :
    Image → (ℕ → Option (List ℕ)) → MultibootInfo → Kernel → Outcome
print_kernel_context_info image string_at info k =
    print (codes "-- This is build %u, %u --\n")
      (number image.build_date ∷ number image.build_time ∷ []) k
    |> (λ k.
        print (codes "Kernel size: %d KB. Initial ESP: %x KB\n")
          (number (kilobytes image.kernel_end image.kernel_start) ∷ number k.initial_esp ∷ []) k)
    |> print (codes "BSS section starts at %x and ends at %x. Total: %d KB\n\n") (
        number image.bss_start
        ∷ number image.bss_end
        ∷ number (kilobytes image.bss_end image.bss_start)
        ∷ [])
    |> print (codes "OS booted with %s...\n") (pointer string_at info.boot_loader_name ∷ [])
    |> print (codes "  -> Command line: %s\n") (pointer string_at info.cmdline ∷ [])
    |> print (codes "  -> Mem lower: %u KB - Mem upper: %u MB\n")
        (number info.mem_lower ∷ number (u32 info.mem_upper / 1024) ∷ [])
    |> print
        (codes "  -> TODO (http://forum.osdev.org/viewtopic.php?f=1&t=10934&start=0) "
          ++ codes "mmap_addr = 0x%x, mmap_length = 0x%x\n\n")
        (number info.mmap_addr ∷ number info.mmap_length ∷ [])

-- `print_timer_ticks`. The count is a `uint64_t`, of whose two words "%u" takes the low one.
unfoldable pub print_timer_ticks : Kernel → Outcome
unfolding get_clock_tick
print_timer_ticks k =
    on_console
      (debug (codes "kmain") (codes "Clock ticks: %u")
        (number (get_clock_tick k) ∷ number (get_clock_tick k / 2 ^ 32) ∷ []) k.con)
      k

-- `irq_install`
unfoldable pub irq_install : Devices → Image → Kernel → Outcome
irq_install devices image k =
    on_console (debug (codes "irq") (codes "Remapping PIC...") [] k.con) k |> λ k.
    running (record (on_trace (pic_remap devices 0x20 0x28) k) { idt = irq_gates image.stub k.idt })

unfoldable pub irq_init : Devices → Image → Kernel → Outcome
irq_init devices image k =
    irq_install devices image (record k { idt = isr_install image.stub (init_idt image.idt k.idt) })

-- The test of the boot loader's magic number.
unfoldable pub check_magic : ℕ → Kernel → Outcome
check_magic magic k =
    if magic == multiboot_header_magic
    then running k
    else (on_console
          (panic_noargs (codes "Invalid magic number! A Multiboot compatible loader is needed...")
            (codes "kernel/main.c") 48 k.con)
          k
        |> halted)

-- `kmain` up to "Init paging".
unfoldable pub start :
    Devices → Image → (ℕ → Option (List ℕ)) → MultibootInfo → ℕ → ℕ → Kernel → Outcome
start devices image string_at info magic initial_stack k =
    print (codes "Starting Brunix... ") []
      (record k { initial_esp = initial_stack; con = video_init k.con })
    |> check_magic magic
    |> print_kernel_context_info image string_at info
    |> print (codes "GDT...") []
    |> (λ k. running (record k { segmentation = gdt_init image.gdt k.segmentation }))
    |> print (codes "IRQs...") []
    |> irq_init devices image
    |> (λ k. on_console (debug (codes "kmain") (codes "Enabling interrupts...") [] k.con) k)
    |> (λ k. running (record k { interrupts = true }))
    |> timer_init image.handler 100
    |> print_timer_ticks
    |> print (codes "Keyboard...") []
    |> kbd_init image.handler
    |> print (codes "VMM...") []
    |> print (codes "Init paging...\n") []

-- `kmain` up to the return of `paging_init`.
unfoldable pub kmain :
    Devices → Image → (ℕ → Option (List ℕ)) → MultibootInfo → ℕ → ℕ → Tables → Kernel → Outcome
kmain devices image string_at info magic initial_stack tables k =
    start devices image string_at info magic initial_stack k |> λ k.
    (paging_init image.handler image.page_directory image.first_page_table
      (u32 (info.mem_upper * 1024)) tables k).1
