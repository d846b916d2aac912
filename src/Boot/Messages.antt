-- ===== src/Boot/Messages.antt =====
-- kernel/main.c: the messages of `kmain` up to the paging, as a user reads them.
use brunix.Prelude.{ℕ, ◌/◌, u32, List, [], ◌∷◌, ◌++◌, codes, c_string}
use brunix.Kernel.{timer_callback, kbd_callback}
use brunix.Kernel.Shown.{irq_message}
use brunix.Boot.{Image, MultibootInfo, kilobytes}
use brunix.Log.{Log, Message, decimal_of, hex_of, white, grey, red}

-- The lines about the kernel and the boot loader's structure, of which the name and the command line
-- are read.
abbrev pub context_log : Image → MultibootInfo → List ℕ → List ℕ → ℕ → Log
context_log image info name line initial_esp =
    white (
      codes "-- This is build "
      ∷ decimal_of image.build_date
      ∷ codes ", "
      ∷ decimal_of image.build_time
      ∷ codes " --\n"
      ∷ [])
    ∷ white (
        codes "Kernel size: "
        ∷ decimal_of (kilobytes image.kernel_end image.kernel_start)
        ∷ codes " KB. Initial ESP: "
        ∷ hex_of initial_esp
        ∷ codes " KB\n"
        ∷ [])
    ∷ white (
        codes "BSS section starts at "
        ∷ hex_of image.bss_start
        ∷ codes " and ends at "
        ∷ hex_of image.bss_end
        ∷ codes ". Total: "
        ∷ decimal_of (kilobytes image.bss_end image.bss_start)
        ∷ codes " KB\n\n"
        ∷ [])
    ∷ white (codes "OS booted with " ∷ c_string name ∷ codes "...\n" ∷ [])
    ∷ white (codes "  -> Command line: " ∷ c_string line ∷ codes "\n" ∷ [])
    ∷ white (
        codes "  -> Mem lower: "
        ∷ decimal_of info.mem_lower
        ∷ codes " KB - Mem upper: "
        ∷ decimal_of (u32 info.mem_upper / 1024)
        ∷ codes " MB\n"
        ∷ [])
    ∷ white (
        codes "  -> TODO (http://forum.osdev.org/viewtopic.php?f=1&t=10934&start=0) mmap_addr = 0x"
        ∷ hex_of info.mmap_addr
        ∷ codes ", mmap_length = 0x"
        ∷ hex_of info.mmap_length
        ∷ codes "\n\n"
        ∷ [])
    ∷ []

-- The lines up to the descriptors.
abbrev pub greeted_log : Image → MultibootInfo → List ℕ → List ℕ → ℕ → Log
greeted_log image info name line initial_esp =
    white (codes "Starting Brunix... " ∷ [])
    ∷ (context_log image info name line initial_esp ++ (white (codes "GDT..." ∷ []) ∷ []))

-- The lines from the descriptors to `sti`.
abbrev pub guarded_log : Log
guarded_log =
    white (codes "IRQs..." ∷ [])
    ∷ grey (codes "irq") (codes "Remapping PIC...\n" ∷ [])
    ∷ grey (codes "kmain") (codes "Enabling interrupts...\n" ∷ [])
    ∷ []

-- The lines from there on, with the clock's count.
abbrev pub ticks_message : ℕ → Message
ticks_message ticks =
    grey (codes "kmain") (codes "Clock ticks: " ∷ decimal_of ticks ∷ codes "\n" ∷ [])

abbrev pub devices_log : Image → ℕ → Log
devices_log image ticks =
    irq_message 0 32 (image.handler timer_callback)
    ∷ ticks_message ticks
    ∷ white (codes "Keyboard..." ∷ [])
    ∷ irq_message 1 33 (image.handler kbd_callback)
    ∷ white (codes "VMM..." ∷ [])
    ∷ white (codes "Init paging...\n" ∷ [])
    ∷ []

abbrev pub boot_log : Image → MultibootInfo → List ℕ → List ℕ → ℕ → ℕ → Log
boot_log image info name line initial_esp ticks =
    greeted_log image info name line initial_esp ++ (guarded_log ++ devices_log image ticks)

-- With another magic number than the boot loader's.
abbrev pub refusal_log : Log
refusal_log =
    white (codes "Starting Brunix... " ∷ [])
    ∷ red (codes "Invalid magic number! A Multiboot compatible loader is needed...")
        (codes "kernel/main.c") 48
    ∷ []
