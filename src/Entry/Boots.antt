-- ===== src/Entry/Boots.antt =====
-- arch/x86/kernel/entry_point.asm and kernel/main.c: the kernel from the loader's jump on.
use mathlib.Core.Path.{subst}
use brunix.Prelude.{
  sym, ℕ, ◌+◌, ◌^◌, ◌<◌, ◌≡◌, ap, ◌∙◌, arith, u32, ◌-◌, ◌*◌, true, Option, some, List, length,
}
use brunix.Io.{Devices}
use brunix.Idt.Gates.{has_stub, LeadsTo}
use brunix.Kernel.{Kernel, Outcome, running, halted, fault}
use brunix.Stubs.{Cpu}
use brunix.Boot.{Image, MultibootInfo, multiboot_header_magic}
use brunix.Boot.Messages.{boot_log}
use brunix.Boot.Shown.{start_shows}
use brunix.Vga.Terminal.{Shows}
use brunix.Vga.Puts.{empty_terminal}
use brunix.Log.{type_log}
use brunix.Boot.Start.{IsStarted, start_lem}
use brunix.Entry.{default_stack_pointer, entry, parameters, with_info, call_kmain}

running-injective : (a b : Kernel) → running a ≡ running b → a ≡ b
running-injective a b e =
    ap (λ (o : Outcome). elim o [ running k ↦ k | halted k ↦ k | fault ↦ a ]) e

module _ (devices : Devices) (image : Image) (info_at : ℕ → Option MultibootInfo)
    (string_at : ℕ → Option (List ℕ)) where
  -- With the boot loader's magic number in `eax`, and in `ebx` the address of its structure, of which
  -- two pointers are to strings: the kernel reaches the paging without a fault, started as
  -- `IsStarted` says, with the clock as it stood, the end of the 8192 bytes of its stack in
  -- `initial_esp`, each vector of an exception, an IRQ or the system call leading to its own stub, and
  -- exactly the messages of the start on the screen, the end of the stack among them; from every
  -- state with the colours white on black, whose table of segments has its five entries and whose
  -- clock fits its 64 bits.
  pub entry_boots :
      (bottom return_address v : ℕ) (name line : List ℕ) (info : MultibootInfo) (s : Cpu)
      (k : Kernel)
      → default_stack_pointer bottom < 2 ^ 32
      → s.eax ≡ multiboot_header_magic
      → info_at s.ebx ≡ some info
      → string_at info.boot_loader_name ≡ some name
      → string_at info.cmdline ≡ some line
      → length k.segmentation.gdt ≡ 5
      → k.timer_ticks < 2 ^ 64
      → v < 256
      → has_stub v ≡ true
      → image.stub v < 2 ^ 32
      → k.con.back_colour ≡ 0
      → k.con.fore_colour ≡ 15
      → (k' : Kernel) × (call_kmain devices image info_at string_at
            (entry bottom return_address s).stack
            k
          ≡ running k')
        × IsStarted k'
        × (k'.timer_ticks ≡ k.timer_ticks)
        × LeadsTo (k'.idt.entry v) (image.stub v)
        × (k'.initial_esp ≡ default_stack_pointer bottom)
        × Shows k'.con (
            type_log
              (boot_log image info name line (default_stack_pointer bottom) k.timer_ticks)
              empty_terminal)
  unfolding entry call_kmain parameters
  entry_boots bottom return_address v name line info s k hs magic found en el five small hv has fits
        back fore =
      let top : u32 (default_stack_pointer bottom + 2 ^ 32 - 4 * 0) ≡ default_stack_pointer bottom =
        omega arith in
      let (k', runs, started, clock, leads, kept) =
        start_lem devices image string_at info s.eax
          (u32 (default_stack_pointer bottom + 2 ^ 32 - 4 * 0)) v name line k magic en el five small
          hv has fits in
      let (k'', shows_runs, shown, _) =
        start_shows devices image string_at info s.eax
          (u32 (default_stack_pointer bottom + 2 ^ 32 - 4 * 0)) name line k magic en el back fore in
      let ticks = k.timer_ticks in
      (
        k',
        ap
              (with_info devices image info_at string_at s.eax
                (u32 (default_stack_pointer bottom + 2 ^ 32 - 4 * 0)) k)
              found
            ∙ runs,
        started,
        clock,
        leads,
        kept ∙ top,
        subst
            (λ k. Shows k.con (
              type_log (boot_log image info name line (default_stack_pointer bottom) ticks)
                empty_terminal))
            (running-injective k'' k' (sym shows_runs ∙ runs))
            (subst
              (λ (e : ℕ).
                Shows k''.con (type_log (boot_log image info name line e ticks) empty_terminal))
              top shown),
      )
