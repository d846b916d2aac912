-- ===== src/Entry.antt =====
-- arch/x86/kernel/entry_point.asm and multiboot_header.asm: from the boot loader to `kmain`.
pub mod Boots
mod Tests
use brunix.Prelude.{ℕ, ◌+◌, ◌-◌, ◌%◌, ◌^◌, u32, Option, none, some, List, [], ◌∷◌}
use brunix.Io.{Devices}
use brunix.Kernel.{Kernel, Outcome, fault}
use brunix.Stubs.{Cpu, esp, push, cli}
use brunix.Boot.{Image, MultibootInfo, start}

-- The words that the loader looks for.
abbrev header_magic : ℕ
header_magic = 0x1badb002

abbrev header_flags : ℕ
header_flags = 0x00000007

abbrev header_checksum : ℕ
header_checksum = u32 (2 ^ 32 - (header_magic + header_flags))

abbrev pub multiboot_header : List ℕ
multiboot_header =
    header_magic ∷ header_flags ∷ header_checksum ∷ 0 ∷ 0 ∷ 0 ∷ 0 ∷ 0 ∷ 1 ∷ 0 ∷ 0 ∷ 32 ∷ []

abbrev kernel_stack_size : ℕ
kernel_stack_size = 8192

-- The label behind the bytes that are reserved from `bottom` on.
abbrev pub default_stack_pointer : ℕ → ℕ
default_stack_pointer bottom = bottom + kernel_stack_size

-- `start`, up to the first instruction of `kmain`: `call` pushes the address to return to.
unfoldable pub entry : ℕ → ℕ → Cpu → Cpu
entry bottom return_address s =
    let s = record s { stack_base = default_stack_pointer bottom; stack = [] } in
    let s = push (esp s) s in let s = push s.eax s in let s = push s.ebx s in push return_address s

-- What `kmain` finds on the stack: `mboot_info_ptr`, `magic` and `initial_stack`.
pub record Parameters : Type 0 where
  pub mboot_info_ptr : ℕ
  pub magic : ℕ
  pub initial_stack : ℕ

unfoldable pub parameters : List ℕ → Option Parameters
parameters (return_address ∷ mboot_info_ptr ∷ magic ∷ initial_stack ∷ rest) =
    some (record { mboot_info_ptr = mboot_info_ptr; magic = magic; initial_stack = initial_stack })
parameters words = none

-- `kmain` up to the paging, called on a stack; `info_at` and `string_at` read what the loader left.
module _ (devices : Devices) (image : Image) (info_at : ℕ → Option MultibootInfo)
    (string_at : ℕ → Option (List ℕ)) where
  abbrev pub with_info : ℕ → ℕ → Kernel → Option MultibootInfo → Outcome
  with_info magic initial_stack k none = fault
  with_info magic initial_stack k (some info) =
      start devices image string_at info magic initial_stack k

  abbrev pub with_parameters : Kernel → Option Parameters → Outcome
  with_parameters k none = fault
  with_parameters k (some p) = with_info p.magic p.initial_stack k (info_at p.mboot_info_ptr)

  unfoldable pub call_kmain : List ℕ → Kernel → Outcome
  call_kmain stack k = with_parameters k (parameters stack)
