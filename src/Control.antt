-- ===== src/Control.antt =====
-- arch/x86/kernel/paging.asm: the two functions that load the directory and turn the paging on,
-- instruction by instruction, on the processor of the stubs and two of its control registers.
pub mod Turned
mod Tests
use brunix.Prelude.{
  ℕ, ◌+◌, ◌-◌, ◌*◌, ◌/◌, ◌%◌, ◌^◌, bit_or, u32, Option, some, none, ◌>>=◌, List, [], ◌∷◌, length,
  drop, get_elem?,
}
use brunix.Stubs.{Cpu, esp, push, pop}

pub record Machine : Type 0 where
  pub cpu : Cpu
  pub cr0 : ℕ
  pub cr3 : ℕ

-- `mov ebp, esp`, and `mov esp, ebp` for a place in the stack.
abbrev pub mov_ebp_esp : Cpu → Cpu
mov_ebp_esp s = record s { ebp = esp s }

abbrev pub mov_esp_ebp : Cpu → Cpu
mov_esp_ebp s = record s {
  stack = drop (length s.stack - u32 (s.stack_base + 2 ^ 32 - s.ebp) / 4) s.stack;
}

-- `mov eax, [esp+8]`
abbrev pub mov_eax_word : Cpu → Option Cpu
mov_eax_word s = get_elem? s.stack 2 >>= λ w. some (record s { eax = w })

-- The last three instructions of both: `mov esp, ebp`, `pop ebp` and `ret`.
unfoldable pub leave : Cpu → Option Cpu
leave s = pop (mov_esp_ebp s) >>= λ (w, s).
    pop (record s { ebp = w }) >>= λ (w, s). some (record s { eip = w })

-- `__load_page_directory`
unfoldable pub load_page_directory : Machine → Option Machine
load_page_directory m =
    let s = mov_ebp_esp (push m.cpu.ebp m.cpu) in
    mov_eax_word s >>= λ s.
    let m = record m { cr3 = s.eax } in leave s >>= λ s. some (record m { cpu = s })

-- `__enable_paging`
unfoldable pub enable_paging : Machine → Option Machine
enable_paging m =
    let s = mov_ebp_esp (push m.cpu.ebp m.cpu) in
    let s = record s { eax = m.cr0 } in
    let s = record s { eax = bit_or s.eax 0x80000000 } in
    let m = record m { cr0 = s.eax } in leave s >>= λ s. some (record m { cpu = s })

-- `call`, which leaves the address behind itself on the stack.
abbrev pub called : ℕ → Machine → Machine
called return_address m = record m { cpu = push return_address m.cpu }
