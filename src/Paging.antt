-- ===== src/Paging.antt =====
-- arch/x86/kernel/memory.c, arch/x86/include/asm/paging.h and arch/x86/kernel/paging.asm: the page
-- tables, the bitmap of page frames, and the handler of page faults.
pub mod Messages
pub mod Identity
pub mod Bitmap
pub mod Fault
pub mod Shown
pub mod Samples
mod Tests
use brunix.Prelude.{
  ℕ, zero, suc, ◌+◌, ◌-◌, ◌*◌, ◌/◌, ◌%◌, ◌^◌, bit_and, bit_or, u8, u32, ◌<<<◌, ◌>>>◌, ◌==◌, ltb,
  Bool, true, false, if◌then◌else◌, Option, some, none, ◌>>=◌, List, [], ◌∷◌, ◌++◌, length,
  get_elem?, set, replicate, codes, for_up,
}
use brunix.Itoa.{store}
use brunix.Printk.{printk, debug, panic_noargs}
use brunix.Kernel.{
  Kernel, Registers, Handler, page_fault_callback, Outcome, running, halted, fault, ◌|>◌,
  on_console, number, string, register_interrupt_handler,
}

abbrev pub page_size : ℕ
page_size = 0x1000

abbrev pub ram_maxpage : ℕ
ram_maxpage = 0x100000

-- `PAGE(addr)`
abbrev pub page : ℕ → ℕ
page addr = u32 addr >>> 12

-- `page_dir_t`
pub record DirEntry : Type 0 where
  pub present_flag : ℕ
  pub read_write_flag : ℕ
  pub user_supervisor_flag : ℕ
  pub unused_flags : ℕ
  pub page_table_base_address : ℕ

-- `page_table_t`
pub record TableEntry : Type 0 where
  pub present_flag : ℕ
  pub read_write_flag : ℕ
  pub user_supervisor_flag : ℕ
  pub unused_flags : ℕ
  pub physical_page_address : ℕ

-- The static tables, and the processor's registers.
pub record Tables : Type 0 where
  pub page_directory : ℕ → DirEntry
  pub first_page_table : ℕ → TableEntry
  pub cr3 : ℕ
  pub paging : Bool

abbrev update {ℓ} : {A : Type ℓ} → (ℕ → A) → ℕ → A → ℕ → A
update f i v j = if j == i then v else f j

-- `mem_bitmap[i] = v` where the array still is one.
abbrev pub put : ℕ → ℕ → Option (List ℕ) → Option (List ℕ)
put i v b = b >>= λ b. store b i v

-- `set_page_frame_used(page)`
unfoldable pub set_page_frame_used : ℕ → Option (List ℕ) → Option (List ℕ)
set_page_frame_used p b =
    b >>= λ b. get_elem? b (p / 8) >>= λ old. store b (p / 8) (u8 (bit_or old (1 <<< (p % 8))))

-- The loops over `mem_bitmap`, an array of `bitmap_size` bytes.
unfoldable pub init_bitmap : ℕ → Option (List ℕ)
init_bitmap mem_upper_in_bytes =
    let bitmap_size = mem_upper_in_bytes / page_size / 8 in
    let b = for_up bitmap_size 0 (λ i b. put i 0 b) (some (replicate bitmap_size 0)) in
    let b = for_up (ram_maxpage / 8 - bitmap_size) bitmap_size (λ i b. put i 0xff b) b in
    for_up (page 0x800000 - page 0x0) (page 0x0) set_page_frame_used b

-- The entries of the directory; `table` is the address of `first_page_table`.
unfoldable pub fill_directory : ℕ → (ℕ → DirEntry) → ℕ → DirEntry
fill_directory table dir =
    for_up 1023 1
      (λ i d. update d i (record (d i) {
        present_flag = 0;
        read_write_flag = 1;
        user_supervisor_flag = 0;
        unused_flags = 0;
      }))
      (update dir 0 (record {
        present_flag = 1;
        read_write_flag = 1;
        user_supervisor_flag = 0;
        unused_flags = 0;
        page_table_base_address = page table % 2 ^ 20;
      }))

-- The entries of the first table.
unfoldable pub fill_table : (ℕ → TableEntry) → ℕ → TableEntry
fill_table tbl =
    for_up 1024 0
      (λ i t. update t i (record (t i) {
        physical_page_address = page (i * page_size) % 2 ^ 20;
        present_flag = 1;
        read_write_flag = 1;
        user_supervisor_flag = 0;
      }))
      tbl

-- The two arrays, `__load_page_directory` and `__enable_paging`.
unfoldable pub map_memory : ℕ → ℕ → Tables → Tables
map_memory directory table t = record {
  page_directory = fill_directory table t.page_directory;
  first_page_table = fill_table t.first_page_table;
  cr3 = directory;
  paging = true;
}

-- The descriptions of an error code; each bit is tested for itself.
unfoldable pub page_present_str : ℕ → List ℕ
page_present_str err =
    if bit_and err 1 == 0 then codes "No page present" else codes "Page present but protected"

unfoldable pub readwrite : ℕ → List ℕ
readwrite err = if bit_and err 2 == 0 then codes "Reading" else codes "Writing"

unfoldable pub user_mode_str : ℕ → List ℕ
user_mode_str err = if bit_and err 4 == 0 then [] else codes "In user mode"

unfoldable pub reserved_write : ℕ → List ℕ
reserved_write err = if bit_and err 8 == 0 then [] else codes "Reserved write field"

unfoldable pub instruction_fetch_str : ℕ → List ℕ
instruction_fetch_str err = if bit_and err 16 == 0 then [] else codes "Fetching instruction"

-- `print_page_fault`; `cr2` is the address that was accessed.
unfoldable pub print_page_fault : ℕ → Registers → Kernel → Outcome
print_page_fault cr2 regs k =
    on_console
      (debug (codes "paging")
        (codes "Page fault (PF) occurred at %x. PF context: %s - %s - %s - %s - %s")
        (number cr2
          ∷ string (page_present_str regs.err_code)
          ∷ string (readwrite regs.err_code)
          ∷ string (user_mode_str regs.err_code)
          ∷ string (reserved_write regs.err_code)
          ∷ string (instruction_fetch_str regs.err_code)
          ∷ [])
        k.con)
      k
    |> λ k.
        on_console
          (debug (codes "paging")
            (codes "PF extra info => Int. no: %d; CS: %x; EIP: %x; ESP: %x; EFLAGS = %b")
            (number regs.int_no
              ∷ number regs.cs
              ∷ number regs.eip
              ∷ number regs.esp
              ∷ number regs.eflags
              ∷ [])
            k.con)
          k

-- `page_fault_callback`
unfoldable pub page_fault : ℕ → Registers → Kernel → Outcome
page_fault cr2 regs k = print_page_fault cr2 regs k |> λ k.
    on_console (panic_noargs (codes "halting...") (codes "arch/x86/kernel/memory.c") 48 k.con) k
    |> halted

-- `paging_init`, with the addresses of the handlers and of the two arrays.
unfoldable pub paging_init : (Handler → ℕ) → ℕ → ℕ → ℕ → Tables → Kernel → Tables × Outcome
paging_init address directory table mem_upper_in_bytes t k =
    let announced =
      on_console
        (printk (codes "Total frames: %d\n") (number (mem_upper_in_bytes / 4096) ∷ []) k.con) k in
    elim (init_bitmap mem_upper_in_bytes) [
      | none ↦ (t, announced |> λ _. fault)
      | some bitmap ↦ (
        map_memory directory table t,
        announced |> λ k.
            on_console (printk (codes "page dir= %x --") (number directory ∷ []) k.con) k |> λ k.
            on_console (printk (codes "first table = %x --") (number table ∷ []) k.con) k
            |> register_interrupt_handler address 14 page_fault_callback,
      )
    ]
