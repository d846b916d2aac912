-- ===== src/Layout.antt =====
-- How the processor's structures lie in memory: the packed structs of arch/x86/include/asm/paging.h,
-- gdt.h and idt.h as words, and what their fields can hold.
pub mod Types
pub mod Walk
pub mod Words
mod Tests
use brunix.Prelude.{ℕ, ◌+◌, ◌*◌, ◌^◌, ◌<◌, ◌≤◌}
use brunix.Gdt.{Desc, GdtPtr}
use brunix.Idt.{Gate, IdtPtr}
use brunix.Paging.{DirEntry, TableEntry}

-- A `page_dir_t` and a `page_table_t` as 32 bits: the first bit-field is the lowest.
unfoldable pub dir_word : DirEntry → ℕ
dir_word e =
    e.present_flag
    + 2 * e.read_write_flag
    + 4 * e.user_supervisor_flag
    + 8 * e.unused_flags
    + 2 ^ 12 * e.page_table_base_address

unfoldable pub table_word : TableEntry → ℕ
table_word e =
    e.present_flag
    + 2 * e.read_write_flag
    + 4 * e.user_supervisor_flag
    + 8 * e.unused_flags
    + 2 ^ 12 * e.physical_page_address

-- A `gdt_desc_t` and an `idt_entry_t` as 64 bits: the first field is the lowest.
unfoldable pub desc_word : Desc → ℕ
desc_word d =
    d.limit_low
    + 2 ^ 16 * d.base_low
    + 2 ^ 32 * d.base_middle
    + 2 ^ 40 * d.access
    + 2 ^ 48 * d.granularity
    + 2 ^ 56 * d.base_high

unfoldable pub gate_word : Gate → ℕ
gate_word g =
    g.base_lo + 2 ^ 16 * g.sel + 2 ^ 32 * g.always0 + 2 ^ 40 * g.p_dpl_type + 2 ^ 48 * g.base_hi

-- The values that the fields can hold.
pub record IsDirEntry (e : DirEntry) : Type 0 where
  pub present_flag : e.present_flag < 2
  pub read_write_flag : e.read_write_flag < 2
  pub user_supervisor_flag : e.user_supervisor_flag < 2
  pub unused_flags : e.unused_flags < 2 ^ 9
  pub page_table_base_address : e.page_table_base_address < 2 ^ 20

pub record IsTableEntry (e : TableEntry) : Type 0 where
  pub present_flag : e.present_flag < 2
  pub read_write_flag : e.read_write_flag < 2
  pub user_supervisor_flag : e.user_supervisor_flag < 2
  pub unused_flags : e.unused_flags < 2 ^ 9
  pub physical_page_address : e.physical_page_address < 2 ^ 20

pub record IsDesc (d : Desc) : Type 0 where
  pub limit_low : d.limit_low < 2 ^ 16
  pub base_low : d.base_low < 2 ^ 16
  pub base_middle : d.base_middle < 2 ^ 8
  pub access : d.access < 2 ^ 8
  pub granularity : d.granularity < 2 ^ 8
  pub base_high : d.base_high < 2 ^ 8

pub record IsGate (g : Gate) : Type 0 where
  pub base_lo : g.base_lo < 2 ^ 16
  pub sel : g.sel < 2 ^ 16
  pub always0 : g.always0 < 2 ^ 8
  pub p_dpl_type : g.p_dpl_type < 2 ^ 8
  pub base_hi : g.base_hi < 2 ^ 16
