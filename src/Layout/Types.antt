-- ===== src/Layout/Types.antt =====
-- arch/x86/kernel/memory.c: what the loops of `paging_init` store fits its field.
use brunix.Prelude.{ℕ, arith}
use brunix.Paging.{DirEntry, TableEntry, Tables, fill_directory, fill_table}
use brunix.Paging.Identity.{fill_directory-entry, fill_table-entry}
use brunix.Layout.{IsDirEntry, IsTableEntry}

pub directory-IsDirEntry :
    (table : ℕ) (dir : ℕ → DirEntry) (j : ℕ)
    → IsDirEntry (dir j)
    → IsDirEntry (fill_directory table dir j)
directory-IsDirEntry table dir j h = rw (fill_directory-entry table dir j) (record {
  present_flag = ground (arith, h);
  read_write_flag = ground (arith, h);
  user_supervisor_flag = ground (arith, h);
  unused_flags = ground (arith, h);
  page_table_base_address = ground (arith, h);
})

pub table-IsTableEntry :
    (tbl : ℕ → TableEntry) (j : ℕ) → IsTableEntry (tbl j) → IsTableEntry (fill_table tbl j)
table-IsTableEntry tbl j h = rw (fill_table-entry tbl j) (record {
  present_flag = ground (arith, h);
  read_write_flag = ground (arith, h);
  user_supervisor_flag = ground (arith, h);
  unused_flags = ground (arith, h);
  physical_page_address = ground (arith, h);
})

-- Tables of which every entry fits.
pub record AreTables (t : Tables) : Type 0 where
  pub directory : (j : ℕ) → IsDirEntry (t.page_directory j)
  pub table : (j : ℕ) → IsTableEntry (t.first_page_table j)
