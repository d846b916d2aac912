-- ===== src/Paging/Identity.antt =====
-- The processor's walk through the tables, and which addresses `paging_init` maps.
use brunix.Prelude.{
  ℕ, ◌+◌, ◌*◌, ◌/◌, ◌%◌, ◌^◌, ◌<◌, ◌≡◌, arith, ltb, ◌==◌, if◌then◌else◌, Option, some, none,
  for_up_inv,
}
use brunix.Paging.{
  DirEntry, TableEntry, Tables, fill_directory, fill_table, map_memory, update, page, page_size,
}

abbrev mapped : ℕ → TableEntry → TableEntry
mapped i e = record e {
  physical_page_address = i;
  present_flag = 1;
  read_write_flag = 1;
  user_supervisor_flag = 0;
}

page-mul : (i : ℕ) → i < 1024 → page (i * page_size) % 2 ^ 20 ≡ i
page-mul i h = omega arith

-- Entry `i` of the first table leads to page `i`.
pub fill_table-entry :
    (tbl : ℕ → TableEntry) (j : ℕ)
    → fill_table tbl j ≡ (if ltb j 1024 then mapped j (tbl j) else tbl j)
unfolding fill_table
fill_table-entry tbl =
    for_up_inv (λ k t. (j : ℕ) → t j ≡ (if ltb j k then mapped j (tbl j) else tbl j)) _ 1024 0 1024
      tbl (λ k t low high h j. ground (arith, h j, h k, page-mul k high)) (omega arith)
      (λ j. ground arith)

abbrev absent : DirEntry → DirEntry
absent e = record e {
  present_flag = 0;
  read_write_flag = 1;
  user_supervisor_flag = 0;
  unused_flags = 0;
}

abbrev first : ℕ → DirEntry
first table = record {
  present_flag = 1;
  read_write_flag = 1;
  user_supervisor_flag = 0;
  unused_flags = 0;
  page_table_base_address = page table % 2 ^ 20;
}

-- Of the directory only the first entry is present.
pub fill_directory-entry :
    (table : ℕ) (dir : ℕ → DirEntry) (j : ℕ)
    → fill_directory table dir j
      ≡ (if j == 0 then first table else if ltb j 1024 then absent (dir j) else dir j)
unfolding fill_directory
fill_directory-entry table dir =
    for_up_inv
      (λ k d.
        (j : ℕ) → d j ≡ (if j == 0 then first table else if ltb j k then absent (dir j) else dir j))
      _ 1023 1 1024 (update dir 0 (first table)) (λ k d low high h j. ground (arith, h j, h k))
      (omega arith) (λ j. ground arith)

page_mul_table : (n : ℕ) → n < 2 ^ 20 → page (n * page_size) % 2 ^ 20 ≡ n
page_mul_table n h = omega arith

-- Where an access to a virtual address goes; `none` is a page fault. `table_at` gives the page table
-- that stands at a physical page.
unfoldable pub translate : (ℕ → Option (ℕ → TableEntry)) → Tables → ℕ → Option ℕ
translate table_at t va =
    if t.paging
    then (let d = t.page_directory (va / 2 ^ 22) in
        if d.present_flag == 1
        then elim (table_at d.page_table_base_address) [
          | none ↦ none
          | some tbl ↦
              let e = tbl (va / 2 ^ 12 % 1024) in
              if e.present_flag == 1
              then some (e.physical_page_address * 2 ^ 12 + va % 2 ^ 12)
              else none
        ]
        else none)
    else some va

-- With the table's array at a page boundary and found there by the processor, the tables that
-- `paging_init` writes behind its bitmap map the first 4 MB of addresses each to itself, and an
-- access to any address above them faults.
pub map_memory_lem :
    (directory n : ℕ) (table_at : ℕ → Option (ℕ → TableEntry)) (t : Tables) (va : ℕ)
    → n < 2 ^ 20
    → va < 2 ^ 32
    → let t' = map_memory directory (n * page_size) t in
      table_at n ≡ some t'.first_page_table
      → translate table_at t' va ≡ (if ltb va (2 ^ 22) then some va else none)
unfolding map_memory translate
map_memory_lem directory n table_at t va hn hva found = ground (
  arith,
  fill_directory-entry (n * page_size) t.page_directory (va / 2 ^ 22),
  fill_table-entry t.first_page_table (va / 2 ^ 12 % 1024),
  page_mul_table n hn,
)
