-- ===== src/Layout/Walk.antt =====
-- The processor's walk through the words of memory, behind `paging_init`.
use brunix.Prelude.{
  ℕ, ◌+◌, ◌*◌, ◌/◌, ◌%◌, ◌^◌, ◌<◌, ◌≡◌, ap, ◌∙◌, arith, ltb, ◌==◌, if◌then◌else◌, Bool-cases, inl,
  inr, Option, some, none,
}
use brunix.Paging.{
  DirEntry, TableEntry, Tables, page, page_size, fill_directory, fill_table, map_memory,
}
use brunix.Paging.Identity.{fill_directory-entry, fill_table-entry}
use brunix.Layout.{IsDirEntry, IsTableEntry, dir_word, table_word}
use brunix.Layout.Types.{AreTables, directory-IsDirEntry, table-IsTableEntry}

-- The walk for a virtual address, with pages of 4 KB only; `memory` gives the word at an address.
unfoldable pub walk : (ℕ → ℕ) → ℕ → ℕ → Option ℕ
walk memory cr3 va =
    let dir = memory (cr3 / 2 ^ 12 * 2 ^ 12 + 4 * (va / 2 ^ 22)) in
    let entry = memory (dir / 2 ^ 12 * 2 ^ 12 + 4 * (va / 2 ^ 12 % 1024)) in
    if dir % 2 == 1
    then (if entry % 2 == 1 then some (entry / 2 ^ 12 * 2 ^ 12 + va % 2 ^ 12) else none)
    else none

-- The two arrays, at their addresses.
pub record Lies (memory : ℕ → ℕ) (directory table : ℕ) (t : Tables) : Type 0 where
  pub at_directory : (j : ℕ) → j < 1024 → memory (directory + 4 * j) ≡ dir_word (t.page_directory j)
  pub at_table : (j : ℕ) → j < 1024 → memory (table + 4 * j) ≡ table_word (t.first_page_table j)

dir_word-fields :
    (e : DirEntry)
    → IsDirEntry e
    → (dir_word e % 2 ≡ e.present_flag) × (dir_word e / 2 ^ 12 ≡ e.page_table_base_address)
unfolding dir_word
dir_word-fields e h = (omega (arith, h), omega (arith, h))

table_word-fields :
    (e : TableEntry)
    → IsTableEntry e
    → (table_word e % 2 ≡ e.present_flag) × (table_word e / 2 ^ 12 ≡ e.physical_page_address)
unfolding table_word
table_word-fields e h = (omega (arith, h), omega (arith, h))

page-mul : (i : ℕ) → i < 2 ^ 20 → page (i * page_size) % 2 ^ 20 ≡ i
page-mul i h = omega arith

-- The directory's entry for an address, in the tables of `paging_init`.
directory-fields :
    (n : ℕ) (dir : ℕ → DirEntry) (j : ℕ)
    → n < 2 ^ 20
    → j < 1024
    → ((fill_directory (n * page_size) dir j).present_flag ≡ (if j == 0 then 1 else 0))
      × ((fill_directory (n * page_size) dir 0).page_table_base_address ≡ n)
directory-fields n dir j hn hj = (
  ground (arith, fill_directory-entry (n * page_size) dir j),
  ground (arith, fill_directory-entry (n * page_size) dir 0, page-mul n hn),
)

table-fields :
    (tbl : ℕ → TableEntry) (j : ℕ)
    → j < 1024
    → ((fill_table tbl j).present_flag ≡ 1) × ((fill_table tbl j).physical_page_address ≡ j)
table-fields tbl j h =
    (ground (arith, fill_table-entry tbl j), ground (arith, fill_table-entry tbl j))

-- With the two arrays at page boundaries below 2 ^ 32, from entries that fit their fields: behind
-- `paging_init` the words of memory map each of the first 4 MB of addresses to itself, and no other.
pub walk_lem :
    (d n va : ℕ) (memory : ℕ → ℕ) (t : Tables)
    → d < 2 ^ 20
    → n < 2 ^ 20
    → va < 2 ^ 32
    → AreTables t
    → Lies memory (d * page_size) (n * page_size) (map_memory (d * page_size) (n * page_size) t)
    → walk memory (map_memory (d * page_size) (n * page_size) t).cr3 va
      ≡ (if ltb va (2 ^ 22) then some va else none)
unfolding walk map_memory
walk_lem d n va memory t hd hn hva types lies =
    let dir = fill_directory (n * page_size) t.page_directory in
    let tbl = fill_table t.first_page_table in
    let i = va / 2 ^ 22 in
    let j = va / 2 ^ 12 % 1024 in
    let p = memory (d * page_size / 2 ^ 12 * 2 ^ 12 + 4 * i) in
    let there : d * page_size / 2 ^ 12 * 2 ^ 12 + 4 * i ≡ d * page_size + 4 * i = omega arith in
    let read : p ≡ dir_word (dir i) = ap memory there ∙ lies.at_directory i (omega arith) in
    let (bit, base) =
      dir_word-fields (dir i)
        (directory-IsDirEntry (n * page_size) t.page_directory i (types.directory i)) in
    let (present, first) = directory-fields n t.page_directory i hn (omega arith) in
    elim (Bool-cases (i == 0)) [
      | inr e ↦
          let absent : p % 2 ≡ 0 = ground (arith, read, bit, present, e) in
          ground (arith, absent, e)
      | inl e ↦
          let zero_index : i ≡ 0 = ground (arith, e) in
          let at_table : p / 2 ^ 12 ≡ n =
            ap (λ w. w / 2 ^ 12) read
            ∙ base
            ∙ ap (λ i. (dir i).page_table_base_address) zero_index
            ∙ first in
          let set : p % 2 ≡ 1 = ground (arith, read, bit, present, e) in
          let here : p / 2 ^ 12 * 2 ^ 12 + 4 * j ≡ n * page_size + 4 * j =
            omega (arith, at_table) in
          let entry : memory (p / 2 ^ 12 * 2 ^ 12 + 4 * j) ≡ table_word (tbl j) =
            ap memory here ∙ lies.at_table j (omega arith) in
          let (bit2, base2) =
            table_word-fields (tbl j) (table-IsTableEntry t.first_page_table j (types.table j)) in
          let (present2, page2) = table-fields t.first_page_table j (omega arith) in
          ground (arith, set, entry, bit2, base2, present2, page2, zero_index)
    ]
