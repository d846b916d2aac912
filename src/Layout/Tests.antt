-- ===== src/Layout/Tests.antt =====
-- The kernel's arrays at 0x107000 and 0x108000, and zeroed tables.
use brunix.Prelude.{
  ◌%◌, refl, get_elem?, ℕ, ◌+◌, ◌-◌, ◌*◌, ◌/◌, ◌^◌, ◌≡◌, ap, arith, ltb, true, false, if◌then◌else◌,
  some, none,
}
use brunix.Gdt.{encode, gdt_init}
use brunix.Idt.Gates.{install}
use brunix.Kernel.Samples.{started}
use brunix.Paging.{Tables, page_size, map_memory}
use brunix.Paging.Samples.{zeroed}
use brunix.Layout.{dir_word, table_word, desc_word, gate_word}
use brunix.Layout.Types.{AreTables}
use brunix.Layout.Words.{
  base_bits, limit_bits, access_bits, flag_bits, target_bits, selector_bits, type_bits, flat_words,
  desc_words, stored_words,
}
use brunix.Layout.Walk.{Lies, walk, walk_lem}

zeroed-AreTables : AreTables zeroed
zeroed-AreTables = record {
  directory = λ j. record {
    present_flag = omega arith;
    read_write_flag = omega arith;
    user_supervisor_flag = omega arith;
    unused_flags = omega arith;
    page_table_base_address = omega arith;
  };
  table = λ j. record {
    present_flag = omega arith;
    read_write_flag = omega arith;
    user_supervisor_flag = omega arith;
    unused_flags = omega arith;
    physical_page_address = omega arith;
  };
}

abbrev stub : ℕ → ℕ
stub v = 0x101000 + 16 * v

stored_words_example :
    let d = desc_word (encode 0x12345678 0xabcde 0x92 0xcf) in
    let ds = desc_words (gdt_init 0x105000 started.segmentation).gdt in
    let g = gate_word ((install 0x106000 stub started.idt).entry 0x80) in
    ((base_bits d ≡ 0x12345678)
      × (limit_bits d ≡ 0xabcde % 2 ^ 20)
      × (access_bits d ≡ 0x92)
      × (flag_bits d ≡ 0xcf / 16))
    × (ds ≡ flat_words)
    × ((target_bits g ≡ 0x101800)
        × (get_elem? ds (selector_bits g / 8) ≡ some 0x00cf9a000000ffff)
        × (selector_bits g % 8 ≡ 0)
        × (type_bits g ≡ 0x8e00))
stored_words_example =
    stored_words 0x12345678 0xabcde 0x92 0xcf 0x105000 0x106000 0x80 stub started.segmentation
      started.idt (omega arith) (omega arith) (omega arith) (omega arith) refl (omega arith) refl
      (omega arith)

abbrev laid_out : Tables
laid_out = map_memory (0x107 * page_size) (0x108 * page_size) zeroed

abbrev memory : ℕ → ℕ
memory a =
    if ltb a 0x108000
    then dir_word (laid_out.page_directory ((a - 0x107000) / 4))
    else table_word (laid_out.first_page_table ((a - 0x108000) / 4))

laid_out-Lies : Lies memory (0x107 * page_size) (0x108 * page_size) laid_out
laid_out-Lies = record {
  at_directory = λ j h.
      (let low : ltb (0x107000 + 4 * j) 0x108000 ≡ true = ground arith in
        let back : (0x107000 + 4 * j - 0x107000) / 4 ≡ j = omega arith in
        rw low (ap (λ i. dir_word (laid_out.page_directory i)) back));
  at_table = λ j h.
      (let high : ltb (0x108000 + 4 * j) 0x108000 ≡ false = ground arith in
        let back : (0x108000 + 4 * j - 0x108000) / 4 ≡ j = omega arith in
        rw high (ap (λ i. table_word (laid_out.first_page_table i)) back));
}

walk_lem_example :
    walk memory laid_out.cr3 0x3ff123 ≡ (if ltb 0x3ff123 (2 ^ 22) then some 0x3ff123 else none)
walk_lem_example =
    walk_lem 0x107 0x108 0x3ff123 memory zeroed (omega arith) (omega arith) (omega arith)
      zeroed-AreTables laid_out-Lies
