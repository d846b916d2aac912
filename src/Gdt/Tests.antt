-- ===== src/Gdt/Tests.antt =====
-- The theorems on descriptors at concrete inputs.
use brunix.Prelude.{◌+◌, ◌*◌, ◌/◌, ◌%◌, ◌^◌, ◌≡◌, refl, arith, some, get_elem?, length, replicate}
use brunix.Gdt.{GdtPtr, Segmentation, encode, gdt_init}
use brunix.Gdt.Descriptor.{base_of, limit_of, flags_of, encode-decode}
use brunix.Gdt.Flat.{Selects, gdt_init_lem}

encode-decode_example :
    let d = encode 0x12345678 0xabcde 0x92 0xcf in
    (base_of d ≡ 0x12345678)
    × (limit_of d ≡ 0xabcde % 2 ^ 20)
    × (flags_of d ≡ 0xcf / 16)
    × (d.access ≡ 0x92)
encode-decode_example =
    encode-decode 0x12345678 0xabcde 0x92 0xcf (omega arith) (omega arith) (omega arith)

abbrev no_table : GdtPtr
no_table = record { limit = 0; base = 0 }

-- The static data before the call, with a boot loader's selectors.
abbrev booted : Segmentation
booted = record {
  gdt = replicate 5 (record {
    limit_low = 0;
    base_low = 0;
    base_middle = 0;
    access = 0;
    granularity = 0;
    base_high = 0;
  });
  gdt_ptr = no_table;
  gdtr = no_table;
  cs = 0x10;
  ds = 0x18;
  es = 0x18;
  fs = 0x18;
  gs = 0x18;
  ss = 0x18;
}

gdt_init_example :
    let s' = gdt_init 0x105000 booted in
    Selects s' s'.cs 0 1
    × Selects s' s'.ds 0 0
    × ((s'.es ≡ s'.ds) × (s'.fs ≡ s'.ds) × (s'.gs ≡ s'.ds) × (s'.ss ≡ s'.ds))
    × Selects s' (3 * 8) 3 1
    × Selects s' (4 * 8) 3 0
    × (get_elem? s'.gdt 0 ≡ some (encode 0 0 0 0))
    × ((s'.gdtr.base ≡ 0x105000) × (s'.gdtr.limit + 1 ≡ 8 * length s'.gdt))
gdt_init_example = gdt_init_lem 0x105000 booted refl
