-- ===== src/Gdt.antt =====
-- arch/x86/kernel/gdt.c, arch/x86/include/asm/gdt.h and `__gdt_flush` of
-- arch/x86/kernel/descriptor_tables.asm: the segment descriptors.
pub mod Descriptor
pub mod Flat
mod Tests
use brunix.Prelude.{
  ℕ, zero, suc, ◌+◌, ◌-◌, ◌*◌, ◌/◌, ◌%◌, ◌^◌, bit_and, bit_or, u8, u16, u32, ◌<<<◌, ◌>>>◌, List, [],
  ◌∷◌, set,
}

-- `gdt_desc_t`
pub record Desc : Type 0 where
  pub limit_low : ℕ
  pub base_low : ℕ
  pub base_middle : ℕ
  pub access : ℕ
  pub granularity : ℕ
  pub base_high : ℕ

-- `gdt_ptr_t`
pub record GdtPtr : Type 0 where
  pub limit : ℕ
  pub base : ℕ

abbrev pub gdt_entries : ℕ
gdt_entries = 4 + 1

abbrev pub segment_limit : ℕ
segment_limit = 0xffffffff

abbrev pub flag_dataseg : ℕ
flag_dataseg = 0x02

abbrev pub flag_codeseg : ℕ
flag_codeseg = 0x0a

abbrev pub flag_segment : ℕ
flag_segment = 0x10

abbrev pub flag_ring0 : ℕ
flag_ring0 = 0x00

abbrev pub flag_ring3 : ℕ
flag_ring3 = 0x60

abbrev pub flag_present : ℕ
flag_present = 0x80

abbrev pub flag_4k_gran : ℕ
flag_4k_gran = 0x80

abbrev pub flag_32_bit : ℕ
flag_32_bit = 0x40

-- The static tables, and the processor's registers that `__gdt_flush` loads.
pub record Segmentation : Type 0 where
  pub gdt : List Desc
  pub gdt_ptr : GdtPtr
  pub gdtr : GdtPtr
  pub cs : ℕ
  pub ds : ℕ
  pub es : ℕ
  pub fs : ℕ
  pub gs : ℕ
  pub ss : ℕ

-- The six assignments to `gdt[num]`; the arguments are of the widths of the prototype.
unfoldable pub encode : ℕ → ℕ → ℕ → ℕ → Desc
encode base limit access gran = record {
  limit_low = u16 (bit_and limit 0xffff);
  base_low = u16 (bit_and base 0xffff);
  base_middle = u8 (bit_and (base >>> 16) 0xff);
  access = access;
  granularity = u8 (bit_or (u8 (bit_and (limit >>> 16) 0x0f)) (bit_and gran 0xf0));
  base_high = u8 (bit_and (base >>> 24) 0xff);
}

unfoldable pub gdt_set_desc : ℕ → ℕ → ℕ → ℕ → ℕ → Segmentation → Segmentation
gdt_set_desc num base limit access gran s = record s {
  gdt = set s.gdt num (encode base limit access gran);
}

-- `lgdt`, the data segment registers, and the far jump.
unfoldable pub gdt_flush : Segmentation → Segmentation
gdt_flush s = record s {
  gdtr = s.gdt_ptr;
  ds = 0x10;
  es = 0x10;
  fs = 0x10;
  gs = 0x10;
  ss = 0x10;
  cs = 0x08;
}

-- The access byte of a present segment.
abbrev pub segment_access : ℕ → ℕ → ℕ
segment_access ring kind = bit_or (bit_or (bit_or ring flag_segment) kind) flag_present

abbrev pub segment_gran : ℕ
segment_gran = bit_or flag_4k_gran flag_32_bit

-- `address` is that of the static array `gdt`, which the linker chooses; a descriptor has 8 bytes.
unfoldable pub gdt_init : ℕ → Segmentation → Segmentation
unfolding gdt_set_desc gdt_flush
gdt_init address s =
    let s = record s { gdt_ptr = record { limit = u16 (8 * gdt_entries - 1); base = address } } in
    let s = gdt_set_desc 0 0 0 0 0 s in
    let s =
      gdt_set_desc 1 0 segment_limit (segment_access flag_ring0 flag_codeseg) segment_gran s in
    let s =
      gdt_set_desc 2 0 segment_limit (segment_access flag_ring0 flag_dataseg) segment_gran s in
    let s =
      gdt_set_desc 3 0 segment_limit (segment_access flag_ring3 flag_codeseg) segment_gran s in
    let s =
      gdt_set_desc 4 0 segment_limit (segment_access flag_ring3 flag_dataseg) segment_gran s in
    gdt_flush s
