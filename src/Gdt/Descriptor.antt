-- ===== src/Gdt/Descriptor.antt =====
-- How the processor reads a descriptor, and that `gdt_set_desc` writes what it reads.
use brunix.Prelude.{
  ℕ, ◌+◌, ◌*◌, ◌/◌, ◌%◌, ◌^◌, ◌<◌, ◌≡◌, refl, true, bit_and, bit_and_mask, bit_or_low, true_below,
  true_below_sound, ◌==◌, ==_iff, arith,
}
use brunix.Gdt.{Desc, encode}

-- The fields of the processor's manual: a base of 32 bits and a limit of 20, both in pieces.
abbrev pub base_of : Desc → ℕ
base_of d = d.base_high * 2 ^ 24 + d.base_middle * 2 ^ 16 + d.base_low

abbrev pub limit_of : Desc → ℕ
limit_of d = d.granularity % 16 * 2 ^ 16 + d.limit_low

-- The four flags above the limit: granularity, size, long mode, available.
abbrev pub flags_of : Desc → ℕ
flags_of d = d.granularity / 16

high_nibble_table : true_below 256 (λ g. bit_and g 0xf0 == g / 16 * 16) ≡ true
unfolding true_below
high_nibble_table = refl

high_nibble : (g : ℕ) → g < 256 → bit_and g 0xf0 ≡ g / 16 * 16
high_nibble g h = (==_iff _ _).0 (true_below_sound 256 _ g high_nibble_table h)

-- From the descriptor that `gdt_set_desc` writes for a base and a limit of 32 bits and a flags byte, the
-- processor reads back the whole base, the limit modulo 2 ^ 20, the high half of the flags, and the
-- access byte.
pub encode-decode :
    (base limit access gran : ℕ)
    → base < 2 ^ 32
    → limit < 2 ^ 32
    → gran < 2 ^ 8
    → let d = encode base limit access gran in
      (base_of d ≡ base)
      × (limit_of d ≡ limit % 2 ^ 20)
      × (flags_of d ≡ gran / 16)
      × (d.access ≡ access)
unfolding encode
encode-decode base limit access gran hb hl hg = ground (
  arith,
  bit_and_mask 16 base,
  bit_and_mask 8 (base / 2 ^ 16),
  bit_and_mask 8 (base / 2 ^ 24),
  bit_and_mask 16 limit,
  bit_and_mask 4 (limit / 2 ^ 16),
  high_nibble gran hg,
  bit_or_low 4 (limit / 2 ^ 16 % 16) (gran / 16) (omega arith),
)
