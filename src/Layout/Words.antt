-- ===== src/Layout/Words.antt =====
-- arch/x86/kernel/gdt.c and idt.c, arch/x86/include/asm/gdt.h and idt.h: the descriptors
-- as the 64 bits that the processor reads.
use brunix.Prelude.{
  ℕ, ◌+◌, ◌*◌, ◌/◌, ◌%◌, ◌^◌, ◌<◌, ◌≡◌, refl, ap, ◌∙◌, arith, true, some, List, [], ◌∷◌, length,
  get_elem?,
}
use brunix.Gdt.{Desc, Segmentation, encode, gdt_init}
use brunix.Gdt.Descriptor.{base_of, limit_of, flags_of, encode-decode}
use brunix.Gdt.Flat.{gdt-gdt_init}
use brunix.Idt.{Idt, gate}
use brunix.Idt.Gates.{has_stub, install, entry-install, gate-offset}
use brunix.Layout.{desc_word, gate_word, IsDesc, IsGate}

encode-IsDesc :
    (base limit access gran : ℕ) → access < 2 ^ 8 → IsDesc (encode base limit access gran)
unfolding encode
encode-IsDesc base limit access gran h = record {
  limit_low = omega arith;
  base_low = omega arith;
  base_middle = omega arith;
  access = h;
  granularity = omega arith;
  base_high = omega arith;
}

gate-IsGate : (base : ℕ) → IsGate (gate base 0x08 0x8e)
unfolding gate
gate-IsGate base = record {
  base_lo = omega arith;
  sel = omega arith;
  always0 = omega arith;
  p_dpl_type = omega arith;
  base_hi = omega arith;
}

-- The fields of a segment descriptor by their bits.
abbrev pub base_bits : ℕ → ℕ
base_bits w = w / 2 ^ 56 * 2 ^ 24 + w / 2 ^ 16 % 2 ^ 24

abbrev pub limit_bits : ℕ → ℕ
limit_bits w = w / 2 ^ 48 % 2 ^ 4 * 2 ^ 16 + w % 2 ^ 16

abbrev pub access_bits : ℕ → ℕ
access_bits w = w / 2 ^ 40 % 2 ^ 8

abbrev pub flag_bits : ℕ → ℕ
flag_bits w = w / 2 ^ 52 % 2 ^ 4

desc_word-fields :
    (d : Desc)
    → IsDesc d
    → (base_bits (desc_word d) ≡ base_of d)
      × (limit_bits (desc_word d) ≡ limit_of d)
      × (access_bits (desc_word d) ≡ d.access)
      × (flag_bits (desc_word d) ≡ flags_of d)
unfolding desc_word
desc_word-fields d h = (
  omega (arith, h.limit_low, h.base_low, h.base_middle, h.access, h.granularity, h.base_high),
  omega (arith, h.limit_low, h.base_low, h.base_middle, h.access, h.granularity, h.base_high),
  omega (arith, h.limit_low, h.base_low, h.base_middle, h.access, h.granularity, h.base_high),
  omega (arith, h.limit_low, h.base_low, h.base_middle, h.access, h.granularity, h.base_high),
)

encode-words :
    (base limit access gran : ℕ)
    → base < 2 ^ 32
    → limit < 2 ^ 32
    → access < 2 ^ 8
    → gran < 2 ^ 8
    → let w = desc_word (encode base limit access gran) in
      (base_bits w ≡ base)
      × (limit_bits w ≡ limit % 2 ^ 20)
      × (access_bits w ≡ access)
      × (flag_bits w ≡ gran / 16)
encode-words base limit access gran hb hl ha hg =
    let (e1, e2, e3, e4) =
      desc_word-fields (encode base limit access gran) (encode-IsDesc base limit access gran ha) in
    let (d1, d2, d3, d4) = encode-decode base limit access gran hb hl hg in
    (e1 ∙ d1, e2 ∙ d2, e3 ∙ d4, e4 ∙ d3)

-- The fields of a gate by their bits.
abbrev pub target_bits : ℕ → ℕ
target_bits w = w / 2 ^ 48 * 2 ^ 16 + w % 2 ^ 16

abbrev pub selector_bits : ℕ → ℕ
selector_bits w = w / 2 ^ 16 % 2 ^ 16

abbrev pub type_bits : ℕ → ℕ
type_bits w = w / 2 ^ 32 % 2 ^ 16

gate_words :
    (base : ℕ)
    → base < 2 ^ 32
    → let w = gate_word (gate base 0x08 0x8e) in
      (target_bits w ≡ base) × (selector_bits w ≡ 0x08) × (type_bits w ≡ 0x8e00)
unfolding gate_word
gate_words base h =
    let ok = gate-IsGate base in
    let led = gate-offset base 0x08 0x8e h in
    (
      omega (arith, ok.base_lo, led),
      unfold gate in omega (arith, ok.base_lo),
      unfold gate in omega (arith, ok.base_lo),
    )

-- The five descriptors of the manuals: none, and the flat segments for code and data of ring 0 and of
-- ring 3.
abbrev pub flat_words : List ℕ
flat_words =
    0 ∷ 0x00cf9a000000ffff ∷ 0x00cf92000000ffff ∷ 0x00cffa000000ffff ∷ 0x00cff2000000ffff ∷ []

abbrev pub desc_words : List Desc → List ℕ
desc_words [] = []
desc_words (d ∷ ds) = desc_word d ∷ desc_words ds

flat_lem :
    (address : ℕ) (s : Segmentation)
    → length s.gdt ≡ 5
    → desc_words (gdt_init address s).gdt ≡ flat_words
flat_lem address s h = ap desc_words (gdt-gdt_init address s h) ∙ unfold encode desc_word in refl

-- The 64 bits that `gdt_set_desc` stores give back, by their places in the word, the base, the limit
-- modulo 2 ^ 20, the access byte and the high half of the flags, for every base and limit of 32 bits
-- and every access and flags byte; the words of the five entries after `gdt_init` are the null
-- descriptor and the manuals' flat segments; and the 64 bits at each vector of an exception, an
-- IRQ or the system call after `init_idt`, `isr_install` and the gates of `irq_install` name, by
-- their places, an interrupt gate of ring 0 to the vector's own stub, at an address of 32 bits,
-- through the flat code segment of ring 0.
pub stored_words :
    (base limit access gran address table v : ℕ) (stub : ℕ → ℕ) (s : Segmentation) (t : Idt)
    → base < 2 ^ 32
    → limit < 2 ^ 32
    → access < 2 ^ 8
    → gran < 2 ^ 8
    → length s.gdt ≡ 5
    → v < 256
    → has_stub v ≡ true
    → stub v < 2 ^ 32
    → let d = desc_word (encode base limit access gran) in
      let ds = desc_words (gdt_init address s).gdt in
      let g = gate_word ((install table stub t).entry v) in
      ((base_bits d ≡ base)
        × (limit_bits d ≡ limit % 2 ^ 20)
        × (access_bits d ≡ access)
        × (flag_bits d ≡ gran / 16))
      × (ds ≡ flat_words)
      × ((target_bits g ≡ stub v)
          × (get_elem? ds (selector_bits g / 8) ≡ some 0x00cf9a000000ffff)
          × (selector_bits g % 8 ≡ 0)
          × (type_bits g ≡ 0x8e00))
stored_words base limit access gran address table v stub s t hb hl ha hg five hv e fits =
    let (target, selector, kind) = gate_words (stub v) fits in
    (
      encode-words base limit access gran hb hl ha hg,
      flat_lem address s five,
      rw (entry-install table stub t v hv, e, flat_lem address s five, selector)
          (target, refl, refl, kind),
    )
