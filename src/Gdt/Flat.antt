-- ===== src/Gdt/Flat.antt =====
-- The segments that `gdt_init` sets up.
use brunix.Prelude.{
  ℕ, ◌+◌, ◌-◌, ◌*◌, ◌/◌, ◌%◌, ◌^◌, ◌≡◌, refl, arith, ◌==◌, if◌then◌else◌, some, List, [], ◌∷◌,
  length, set, get_elem?, ap, sym,
}
use brunix.Gdt.{
  Desc, Segmentation, encode, gdt_init, segment_limit, segment_access, segment_gran, flag_ring0,
  flag_ring3, flag_codeseg, flag_dataseg,
}
use brunix.Gdt.Descriptor.{base_of, limit_of, flags_of}

-- The last byte of a segment: with the granularity flag the limit counts pages of 4 KB.
abbrev pub last_byte : Desc → ℕ
last_byte d = if flags_of d / 8 == 1 then limit_of d * 4096 + 4095 else limit_of d

-- A present segment of 32 bits over the whole address space, at a privilege level, for code (1), which
-- can be read, or data (0), which can be written.
pub record IsFlat (d : Desc) (ring executable : ℕ) : Type 0 where
  pub base : base_of d ≡ 0
  pub last : last_byte d ≡ 2 ^ 32 - 1
  pub present : d.access / 128 ≡ 1
  pub privilege : d.access / 32 % 4 ≡ ring
  pub kind : d.access / 8 % 4 ≡ 2 + executable
  pub permitted : d.access / 2 % 2 ≡ 1
  pub size : flags_of d % 8 ≡ 4

-- The segment that a selector names: the index is above the three low bits.
abbrev pub Selects : Segmentation → ℕ → ℕ → ℕ → Type 0
Selects s selector ring executable =
    (d : Desc) × (get_elem? s.gdt (selector / 8) ≡ some d) × IsFlat d ring executable

five_set :
    (g : List Desc) (a b c d e : Desc)
    → length g ≡ 5
    → set (set (set (set (set g 0 a) 1 b) 2 c) 3 d) 4 e ≡ a ∷ b ∷ c ∷ d ∷ e ∷ []
five_set [] a b c d e h = absurd (omega arith)
five_set (_ ∷ []) a b c d e h = absurd (omega arith)
five_set (_ ∷ _ ∷ []) a b c d e h = absurd (omega arith)
five_set (_ ∷ _ ∷ _ ∷ []) a b c d e h = absurd (omega arith)
five_set (_ ∷ _ ∷ _ ∷ _ ∷ []) a b c d e h = absurd (omega arith)
five_set (_ ∷ _ ∷ _ ∷ _ ∷ _ ∷ []) a b c d e h = refl
five_set (_ ∷ _ ∷ _ ∷ _ ∷ _ ∷ _ ∷ g) a b c d e h = absurd (omega arith)

abbrev segment : ℕ → ℕ → Desc
segment ring kind = encode 0 segment_limit (segment_access ring kind) segment_gran

abbrev pub segments : List Desc
segments =
    encode 0 0 0 0
    ∷ segment flag_ring0 flag_codeseg
    ∷ segment flag_ring0 flag_dataseg
    ∷ segment flag_ring3 flag_codeseg
    ∷ segment flag_ring3 flag_dataseg
    ∷ []

pub gdt-gdt_init :
    (address : ℕ) (s : Segmentation) → length s.gdt ≡ 5 → (gdt_init address s).gdt ≡ segments
unfolding gdt_init
gdt-gdt_init address s h =
    five_set s.gdt (encode 0 0 0 0) (segment flag_ring0 flag_codeseg)
      (segment flag_ring0 flag_dataseg) (segment flag_ring3 flag_codeseg)
      (segment flag_ring3 flag_dataseg) h

kernel_code : IsFlat (segment flag_ring0 flag_codeseg) 0 1
unfolding encode
kernel_code = record {
  base = refl;
  last = refl;
  present = refl;
  privilege = refl;
  kind = refl;
  permitted = refl;
  size = refl;
}

kernel_data : IsFlat (segment flag_ring0 flag_dataseg) 0 0
unfolding encode
kernel_data = record {
  base = refl;
  last = refl;
  present = refl;
  privilege = refl;
  kind = refl;
  permitted = refl;
  size = refl;
}

user_code : IsFlat (segment flag_ring3 flag_codeseg) 3 1
unfolding encode
user_code = record {
  base = refl;
  last = refl;
  present = refl;
  privilege = refl;
  kind = refl;
  permitted = refl;
  size = refl;
}

user_data : IsFlat (segment flag_ring3 flag_dataseg) 3 0
unfolding encode
user_data = record {
  base = refl;
  last = refl;
  present = refl;
  privilege = refl;
  kind = refl;
  permitted = refl;
  size = refl;
}

-- With the five entries of the static table, `gdt_init` leaves the code selector on a flat readable
-- code segment of 32 bits and ring 0, all data selectors on a flat writable data segment of 32 bits
-- and ring 0, such segments of ring 3 at
-- entries 3 and 4, an empty entry 0, and the processor's register on exactly this table.
pub gdt_init_lem :
    (address : ℕ) (s : Segmentation)
    → length s.gdt ≡ 5
    → let s' = gdt_init address s in
      Selects s' s'.cs 0 1
      × Selects s' s'.ds 0 0
      × ((s'.es ≡ s'.ds) × (s'.fs ≡ s'.ds) × (s'.gs ≡ s'.ds) × (s'.ss ≡ s'.ds))
      × Selects s' (3 * 8) 3 1
      × Selects s' (4 * 8) 3 0
      × (get_elem? s'.gdt 0 ≡ some (encode 0 0 0 0))
      × ((s'.gdtr.base ≡ address) × (s'.gdtr.limit + 1 ≡ 8 * length s'.gdt))
unfolding gdt_init
gdt_init_lem address s h = (
  (segment flag_ring0 flag_codeseg, at 1, kernel_code),
  (segment flag_ring0 flag_dataseg, at 2, kernel_data),
  (refl, refl, refl, refl),
  (segment flag_ring3 flag_codeseg, at 3, user_code),
  (segment flag_ring3 flag_dataseg, at 4, user_data),
  at 0,
  (refl, sym (ap (λ (g : List Desc). 8 * length g) (gdt-gdt_init address s h))),
)
  where
    at : (k : ℕ) → get_elem? (gdt_init address s).gdt k ≡ get_elem? segments k
    at k = ap (λ g. get_elem? g k) (gdt-gdt_init address s h)
