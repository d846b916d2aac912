-- ===== src/Types/Cast.antt =====
-- arch/x86/include/asm/stddef.h: a conversion gives the one number of the type with the same bits.
use native.Mathlib.Nat.{mod-lt, mod-eq_of_lt}
use brunix.Prelude.{
  ◌^◌, u8, u16, u32, signed32, ℕ, ◌-◌, ◌*◌, ◌%◌, ◌<◌, ◌≡◌, refl, sym, ap, ◌∙◌, arith, leb, Bool,
  true, false, Bool-cases, inl, inr, ℤ, pos, negsuc,
}
use mathlib.Core.Path.{subst}
use brunix.Types.Limits.{Within, InRange, width, width_lem, Fits-Within}
use brunix.Types.{CType, half, is_signed, bits, value, cast}
use brunix.Types.{
  size_t, ptrdiff_t, ssize_t, off_t, uint64_t, int64_t, uint32_t, int32_t, uint16_t, int16_t,
  uint8_t, int8_t, wchar_t,
}

half_pos : (ty : CType) → 0 < half ty
unfolding half
half_pos size_t = omega arith
half_pos ptrdiff_t = omega arith
half_pos ssize_t = omega arith
half_pos off_t = omega arith
half_pos uint64_t = omega arith
half_pos int64_t = omega arith
half_pos uint32_t = omega arith
half_pos int32_t = omega arith
half_pos uint16_t = omega arith
half_pos int16_t = omega arith
half_pos uint8_t = omega arith
half_pos int8_t = omega arith
half_pos wchar_t = omega arith

bits-lt : (m : ℕ) (z : ℤ) → 0 < m → bits m z < m
unfolding bits
bits-lt m (pos n) h = mod-lt n h
bits-lt m (negsuc n) h = omega arith

value-InRange : (b : Bool) (h r : ℕ) → r < 2 * h → InRange b h (value b h r)
unfolding value
value-InRange false h r small = small
value-InRange true h r small = elim (Bool-cases (leb h r)) [
  | inl e ↦ rw e (ground (arith, e))
  | inr e ↦ rw e (ground (arith, e))
]

bits-value : (b : Bool) (h r : ℕ) → r < 2 * h → bits (2 * h) (value b h r) ≡ r
unfolding value bits
bits-value false h r small = mod-eq_of_lt small
bits-value true h r small = elim (Bool-cases (leb h r)) [
  | inl e ↦
      let inside : (2 * h - 1 - r) % (2 * h) ≡ 2 * h - 1 - r = mod-eq_of_lt (omega arith) in
      rw e (omega (arith, inside))
  | inr e ↦ rw e (mod-eq_of_lt small)
]

value-bits : (b : Bool) (h : ℕ) (z : ℤ) → InRange b h z → value b h (bits (2 * h) z) ≡ z
unfolding value bits
value-bits false h (pos n) small = ap pos (mod-eq_of_lt small)
value-bits false h (negsuc n) small = elim small [ ]
value-bits true h (pos n) small =
    let inside : n % (2 * h) ≡ n = mod-eq_of_lt (omega arith) in
    let low : leb h n ≡ false = ground arith in rw (inside, low) refl
value-bits true h (negsuc n) small =
    let inside : n % (2 * h) ≡ n = mod-eq_of_lt (omega arith) in
    let high : leb h (2 * h - 1 - n) ≡ true = ground arith in
    rw (inside, high) (ap negsuc (omega arith))

-- The casts that the other components write out are these conversions.
cast-casts :
    (n : ℕ)
    → (cast uint8_t (pos n) ≡ pos (u8 n))
      × (cast uint16_t (pos n) ≡ pos (u16 n))
      × (cast uint32_t (pos n) ≡ pos (u32 n))
      × (cast int32_t (pos n) ≡ signed32 (u32 n))
unfolding cast value bits is_signed half
cast-casts n = (refl, refl, refl, ground arith)

-- For every type of stddef.h: a conversion to it, of any number, gives a number from the type's lowest
-- to its highest, as a 32-bit C has them (its `char` has a sign), with the same bits in the type's
-- width, and every number from the lowest to the highest with these bits is that one; a number
-- from the lowest to the highest is its own conversion.
pub cast_lem :
    (ty : CType) (z z' : ℤ)
    → Within ty z'
    → bits (2 ^ width ty) z' ≡ bits (2 ^ width ty) z
    → Within ty (cast ty z)
      × (bits (2 ^ width ty) (cast ty z) ≡ bits (2 ^ width ty) z)
      × (cast ty z ≡ z')
      × (cast ty z' ≡ z')
unfolding cast
cast_lem ty z z' within same =
    let small = bits-lt (2 * half ty) z (omega (arith, half_pos ty)) in
    let fits = (Fits-Within ty z').1 within in
    let alike : bits (2 * half ty) z' ≡ bits (2 * half ty) z =
      subst (λ m. bits m z' ≡ bits m z) (width_lem ty) same in
    (
      (Fits-Within ty (cast ty z)).0
          (value-InRange (is_signed ty) (half ty) (bits (2 * half ty) z) small),
      subst (λ m. bits m (cast ty z) ≡ bits m z) (sym (width_lem ty))
          (bits-value (is_signed ty) (half ty) (bits (2 * half ty) z) small),
      ap (value (is_signed ty) (half ty)) (sym alike) ∙ value-bits (is_signed ty) (half ty) z' fits,
      value-bits (is_signed ty) (half ty) z' fits,
    )
