-- ===== src/Types/Limits.antt =====
-- arch/x86/include/asm/stddef.h: the numbers of the types by the limits of a 32-bit C, and their widths.
use brunix.Prelude.{
  ℕ, ◌+◌, ◌*◌, ◌^◌, ◌<◌, ◌≤◌, ◌≡◌, ◌↔◌, refl, arith, Bool, true, false, ℤ, pos, negsuc,
}
use brunix.Types.{CType, half, is_signed}
use brunix.Types.{
  size_t, ptrdiff_t, ssize_t, off_t, uint64_t, int64_t, uint32_t, int32_t, uint16_t, int16_t,
  uint8_t, int8_t, wchar_t,
}

-- SIZE_MAX, PTRDIFF_MAX, and so on.
abbrev pub highest : CType → ℕ
highest size_t = 4294967295
highest ptrdiff_t = 2147483647
highest ssize_t = 2147483647
highest off_t = 2147483647
highest uint64_t = 18446744073709551615
highest int64_t = 9223372036854775807
highest uint32_t = 4294967295
highest int32_t = 2147483647
highest uint16_t = 65535
highest int16_t = 32767
highest uint8_t = 255
highest int8_t = 127
highest wchar_t = 65535

-- How many numbers of the type are negative: PTRDIFF_MIN, and so on, without the sign.
abbrev pub negatives : CType → ℕ
negatives size_t = 0
negatives ptrdiff_t = 2147483648
negatives ssize_t = 2147483648
negatives off_t = 2147483648
negatives uint64_t = 0
negatives int64_t = 9223372036854775808
negatives uint32_t = 0
negatives int32_t = 2147483648
negatives uint16_t = 0
negatives int16_t = 32768
negatives uint8_t = 0
negatives int8_t = 128
negatives wchar_t = 0

-- The width in bits.
abbrev pub width : CType → ℕ
width size_t = 32
width ptrdiff_t = 32
width ssize_t = 32
width off_t = 32
width uint64_t = 64
width int64_t = 64
width uint32_t = 32
width int32_t = 32
width uint16_t = 16
width int16_t = 16
width uint8_t = 8
width int8_t = 8
width wchar_t = 16

-- From the lowest to the highest number of a type.
abbrev pub Within : CType → ℤ → Type 0
Within ty (pos n) = n ≤ highest ty
Within ty (negsuc n) = n < negatives ty

-- The same, by the model's sign of a type and half of the number of its values.
abbrev pub InRange : Bool → ℕ → ℤ → Type 0
InRange false h (pos n) = n < 2 * h
InRange false h (negsuc n) = ⊥
InRange true h (pos n) = n < h
InRange true h (negsuc n) = n < h

abbrev pub Fits : CType → ℤ → Type 0
Fits ty z = InRange (is_signed ty) (half ty) z

AreLimits : Bool → ℕ → ℕ → ℕ → Type 0
AreLimits false h high low = (high + 1 ≡ 2 * h) × (low ≡ 0)
AreLimits true h high low = (high + 1 ≡ h) × (low ≡ h)

limits :
    (ty : CType)
    → (2 ^ width ty ≡ 2 * half ty) × AreLimits (is_signed ty) (half ty) (highest ty) (negatives ty)
unfolding half is_signed AreLimits
limits size_t = (refl, (refl, refl))
limits ptrdiff_t = (refl, (refl, refl))
limits ssize_t = (refl, (refl, refl))
limits off_t = (refl, (refl, refl))
limits uint64_t = (refl, (refl, refl))
limits int64_t = (refl, (refl, refl))
limits uint32_t = (refl, (refl, refl))
limits int32_t = (refl, (refl, refl))
limits uint16_t = (refl, (refl, refl))
limits int16_t = (refl, (refl, refl))
limits uint8_t = (refl, (refl, refl))
limits int8_t = (refl, (refl, refl))
limits wchar_t = (refl, (refl, refl))

-- The modulus of a type.
pub width_lem : (ty : CType) → 2 ^ width ty ≡ 2 * half ty
width_lem ty = (limits ty).0

in_range :
    (b : Bool) (h high low n : ℕ)
    → AreLimits b h high low
    → (InRange b h (pos n) ↔ (n ≤ high)) × (InRange b h (negsuc n) ↔ (n < low))
unfolding AreLimits
in_range false h high low n (e, f) = (
  ((λ x. omega (arith, e, x)), (λ x. omega (arith, e, x))),
  ((λ x. elim x [ ]), (λ x. absurd (omega (arith, f, x)))),
)
in_range true h high low n (e, f) = (
  ((λ x. omega (arith, e, x)), (λ x. omega (arith, e, x))),
  ((λ x. omega (arith, f, x)), (λ x. omega (arith, f, x))),
)

-- The two descriptions of the numbers of a type agree.
pub Fits-Within : (ty : CType) (z : ℤ) → Fits ty z ↔ Within ty z
Fits-Within ty (pos n) =
    (in_range (is_signed ty) (half ty) (highest ty) (negatives ty) n (limits ty).1).0
Fits-Within ty (negsuc n) =
    (in_range (is_signed ty) (half ty) (highest ty) (negatives ty) n (limits ty).1).1
