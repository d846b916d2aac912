-- ===== src/Types.antt =====
-- arch/x86/include/asm/stddef.h: the types of numbers, and what a conversion to them gives.
pub mod Cast
pub mod Limits
mod Tests
use brunix.Prelude.{
  ℕ, ◌+◌, ◌-◌, ◌*◌, ◌%◌, ◌^◌, ◌<◌, leb, ◌&&◌, Bool, true, false, if◌then◌else◌, ℤ, pos, negsuc,
}

pub data CType : Type 0 where
  size_t ptrdiff_t ssize_t off_t uint64_t int64_t uint32_t int32_t uint16_t int16_t uint8_t int8_t
        wchar_t :
      CType

-- Half of the number of values; a `long` has 32 bits.
unfoldable pub half : CType → ℕ
half size_t = 2 ^ 31
half ptrdiff_t = 2 ^ 31
half ssize_t = 2 ^ 31
half off_t = 2 ^ 31
half uint64_t = 2 ^ 63
half int64_t = 2 ^ 63
half uint32_t = 2 ^ 31
half int32_t = 2 ^ 31
half uint16_t = 2 ^ 15
half int16_t = 2 ^ 15
half uint8_t = 2 ^ 7
half int8_t = 2 ^ 7
half wchar_t = 2 ^ 15

-- A `char` has a sign.
unfoldable pub is_signed : CType → Bool
is_signed ptrdiff_t = true
is_signed ssize_t = true
is_signed off_t = true
is_signed int64_t = true
is_signed int32_t = true
is_signed int16_t = true
is_signed int8_t = true
is_signed ty = false

-- The bits of a number in a word with m values.
unfoldable pub bits : ℕ → ℤ → ℕ
bits m (pos n) = n % m
bits m (negsuc n) = m - 1 - n % m

-- The number that bits stand for.
unfoldable pub value : Bool → ℕ → ℕ → ℤ
value false h r = pos r
value true h r = if leb h r then negsuc (2 * h - 1 - r) else pos r

-- A conversion.
unfoldable pub cast : CType → ℤ → ℤ
cast ty z = value (is_signed ty) (half ty) (bits (2 * half ty) z)
