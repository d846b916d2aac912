-- ===== src/Types/Tests.antt =====
-- 511 and -1 as numbers of 8 bits.
use brunix.Prelude.{◌^◌, ◌≡◌, refl, arith, pos, negsuc}
use brunix.Types.{uint8_t, int8_t, half, is_signed, bits, value, cast}
use brunix.Types.Cast.{cast_lem}
use brunix.Types.Limits.{Within}

cast_lem_example :
    Within int8_t (cast int8_t (pos 511))
    × (bits (2 ^ 8) (cast int8_t (pos 511)) ≡ bits (2 ^ 8) (pos 511))
    × (cast int8_t (pos 511) ≡ negsuc 0)
    × (cast int8_t (negsuc 0) ≡ negsuc 0)
cast_lem_example = cast_lem int8_t (pos 511) (negsuc 0) (omega arith) (unfold bits in refl)

minus_one : cast uint8_t (negsuc 0) ≡ pos 255
unfolding cast value bits is_signed half
minus_one = refl
