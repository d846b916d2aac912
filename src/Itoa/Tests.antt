-- ===== src/Itoa/Tests.antt =====
-- Runs of `itoa`, and its theorems at concrete inputs.
use brunix.Prelude.{
  ℕ, ◌≡◌, refl, arith, some, none, List, [], ◌∷◌, ◌++◌, replicate, codes, c_string, pos, negsuc,
}
use brunix.Itoa.{itoa, convert, sign, emit, symbol, store, swap, invert}
use brunix.Itoa.Laws.{text}
use brunix.Itoa.RoundTrip.{read, itoa_fits, itoa_round_trip}

abbrev buffer : List ℕ
buffer = replicate 65 7

-- INT_MIN, whose absolute value is no `int`.
int_min :
    itoa (negsuc 2147483647) (replicate 12 7) (pos 10) ≡ some (codes "-2147483648" ++ (0 ∷ []))
unfolding itoa convert sign emit symbol store swap invert
int_min = refl

too_small : itoa (pos 100) (replicate 3 7) (pos 10) ≡ none
unfolding itoa convert sign emit symbol store swap invert
too_small = refl

itoa_fits_example :
    (out : List ℕ) × (itoa (negsuc 254) buffer (pos 16) ≡ some out)
    × (c_string out ≡ text (negsuc 254) 16)
itoa_fits_example =
    itoa_fits (negsuc 254) 16 buffer (omega arith) (omega arith) (omega arith) (omega arith)

itoa_round_trip_example :
    (out : List ℕ) × (itoa (negsuc 1233) buffer (pos 10) ≡ some out)
    × (read 10 (c_string out) ≡ negsuc 1233)
itoa_round_trip_example = itoa_round_trip (negsuc 1233) buffer (omega arith) (omega arith)
