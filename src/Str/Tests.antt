-- ===== src/Str/Tests.antt =====
-- Three bytes of an object of five.
use brunix.Prelude.{
  ℕ, ◌≡◌, refl, arith, ltb, if◌then◌else◌, some, List, [], ◌∷◌, length, get_elem?, replicate,
}
use brunix.Str.{memset, set_bytes}
use brunix.Str.Memset.{memset_fills}
use brunix.Itoa.{store}

minus_one : memset (replicate 5 7) 0xffffffff 3 ≡ some (255 ∷ 255 ∷ 255 ∷ 7 ∷ 7 ∷ [])
unfolding memset set_bytes store
minus_one = refl

memset_fills_example :
    (out : List ℕ) × (memset (replicate 5 7) 0xffffffff 3 ≡ some out)
    × (length out ≡ 5)
    × ((i : ℕ) → get_elem? out i ≡ (if ltb i 3 then some 255 else get_elem? (replicate 5 7) i))
memset_fills_example = memset_fills (replicate 5 7) 0xffffffff 3 (omega arith)
