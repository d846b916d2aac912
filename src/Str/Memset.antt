-- ===== src/Str/Memset.antt =====
-- What `memset` leaves.
use native.Mathlib.Decide.{dec_lt}
use brunix.Prelude.{
  ℕ, zero, suc, ◌+◌, ◌≤◌, ◌<◌, ◌≡◌, refl, ap, ◌∙◌, arith, u8, ltb, leb, ◌&&◌, if◌then◌else◌, some,
  none, ◌>>=◌, List, length, length-set, set, get_elem?, get_elem?-set,
}
use brunix.Itoa.Store.{store-inside, store-outside}
use brunix.Str.{set_bytes, memset}

set_bytes-inside :
    (val p n : ℕ) (b : List ℕ)
    → p + n ≤ length b
    → (out : List ℕ) × (set_bytes val p n b ≡ some out)
      × (length out ≡ length b)
      × ((i : ℕ)
          → get_elem? out i ≡ (if leb p i && ltb i (p + n) then some (u8 val) else get_elem? b i))
unfolding set_bytes
set_bytes-inside val p zero b h = (b, refl, refl, λ i. ground arith)
set_bytes-inside val p (suc n) b h =
    let b1 = set b p (u8 val) in
    let len = length-set b p (u8 val) in
    let (out, e, l, g) = set_bytes-inside val (p + 1) n b1 (omega (arith, len)) in
    (
      out,
      ap (λ o. o >>= λ b. set_bytes val (p + 1) n b) (store-inside b p (u8 val) (omega arith)) ∙ e,
      l ∙ len,
      λ i. ground (arith, g i, get_elem?-set b p i (u8 val) (omega arith)),
    )

set_bytes-outside :
    (val p n : ℕ) (b : List ℕ) → p ≤ length b → length b < p + n → set_bytes val p n b ≡ none
unfolding set_bytes
set_bytes-outside val p zero b low h = absurd (omega arith)
set_bytes-outside val p (suc n) b low h = elim (dec_lt p (length b)) [
  | no out ↦
      ap (λ o. o >>= λ b. set_bytes val (p + 1) n b) (store-outside b p (u8 val) (omega arith))
  | yes fits ↦
      let len = length-set b p (u8 val) in
      ap (λ o. o >>= λ b. set_bytes val (p + 1) n b) (store-inside b p (u8 val) fits)
      ∙ set_bytes-outside val (p + 1) n (set b p (u8 val)) (omega (arith, len)) (omega (arith, len))
]

-- `memset` fills the first `n` bytes of an object that has them with the low 8 bits of `val`, and
-- keeps every other byte and the object's size.
pub memset_fills :
    (dest : List ℕ) (val n : ℕ)
    → n ≤ length dest
    → (out : List ℕ) × (memset dest val n ≡ some out)
      × (length out ≡ length dest)
      × ((i : ℕ) → get_elem? out i ≡ (if ltb i n then some (u8 val) else get_elem? dest i))
unfolding memset
memset_fills dest val n h =
    let (out, e, l, g) = set_bytes-inside val 0 n dest (omega arith) in
    (out, e, l, λ i. ground (arith, g i))

-- In an object of fewer than `n` bytes `memset` writes outside.
pub memset_overflows : (dest : List ℕ) (val n : ℕ) → length dest < n → memset dest val n ≡ none
unfolding memset
memset_overflows dest val n h = set_bytes-outside val 0 n dest (omega arith) (omega arith)
