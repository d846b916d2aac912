-- ===== src/Itoa/Store.antt =====
-- A write of a byte, inside and outside its object.
use brunix.Prelude.{ℕ, ◌≤◌, ◌<◌, ◌≡◌, arith, some, none, List, length, set}
use brunix.Itoa.{store}

pub store-inside : (b : List ℕ) (p v : ℕ) → p < length b → store b p v ≡ some (set b p v)
unfolding store
store-inside b p v h = ground (arith, h)

pub store-outside : (b : List ℕ) (p v : ℕ) → length b ≤ p → store b p v ≡ none
unfolding store
store-outside b p v h = ground (arith, h)
