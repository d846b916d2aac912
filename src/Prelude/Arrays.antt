-- ===== src/Prelude/Arrays.antt =====
-- Lists as arrays: what an access reads, and equality by accesses.
use Prim.Native.Nat.{ℕ, zero, suc, ◌+◌, ◌-◌, ◌<◌}
use mathlib.Core.Path.{◌≡◌, refl, ap, ◌∙◌}
use mathlib.Core.Logic.{inl, inr}
use mathlib.Core.Option.{none, some}
use mathlib.Core.List.{List, [], ◌∷◌, ◌++◌}
use native.Mathlib.Omega.{arith}
use brunix.Prelude.Tests.{ltb, ◌==◌, if◌then◌else◌, Bool-cases, ==_iff}
use brunix.Prelude.Lists.{
  length, get_elem?, set, replicate, drop, get_elem?-set_self, get_elem?-set_ne,
}

pub get_elem?-set :
    (b : List ℕ) (p i v : ℕ)
    → p < length b
    → get_elem? (set b p v) i ≡ (if i == p then some v else get_elem? b i)
get_elem?-set b p i v h = elim (Bool-cases (i == p)) [
  | inl e ↦ rw (e, (==_iff i p).0 e) (get_elem?-set_self b p v h)
  | inr e ↦ rw e (get_elem?-set_ne b v (λ q. grind (arith, e, q)))
]

pub get_elem?-append_lem :
    (xs ys : List ℕ) (i : ℕ)
    → get_elem? (xs ++ ys) i
      ≡ (if ltb i (length xs) then get_elem? xs i else get_elem? ys (i - length xs))
get_elem?-append_lem [] ys i = ground arith
get_elem?-append_lem (x ∷ xs) ys zero = ground arith
get_elem?-append_lem (x ∷ xs) ys (suc i) = ground (arith, get_elem?-append_lem xs ys i)

pub get_elem?-replicate :
    (n v i : ℕ) → get_elem? (replicate n v) i ≡ (if ltb i n then some v else none)
get_elem?-replicate zero v i = ground arith
get_elem?-replicate (suc n) v zero = ground arith
get_elem?-replicate (suc n) v (suc i) = ground (arith, get_elem?-replicate n v i)

pub get_elem?-inside : (xs : List ℕ) (i : ℕ) → i < length xs → (x : ℕ) × (get_elem? xs i ≡ some x)
get_elem?-inside [] i h = absurd (omega arith)
get_elem?-inside (x ∷ xs) zero h = (x, refl)
get_elem?-inside (x ∷ xs) (suc i) h = get_elem?-inside xs i (omega arith)

pub list_ext : (xs ys : List ℕ) → ((i : ℕ) → get_elem? xs i ≡ get_elem? ys i) → xs ≡ ys
list_ext [] [] h = refl
list_ext [] (y ∷ ys) h = cc (h 0)
list_ext (x ∷ xs) [] h = cc (h 0)
list_ext (x ∷ xs) (y ∷ ys) h = let tails = list_ext xs ys (λ i. h (suc i)) in cc (h 0, tails)

pub get_elem?-drop : (n : ℕ) (xs : List ℕ) (i : ℕ) → get_elem? (drop n xs) i ≡ get_elem? xs (n + i)
get_elem?-drop zero xs i = ap (get_elem? xs) (omega arith)
get_elem?-drop (suc n) [] i = refl
get_elem?-drop (suc n) (x ∷ xs) i = get_elem?-drop n xs i ∙ ground arith

-- Access just behind a prefix, at an index that is counted from the whole list's start.
pub get_elem?-cons :
    (x : ℕ) (xs : List ℕ) (i : ℕ)
    → get_elem? (x ∷ xs) i ≡ (if i == 0 then some x else get_elem? xs (i - 1))
get_elem?-cons x xs zero = ground arith
get_elem?-cons x xs (suc i) = ground arith

pub length-drop : (n : ℕ) (xs : List ℕ) → length (drop n xs) ≡ length xs - n
length-drop zero xs = omega arith
length-drop (suc n) [] = omega arith
length-drop (suc n) (x ∷ xs) = omega (arith, length-drop n xs)
