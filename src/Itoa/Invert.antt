-- ===== src/Itoa/Invert.antt =====
-- The exchange loop at the end of `itoa` reverses the digits in place.
use mathlib.Core.List.{reverse-append}
use mathlib.Core.Path.{subst}
use brunix.Prelude.{ℕ, zero, suc, ◌+◌, ◌-◌, ◌<◌, ◌≡◌, refl, sym, ap, ◌∙◌, arith, some}
use brunix.Prelude.{
  List, [], ◌∷◌, ◌++◌, length, reverse, append_assoc, length-append, get_elem?, get_elem?-append,
}
use brunix.Itoa.{store, swap, invert}
use brunix.Itoa.Emit.{store-append}

-- A list that is not empty has a last element.
last_of : (a : ℕ) (s : List ℕ) → (mid : List ℕ) × (b : ℕ) × (a ∷ s ≡ mid ++ (b ∷ []))
last_of a [] = ([], a, refl)
last_of a (c ∷ s) = let (mid, b, e) = last_of c s in (a ∷ mid, b, ap (λ t. a ∷ t) e)

swap-append :
    (pre mid rest : List ℕ) (a b ptr : ℕ)
    → ptr ≡ length (pre ++ (a ∷ mid))
    → swap (pre ++ (a ∷ (mid ++ (b ∷ rest)))) (length pre) ptr
      ≡ some (pre ++ (b ∷ (mid ++ (a ∷ rest))))
unfolding swap
swap-append pre mid rest a b ptr e =
    rw
      (
        get_elem?-append pre a (mid ++ (b ∷ rest)),
        far_read,
        store-append pre a b (mid ++ (b ∷ rest)),
      )
      far_write
  where
    far_read : get_elem? (pre ++ (a ∷ (mid ++ (b ∷ rest)))) ptr ≡ some b
    far_read =
        rw (e, ← append_assoc pre (a ∷ mid) (b ∷ rest)) (get_elem?-append (pre ++ (a ∷ mid)) b rest)

    same : ptr ≡ length (pre ++ (b ∷ mid))
    same = omega (arith, e, length-append pre (a ∷ mid), length-append pre (b ∷ mid))

    far_write :
        store (pre ++ (b ∷ (mid ++ (b ∷ rest)))) ptr a ≡ some (pre ++ (b ∷ (mid ++ (a ∷ rest))))
    far_write =
        rw (same, ← append_assoc pre (b ∷ mid) (b ∷ rest))
          (store-append (pre ++ (b ∷ mid)) b a rest
            ∙ ap some (append_assoc pre (b ∷ mid) (a ∷ rest)))

invert_step :
    (f : ℕ) (pre mid rest : List ℕ) (a b ptr : ℕ)
    → ptr ≡ length (pre ++ (a ∷ mid))
    → invert (suc f) (length pre) ptr (pre ++ (a ∷ (mid ++ (b ∷ rest))))
      ≡ invert f (length pre + 1) (ptr - 1) (pre ++ (b ∷ (mid ++ (a ∷ rest))))
unfolding invert
invert_step f pre mid rest a b ptr e =
    ground (arith, swap-append pre mid rest a b ptr e, length-append pre (a ∷ mid))

reverse-ends :
    (mid : List ℕ) (a b : ℕ) → reverse (a ∷ (mid ++ (b ∷ []))) ≡ b ∷ (reverse mid ++ (a ∷ []))
reverse-ends mid a b =
    reverse-append (a ∷ []) (mid ++ (b ∷ []))
    ∙ ap (λ t. t ++ (a ∷ [])) (reverse-append mid (b ∷ []))

invert-ends :
    (f : ℕ) (pre mid rest : List ℕ) (a b ptr : ℕ)
    → ptr ≡ length (pre ++ (a ∷ mid))
    → let pre' = pre ++ (b ∷ []) in
      invert f (length pre') (ptr - 1) (pre' ++ (mid ++ (a ∷ rest)))
        ≡ some (pre' ++ (reverse mid ++ (a ∷ rest)))
      → invert (suc f) (length pre) ptr (pre ++ ((a ∷ (mid ++ (b ∷ []))) ++ rest))
        ≡ some (pre ++ (reverse (a ∷ (mid ++ (b ∷ []))) ++ rest))
invert-ends f pre mid rest a b ptr e ih =
    rw
      (
        append_assoc mid (b ∷ []) rest,
        invert_step f pre mid rest a b ptr e,
        reverse-ends mid a b,
        append_assoc (reverse mid) (a ∷ []) rest,
        ← append_assoc pre (b ∷ []) (mid ++ (a ∷ rest)),
        ← append_assoc pre (b ∷ []) (reverse mid ++ (a ∷ rest)),
        ← length-append pre (b ∷ []),
      )
      ih

-- With `ptr` at the last byte of a segment behind `pre`, the segment comes out reversed and the
-- bytes round it as they were.
pub invert-append :
    (f : ℕ) (pre seg rest : List ℕ) (ptr : ℕ)
    → length seg < f
    → ptr + 1 ≡ length pre + length seg
    → invert f (length pre) ptr (pre ++ (seg ++ rest)) ≡ some (pre ++ (reverse seg ++ rest))
unfolding invert
invert-append zero pre seg rest ptr h e = absurd (omega arith)
invert-append (suc f) pre [] rest ptr h e = ground arith
invert-append (suc f) pre (a ∷ []) rest ptr h e = ground arith
invert-append (suc f) pre (a ∷ c ∷ s) rest ptr h e =
    let (mid, b, split) = last_of c s in
    let same = ap length split ∙ length-append mid (b ∷ []) in
    subst
      (λ t.
        invert (suc f) (length pre) ptr (pre ++ ((a ∷ t) ++ rest))
        ≡ some (pre ++ (reverse (a ∷ t) ++ rest)))
      (sym split)
      (invert-ends f pre mid rest a b ptr (omega (arith, length-append pre (a ∷ mid), same)) (
        invert-append f (pre ++ (b ∷ [])) mid (a ∷ rest) (ptr - 1) (omega (arith, same))
          (omega (arith, length-append pre (b ∷ []), same))))
