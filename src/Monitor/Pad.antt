-- ===== src/Monitor/Pad.antt =====
-- printk.c: the loop that pads the buffer, and the text that it leaves.
use brunix.Prelude.{
  ℕ, zero, suc, ◌+◌, ◌-◌, ◌≤◌, ◌<◌, ◌≡◌, ap, ◌∙◌, arith, ltb, if◌then◌else◌, Option, some, ◌>>=◌,
}
use brunix.Prelude.{
  List, ◌∷◌, ◌++◌, length, get_elem?, set, replicate, drop, length-set, length-append,
  length-replicate, get_elem?-set, get_elem?-append_lem, get_elem?-replicate, get_elem?-inside,
  list_ext, get_elem?-cons, get_elem?-drop,
}
use brunix.Itoa.Store.{store-inside}
use brunix.Monitor.{pad_byte, pad}

abbrev padded : ℕ → ℕ → List ℕ → ℕ → Option ℕ
padded i j buf k =
    if ltb i k
    then get_elem? buf k
    else if ltb i (j + k)
    then get_elem? buf (j + k - i - 1)
    else some b'0'

-- The loop moves the first `j` bytes to the end of the first `i + 1`, and fills up with '0'.
pad_moves :
    (i j : ℕ) (buf : List ℕ)
    → j ≤ i
    → i < length buf
    → (out : List ℕ) × (pad i j buf ≡ some out)
      × (length out ≡ length buf)
      × ((k : ℕ) → get_elem? out k ≡ padded i j buf k)
unfolding pad pad_byte
pad_moves zero zero buf h inside = (
  set buf 0 b'0',
  store-inside buf 0 b'0' inside,
  length-set buf 0 b'0',
  λ k. ground (arith, get_elem?-set buf 0 k b'0' inside),
)
pad_moves zero (suc j) buf h inside = absurd (omega arith)
pad_moves (suc i) zero buf h inside =
    let b1 = set buf (suc i) b'0' in
    let len = length-set buf (suc i) b'0' in
    let (out, e, l, g) = pad_moves i 0 b1 (omega arith) (omega (arith, len)) in
    (
      out,
      ap (λ o. o >>= pad i (0 - 1)) (store-inside buf (suc i) b'0' inside) ∙ e,
      l ∙ len,
      λ k. ground (arith, g k, get_elem?-set buf (suc i) k b'0' inside),
    )
pad_moves (suc i) (suc j) buf h inside =
    let (c, at) = get_elem?-inside buf j (omega arith) in
    let b1 = set buf (suc i) c in
    let len = length-set buf (suc i) c in
    let (out, e, l, g) = pad_moves i j b1 (omega arith) (omega (arith, len)) in
    let less : suc j - 1 ≡ j = omega arith in
    (
      out,
      rw at (ap (λ o. o >>= pad i (suc j - 1)) (store-inside buf (suc i) c inside) ∙ rw less e),
      l ∙ len,
      λ k. ground (
        arith,
        g k,
        at,
        get_elem?-set buf (suc i) k c inside,
        get_elem?-set buf (suc i) (j + k - i - 1) c inside,
      ),
    )

-- A text of fewer than `size` bytes in front of its NUL is shifted behind as many '0' as it lacks.
pub pad-text :
    (size : ℕ) (t rest : List ℕ)
    → length t < size
    → size ≤ length t + length rest
    → pad size (suc (length t)) (t ++ (0 ∷ rest))
      ≡ some (replicate (size - length t) b'0' ++ (t ++ (0 ∷ drop (size - length t) rest)))
pad-text size t rest short room =
    let buf = t ++ (0 ∷ rest) in
    let m = size - length t in
    let (out, e, l, g) =
      pad_moves size (suc (length t)) buf (omega arith)
        (omega (arith, length-append t (0 ∷ rest))) in
    e
    ∙ ap some (
        list_ext out (replicate m b'0' ++ (t ++ (0 ∷ drop m rest))) (λ k.
          g k
          ∙ ground (
            arith,
            get_elem?-append_lem t (0 ∷ rest) k,
            get_elem?-append_lem t (0 ∷ rest) (suc (length t) + k - size - 1),
            get_elem?-append_lem (replicate m b'0') (t ++ (0 ∷ drop m rest)) k,
            get_elem?-replicate m b'0' k,
            length-replicate {A = ℕ} m b'0',
            get_elem?-append_lem t (0 ∷ drop m rest) (k - m),
            get_elem?-cons 0 rest (k - length t),
            get_elem?-cons 0 rest (suc (length t) + k - size - 1 - length t),
            get_elem?-cons 0 (drop m rest) (k - m - length t),
            get_elem?-drop m rest (k - m - length t - 1),
          )))
