-- ===== src/Paging/Bitmap.antt =====
-- The array of the bitmap is smaller than the range that is written.
use brunix.Prelude.{
  ℕ, zero, suc, ◌+◌, ◌-◌, ◌/◌, ◌^◌, ◌<◌, ◌≡◌, refl, ap, ◌∙◌, arith, ltb, Option, some, none,
  Bool-cases, inl, inr, List, [], ◌∷◌, codes, length, length-set, length-replicate, replicate,
  for_up, for_up_inv,
}
use brunix.Itoa.{store}
use brunix.Vga.{Console}
use brunix.Printk.{printk}
use brunix.Kernel.{Kernel, Handler, fault, ◌|>◌, on_console, number}
use brunix.Paging.{
  Tables, paging_init, put, page, page_size, ram_maxpage, set_page_frame_used, init_bitmap,
}

-- An array of a size, if it still is one.
abbrev Sized : ℕ → Option (List ℕ) → Type 0
Sized n none = Unit {0}
Sized n (some b) = length b ≡ n

put-Sized : (n i v : ℕ) (b : Option (List ℕ)) → Sized n b → Sized n (put i v b)
unfolding store
put-Sized n i v none h = tt
put-Sized n i v (some b) h = elim (Bool-cases (ltb i (length b))) [
  | inl e ↦ rw e (length-set b i v ∙ h)
  | inr e ↦ rw e tt
]

put_outside : (n v : ℕ) (b : Option (List ℕ)) → Sized n b → put n v b ≡ none
unfolding store
put_outside n v none h = refl
put_outside n v (some b) h = ground arith

put_loop-none : (m i v : ℕ) → for_up m i (λ i b. put i v b) none ≡ none
unfolding for_up
put_loop-none zero i v = refl
put_loop-none (suc m) i v = put_loop-none m (i + 1) v

used_loop-none : (m i : ℕ) → for_up m i set_page_frame_used none ≡ none
unfolding for_up set_page_frame_used
used_loop-none zero i = refl
used_loop-none (suc m) i = used_loop-none m (i + 1)

-- The first round of a loop that starts at the end of the array leaves it.
loop_overflows :
    (m n v : ℕ) (b : Option (List ℕ)) → 0 < m → Sized n b → for_up m n (λ i b. put i v b) b ≡ none
unfolding for_up
loop_overflows zero n v b h s = absurd (omega arith)
loop_overflows (suc m) n v b h s = rw (put_outside n v b s) (put_loop-none m (n + 1) v)

zeroed-Sized : (n : ℕ) → Sized n (for_up n 0 (λ i b. put i 0 b) (some (replicate n 0)))
zeroed-Sized n =
    for_up_inv (λ _ b. Sized n b) (λ i b. put i 0 b) n 0 n (some (replicate n 0))
      (λ k b low high h. put-Sized n k 0 b h) (omega arith) (length-replicate n 0)

-- For every amount of memory that fits a `uint32_t`, the initialisation of the bitmap writes outside
-- its array.
pub init_bitmap_overflows : (mem : ℕ) → mem < 2 ^ 32 → init_bitmap mem ≡ none
unfolding init_bitmap
init_bitmap_overflows mem h =
    ap (λ b. for_up (page 0x800000 - page 0x0) (page 0x0) set_page_frame_used b)
      (loop_overflows (ram_maxpage / 8 - mem / page_size / 8) (mem / page_size / 8) 0xff _
        (omega arith) (zeroed-Sized (mem / page_size / 8)))
    ∙ used_loop-none 2048 0

-- For every amount of memory that fits a `uint32_t`, and from every state, `paging_init` does not
-- return: it writes behind the end of `mem_bitmap`, which C leaves undefined.
pub paging_init_overflows :
    (address : Handler → ℕ) (directory table mem : ℕ) (t : Tables) (k : Kernel)
    → mem < 2 ^ 32
    → (init_bitmap mem ≡ none) × ((paging_init address directory table mem t k).1 ≡ fault)
unfolding paging_init
paging_init_overflows address directory table mem t k h = (
  init_bitmap_overflows mem h,
  rw (init_bitmap_overflows mem h, paging_init)
      (no_return (printk (codes "Total frames: %d\n") (number (mem / 4096) ∷ []) k.con)),
)
  where
    no_return : (o : Option Console) → (on_console o k |> λ _. fault) ≡ fault
    no_return none = refl
    no_return (some c) = refl
