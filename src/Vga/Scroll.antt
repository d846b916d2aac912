-- ===== src/Vga/Scroll.antt =====
-- What the copying loops of the screen do, cell by cell.
use brunix.Prelude.{ℕ, ◌+◌, ◌*◌, ◌≤◌, ◌<◌, ◌≡◌, arith, ltb, leb, ◌&&◌, if◌then◌else◌, for_up_inv}
use brunix.Vga.{Console, poke, blank, copy_up, fill, scroll}

-- The first loop moves each of the 24 upper rows' cells one row up, in place.
pub copy_up-cell :
    (cells : ℕ → ℕ) (j : ℕ) → copy_up cells j ≡ (if ltb j 1920 then cells (j + 80) else cells j)
unfolding copy_up
copy_up-cell cells =
    for_up_inv (λ k t. (j : ℕ) → t j ≡ (if ltb j k then cells (j + 80) else cells j))
      (λ i m. poke i (m (i + 80)) m) (24 * 80) 0 1920 cells
      (λ k t low high h j. ground (arith, h j, h (k + 80))) (omega arith) (λ j. ground arith)

-- The other loops write blanks to a range.
pub fill-cell :
    (from count : ℕ) (cells : ℕ → ℕ) (j : ℕ)
    → fill from count cells j ≡ (if leb from j && ltb j (from + count) then blank else cells j)
unfolding fill
fill-cell from count cells =
    for_up_inv (λ k t. (j : ℕ) → t j ≡ (if leb from j && ltb j k then blank else cells j))
      (λ i m. poke i blank m) count from (from + count) cells
      (λ k t low high h j. ground (arith, h j)) (omega arith) (λ j. ground arith)

-- Each cell of a screen that has been scrolled.
pub scroll-cell :
    (s : Console) (j : ℕ)
    → 25 ≤ s.cursor_y
    → (scroll s).cells j
      ≡ (if ltb j 1920 then s.cells (j + 80) else if ltb j 2000 then blank else s.cells j)
unfolding scroll
scroll-cell s j h = ground (arith, copy_up-cell s.cells j, fill-cell 1920 80 (copy_up s.cells) j)

pub scroll_same : (s : Console) → s.cursor_y < 25 → scroll s ≡ s
unfolding scroll
scroll_same s h = ground arith
