-- ===== src/Vga/Terminal/Refine.antt =====
-- `vga_putc` does on the screen what typing a byte does on the terminal.
use native.Mathlib.Decide.{ℕ_discrete, dec_lt}
use brunix.Prelude.{ℕ, ◌+◌, ◌-◌, ◌*◌, ◌/◌, ◌≤◌, ◌<◌, ◌≡◌, ◌≢◌, refl, arith, u8, bit_or_low}
use brunix.Vga.{Console, poke, move_cursor, place, wrap, putc}
use brunix.Vga.Cursor.{IsOnScreen, tab_stop}
use brunix.Vga.Terminal.{
  Terminal, to_column, write, type, colour_of, Shows, attribute-eq, settle, settle-Shows-column,
  scroll-Shows-feed, write-Shows,
}

-- The branches of `place`, with the arithmetic of bytes done.
module _ (s : Console) (on : IsOnScreen s) where
  place-backspace : place 8 s ≡ record s { cursor_x = s.cursor_x - 1 }
  unfolding place
  place-backspace = ground (arith, on)

  place-tab : place 9 s ≡ record s { cursor_x = s.cursor_x / 8 * 8 + 8 }
  unfolding place
  place-tab = ground (arith, on, tab_stop s.cursor_x)

  pub place-printable :
      (c : ℕ)
      → 32 ≤ c
      → c < 256
      → place c s ≡ record s {
        cells = poke (s.cursor_y * 80 + s.cursor_x) (colour_of s * 256 + c) s.cells;
        cursor_x = s.cursor_x + 1;
      }
  unfolding place
  place-printable c lo hi = ground (arith, on, attribute-eq s, bit_or_low 8 c (colour_of s) hi)

  place-control :
      (c : ℕ)
      → c < 32
      → c ≢ 8
      → c ≢ 9
      → c ≢ 10
      → c ≢ 13
      → place c s ≡ record s { cursor_x = s.cursor_x }
  unfolding place
  place-control c small n8 n9 n10 n13 = ground arith

  place-line : place 10 s ≡ record s { cursor_x = 0; cursor_y = s.cursor_y + 1 }
  unfolding place
  place-line = ground (arith, on)

  wrap-line :
      wrap (record s { cursor_x = 0; cursor_y = s.cursor_y + 1 })
      ≡ record s { cursor_x = 0; cursor_y = s.cursor_y + 1 }
  unfolding wrap
  wrap-line = ground arith

module _ (s : Console) (t : Terminal) (h : Shows s t) where
  abbrev Typed : ℕ → Type 0
  Typed c = Shows (settle (place c s)) (type (colour_of s) c t)

  type-backspace : to_column (s.cursor_x - 1) t ≡ type (colour_of s) 8 t
  unfolding type to_column
  type-backspace = ground (arith, h.on, h.col)

  type-tab : to_column (s.cursor_x / 8 * 8 + 8) t ≡ type (colour_of s) 9 t
  unfolding type
  type-tab = rw h.col refl

  type-return : to_column 0 t ≡ type (colour_of s) 13 t
  unfolding type to_column
  type-return = refl

  type-printable :
      (c : ℕ)
      → 32 ≤ c
      → to_column (s.cursor_x + 1) (write (colour_of s * 256 + c) t) ≡ type (colour_of s) c t
  unfolding type
  type-printable c lo = rw h.col (ground arith)

  type-control :
      (c : ℕ)
      → c < 32
      → c ≢ 8
      → c ≢ 9
      → c ≢ 10
      → c ≢ 13
      → to_column s.cursor_x t ≡ type (colour_of s) c t
  unfolding type to_column
  type-control c small n8 n9 n10 n13 = ground (arith, h.on, h.col)

  Typed-backspace : Typed 8
  Typed-backspace =
      rw (place-backspace s h.on, ← type-backspace)
        (settle-Shows-column s t h (s.cursor_x - 1) (omega (arith, h.on)))

  Typed-tab : Typed 9
  Typed-tab =
      rw (place-tab s h.on, ← type-tab)
        (settle-Shows-column s t h (s.cursor_x / 8 * 8 + 8) (omega (arith, h.on)))

  Typed-return : Typed 13
  unfolding place
  Typed-return = rw (← type-return) (settle-Shows-column s t h 0 (omega arith))

  Typed-line : Typed 10
  unfolding type
  Typed-line = rw (place-line s h.on, wrap-line s h.on) (scroll-Shows-feed s t h)

  Typed-control : (c : ℕ) → c < 32 → c ≢ 8 → c ≢ 9 → c ≢ 10 → c ≢ 13 → Typed c
  Typed-control c small n8 n9 n10 n13 =
      rw (place-control s h.on c small n8 n9 n10 n13, ← type-control c small n8 n9 n10 n13)
        (settle-Shows-column s t h s.cursor_x (omega (arith, h.on)))

  Typed-printable : (c : ℕ) → 32 ≤ c → c < 256 → Typed c
  Typed-printable c lo hi =
      rw (place-printable s h.on c lo hi, ← type-printable c lo)
        (settle-Shows-column
          (record s { cells = poke (s.cursor_y * 80 + s.cursor_x) (colour_of s * 256 + c) s.cells })
          (write (colour_of s * 256 + c) t) (write-Shows s t h (colour_of s * 256 + c))
          (s.cursor_x + 1) (omega (arith, h.on)))

  Typed-all : (c : ℕ) → c < 256 → Typed c
  Typed-all c hi = elim (dec_lt c 32) [
    | no big ↦ Typed-printable c (omega arith) hi
    | yes small ↦ elim (ℕ_discrete c 8) [
      | yes e ↦ rw e Typed-backspace
      | no n8 ↦ elim (ℕ_discrete c 9) [
        | yes e ↦ rw e Typed-tab
        | no n9 ↦ elim (ℕ_discrete c 10) [
          | yes e ↦ rw e Typed-line
          | no n10 ↦ elim (ℕ_discrete c 13) [
            | yes e ↦ rw e Typed-return
            | no n13 ↦ Typed-control c small n8 n9 n10 n13
          ]
        ]
      ]
    ]
  ]

  -- `vga_putc` shows what the terminal shows after the byte is typed in the current colours.
  pub putc_refines : (c : ℕ) → Shows (putc c s) (type (colour_of s) (u8 c) t)
  unfolding putc move_cursor
  putc_refines c =
      let r = Typed-all (u8 c) (omega arith) in
      record {
        on = record { column = r.on.column; row = r.on.row };
        col = r.col;
        row = r.row;
        cell = r.cell;
      }
