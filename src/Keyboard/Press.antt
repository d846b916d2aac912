-- ===== src/Keyboard/Press.antt =====
-- What a key does.
use native.Mathlib.Nat.{mod-eq_of_lt}
use brunix.Prelude.{
  same, same_sound, ℕ, zero, suc, ◌≤◌, ◌<◌, ◌≡◌, refl, ap, arith, bit_and, u8, ◌==◌, ltb, true,
  false, some, List, [], ◌∷◌, length, get_elem?, All, codes, true_below, true_below_sound,
}
use brunix.Io.{Devices, inb}
use brunix.Vga.{Console, putc}
use brunix.Printk.{printk, conversion}
use brunix.Kernel.{Kernel, Registers, running, number}
use brunix.Keyboard.{kbd_us, press}

-- The top bit of a byte, as the code tests it.
top_bit_table : true_below 256 (λ x. same (bit_and x 0x80 == 0) (ltb x 128)) ≡ true
unfolding true_below
top_bit_table = refl

top_bit : (x : ℕ) → x < 256 → (bit_and x 0x80 == 0) ≡ ltb x 128
top_bit x h =
    same_sound (bit_and x 0x80 == 0) (ltb x 128) (true_below_sound 256 _ x top_bit_table h)

released : (x : ℕ) → x < 256 → 128 ≤ x → (bit_and x 0x80 == 0) ≡ false
released x h big = rw (top_bit x h) (ground arith)

pressed : (x : ℕ) → x < 256 → x < 128 → (bit_and x 0x80 == 0) ≡ true
pressed x h small = rw (top_bit x h) (ground arith)

get_elem?-All :
    (xs : List ℕ) (i n : ℕ)
    → All (λ c. c < n) xs
    → i < length xs
    → (c : ℕ) × (get_elem? xs i ≡ some c) × (c < n)
get_elem?-All [] i n h k = absurd (omega arith)
get_elem?-All (x ∷ xs) zero n h k = (x, refl, h.0)
get_elem?-All (x ∷ xs) (suc i) n h k = get_elem?-All xs i n h.1 (omega arith)

key_of : (b : ℕ) → b < 128 → (c : ℕ) × (get_elem? kbd_us b ≡ some c) × (c < 256)
key_of b h = get_elem?-All kbd_us b 256 (omega arith) h

-- `printk("%c", c)` for a byte.
printk-char :
    (c : ℕ) (s : Console) → c < 256 → printk (codes "%c") (number c ∷ []) s ≡ some (putc c s)
unfolding printk conversion
printk-char c s h = ap (λ n. some (putc n s)) (mod-eq_of_lt (omega arith))

-- For a byte from 128 on, a released key, `kbd_callback` changes nothing but the trace of the ports.
pub press_released :
    (devices : Devices) (regs : Registers) (k : Kernel)
    → let (b, t) = inb devices 0x60 k.con.trace in
      128 ≤ b → press devices regs k ≡ running (record k { con = record k.con { trace = t } })
unfolding inb press
press_released devices regs k h = rw (released (u8 (devices k.con.trace 0x60)) (omega arith) h)

-- For a byte below 128, a pressed key, the table has an entry, and `kbd_callback` puts exactly that on
-- the screen.
pub press_pressed :
    (devices : Devices) (regs : Registers) (k : Kernel)
    → let (b, t) = inb devices 0x60 k.con.trace in
      b < 128
      → (c : ℕ) × (get_elem? kbd_us b ≡ some c)
        × (press devices regs k ≡ running (record k { con = putc c (record k.con { trace = t }) }))
unfolding inb press
press_pressed devices regs k h =
    let (c, e, small) = key_of (u8 (devices k.con.trace 0x60)) h in
    (c, e, rw (pressed (u8 (devices k.con.trace 0x60)) (omega arith) h, e, printk-char c _ small))
