-- ===== src/Timer/Divisor.antt =====
-- The interval timer's counter 0 after it has been programmed, replayed from the ports.
use native.Mathlib.Nat.{div-lt_iff_lt-mul, le-div_iff_mul-le}
use native.Mathlib.Decide.{dec_lt}
use brunix.Prelude.{
  ℕ, ◌+◌, ◌*◌, ◌/◌, ◌%◌, ◌^◌, ◌≤◌, ◌<◌, ◌≡◌, ◌↔◌, refl, arith, bit_and_mask, ◌==◌, ◌&&◌, leb, Bool,
  true, false, if◌then◌else◌, [], ◌∷◌,
}
use brunix.Io.{sent, read, Trace}
use brunix.Timer.{program}

-- The 8253's counter 0. A command at port 0x43 names a counter in its two high bits, in bits 4 and 5
-- how it is accessed (0 latches the count and sets nothing, 1 is for the low byte, 2 for the high
-- byte, 3 for the low and then the high byte), in bits 1 to 3 the mode, where 3 and 7 are the square
-- wave, and in bit 0 whether it counts in decimal digits; the bytes follow at port 0x40. Bits
-- 6 and 7 of the read-back command are 3, which is no counter.
pub record Pit : Type 0 where
  pub access : ℕ
  pub decimal : Bool
  pub square_wave : Bool
  pub high_next : Bool
  pub low : ℕ
  pub reload : ℕ

unfoldable pit_command : ℕ → Pit → Pit
pit_command v d =
    if v / 64 == 0 && leb 1 (v / 16 % 4)
    then record d {
      access = v / 16 % 4;
      decimal = v % 2 == 1;
      square_wave = v / 2 % 4 == 3;
      high_next = false;
    }
    else d

unfoldable pit_data : ℕ → Pit → Pit
pit_data v d =
    if d.access == 1
    then record d { reload = v }
    else if d.access == 2
    then record d { reload = v * 256 }
    else if d.access == 3
    then (if d.high_next
        then record d { reload = v * 256 + d.low; high_next = false }
        else record d { low = v; high_next = true })
    else d

unfoldable pub pit_write : ℕ → ℕ → Pit → Pit
unfolding pit_command pit_data
pit_write port v d =
    if port == 0x43 then pit_command v d else if port == 0x40 then pit_data v d else d

unfoldable pub pit : Trace → Pit
unfolding pit_write
pit [] = record {
  access = 0;
  decimal = false;
  square_wave = false;
  high_next = false;
  low = 0;
  reload = 0;
}
pit (sent port v ∷ t) = pit_write port v (pit t)
pit (read port v ∷ t) = pit t

small : (f : ℕ) → 19 ≤ f → 1193180 / f < 2 ^ 16
small f h = (div-lt_iff_lt-mul (omega arith)).1 (omega arith)

large : (f : ℕ) → 0 < f → f < 19 → 2 ^ 16 ≤ 1193180 / f
large f pos h = (le-div_iff_mul-le pos).1 (omega arith)

at_least : (f : ℕ) → 0 < f → 1193180 / f < 2 ^ 16 → 19 ≤ f
at_least f pos h = elim (dec_lt f 19) [
  | yes p ↦ absurd (omega (arith, large f pos p))
  | no p ↦ omega arith
]

-- For every frequency but 0, the writes of `timer_init` leave the counter accessed by both bytes and
-- expecting the low one, as a binary square wave with the divisor modulo 2 ^ 16 as its reload value, whatever was sent before; that is the divisor itself
-- exactly for the frequencies from 19 on.
pub program_lem :
    (frequency : ℕ) (t : Trace)
    → 0 < frequency
    → let divisor = 1193180 / frequency in
      let d = pit (program divisor t) in
      (d.access ≡ 3)
      × (d.decimal ≡ false)
      × (d.square_wave ≡ true)
      × (d.high_next ≡ false)
      × (d.reload ≡ divisor % 2 ^ 16)
      × ((d.reload ≡ divisor) ↔ (19 ≤ frequency))
unfolding program pit
program_lem frequency t h = (
  refl,
  refl,
  refl,
  refl,
  loaded,
  (
    (λ e. at_least frequency h (omega (arith, e, loaded))),
    (λ big. omega (arith, loaded, small frequency big)),
  ),
)
  where
    loaded : (pit (program (1193180 / frequency) t)).reload ≡ 1193180 / frequency % 2 ^ 16
    loaded =
        omega (
          arith,
          bit_and_mask 8 (1193180 / frequency),
          bit_and_mask 8 (1193180 / frequency / 2 ^ 8),
        )
