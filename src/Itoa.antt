-- ===== src/Itoa.antt =====
-- libkern/stdlib.c: `itoa`. The buffer `str` is a list of bytes, a pointer into it an index, and
-- `none` an access outside the buffer or the digit table.
pub mod Numeral
pub mod Emit
pub mod Invert
pub mod Laws
pub mod RoundTrip
pub mod Store
mod Tests
use brunix.Prelude.{
  ℕ, zero, suc, ◌+◌, ◌-◌, ◌==◌, ltb, leb, if◌then◌else◌, ◌&&◌, ◌||◌, Bool, Option, none, some,
  ◌>>=◌,
}
use brunix.Prelude.{
  List, [], ◌∷◌, length, get_elem?, set, ℤ, pos, negsuc, pos_part, nat_abs, ltb_ℤ, tdiv, tmod,
  codes,
}

abbrev pub digit_table : List ℕ
digit_table = codes "zyxwvutsrqponmlkjihgfedcba9876543210123456789abcdefghijklmnopqrstuvwxyz"

-- `digit_table[35 + rem]`
unfoldable pub symbol : ℤ → Option ℕ
symbol (pos r) = get_elem? digit_table (35 + r)
symbol (negsuc r) = if ltb r 35 then get_elem? digit_table (35 - suc r) else none

-- `buf[i] = c`
unfoldable pub store : List ℕ → ℕ → ℕ → Option (List ℕ)
store buf i c = if ltb i (length buf) then some (set buf i c) else none

-- The `do ... while (value)` loop, on fuel: the place behind the last digit, and the buffer.
unfoldable pub emit : ℕ → ℤ → ℕ → ℕ → List ℕ → Option (ℕ × List ℕ)
emit zero value base ptr buf = none
emit (suc fuel) value base ptr buf = symbol (tmod value base) >>= λ c. store buf ptr c >>= λ buf'.
    let value' = tdiv value base in
    let rest = emit fuel value' base (ptr + 1) buf' in
    if nat_abs value' == 0 then some (ptr + 1, buf') else rest

-- One exchange of `*low` and `*ptr`.
unfoldable pub swap : List ℕ → ℕ → ℕ → Option (List ℕ)
swap buf low ptr = get_elem? buf low >>= λ tmp.
    get_elem? buf ptr >>= λ c. store buf low c >>= λ buf'. store buf' ptr tmp

-- The `while (low < ptr)` loop, on fuel.
unfoldable pub invert : ℕ → ℕ → ℕ → List ℕ → Option (List ℕ)
invert zero low ptr buf = none
invert (suc fuel) low ptr buf =
    let rest = swap buf low ptr >>= invert fuel (low + 1) (ptr - 1) in
    if ltb low ptr then rest else some buf

-- The '-' of negative decimals: where the digits start, and the buffer.
unfoldable pub sign : ℤ → ℕ → List ℕ → Option (ℕ × List ℕ)
sign value base buf =
    if ltb_ℤ value (pos 0) && base == 10
    then (store buf 0 b'-' >>= λ buf'. some (1, buf'))
    else some (0, buf)

unfoldable pub convert : ℤ → List ℕ → ℕ → Option (List ℕ)
convert value str base = sign value base str >>= λ (low, buf).
    emit (suc (nat_abs value)) value base low buf >>= λ (ptr, buf).
    store buf ptr 0 >>= invert (suc ptr) low (ptr - 1)

unfoldable pub itoa : ℤ → List ℕ → ℤ → Option (List ℕ)
itoa value str base =
    if ltb_ℤ base (pos 2) || ltb_ℤ (pos 36) base
    then store str 0 0
    else convert value str (pos_part base)
