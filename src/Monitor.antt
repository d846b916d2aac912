-- ===== src/Monitor.antt =====
-- printk.c and include/asm/asm.h: the older `printk`, which writes through a monitor, and its panics.
-- The monitor, `itoa` and `strlen` are declared in headers that the repository does not have.
pub mod Plain
pub mod Depth
pub mod Pad
pub mod Render
pub mod Text
pub mod Prints
pub mod Panic
mod Tests
use brunix.Prelude.{
  ℕ, zero, suc, ◌+◌, ◌-◌, ◌^◌, ◌≤◌, ◌<◌, ◌≡◌, u32, ltb, leb, ◌==◌, ◌&&◌, ◌||◌, Bool, true, false,
  if◌then◌else◌,
}
use brunix.Prelude.{
  Option, none, some, ◌>>=◌, List, [], ◌∷◌, get_elem?, length, codes, c_string, ◌++◌,
}
use brunix.Itoa.{store}
use brunix.Itoa.Numeral.{numeral}
use brunix.Printk.{Arg, next_arg}

-- What the file calls: `monitor_put`, `monitor_write`, `itoa(buf, value, base)` as what it leaves in
-- the buffer, and `strlen`; and the bytes that the stack holds where a call's `buf` stands.
pub record Library (S : Type 0) : Type 0 where
  pub monitor_put : ℕ → S → S
  pub monitor_write : List ℕ → S → S
  pub itoa : List ℕ → ℕ → ℕ → List ℕ
  pub strlen : List ℕ → ℕ
  pub stack : List ℕ

-- A pointer to bytes; nothing prints its address.
abbrev pub pointer_to : List ℕ → Arg
pointer_to str = record { word = 0; target = some str }

-- The place in the body of the loop at which the next character of the format is read.
pub data Place : Type 0 where
  plain : Place
  percent : Place
  sized : ℕ → Place

-- One character read: the loop goes on at a place, or `printk` returns.
pub data Turn (S : Type 0) : Type 0 where
  next : Place → List Arg → List ℕ → S → Turn S
  returned : S → Turn S

-- The byte that `buf[i]` gets, where `j` is one more than the variable of that name, and 0 where that
-- is negative.
unfoldable pub pad_byte : ℕ → List ℕ → Option ℕ
pad_byte zero buf = some b'0'
pad_byte (suc j) buf = get_elem? buf j

-- `for (; i >= 0; --i, --j) buf[i] = (j >= 0) ? buf[j] : '0';`
unfoldable pub pad : ℕ → ℕ → List ℕ → Option (List ℕ)
unfolding pad_byte
pad zero j buf = pad_byte j buf >>= store buf 0
pad (suc i) j buf = pad_byte j buf >>= λ c. store buf (suc i) c >>= pad i (j - 1)

module _ {S : Type 0} (lib : Library S) where
  -- The padding of what `itoa` has left, behind the test of its length.
  unfoldable pub pad_to : ℕ → List ℕ → Option (List ℕ)
  pad_to size buf =
      if ltb (lib.strlen buf) size then pad size (suc (lib.strlen buf)) buf else some buf

  -- The calls that `printk` makes of itself: a format, arguments and the state.
  abbrev pub Nested : Type 0
  Nested = List ℕ → List Arg → S → Option S

  -- The branch 'd'. `0 - ival` overflows for the least `int`, which C leaves undefined.
  unfoldable pub decimal : Nested → ℕ → ℕ → List Arg → List ℕ → S → Option (Turn S)
  unfolding pad_to
  decimal nested size w rest buf s =
      let neg = leb (2 ^ 31) w in
      if w == 2 ^ 31
      then none
      else (let buf = lib.itoa buf (if neg then 2 ^ 32 - w else w) 10 in
          let s = lib.monitor_write buf s in
          pad_to size buf >>= λ buf.
          (if neg then nested (codes "-%s") (pointer_to buf ∷ []) s else nested buf [] s) >>= λ s.
          some (next plain rest buf s))

  -- The branches 'u', 'x' and 'p'.
  unfoldable pub unsigned : Nested → ℕ → ℕ → ℕ → List Arg → List ℕ → S → Option (Turn S)
  unfolding pad_to
  unsigned nested base size w rest buf s = pad_to size (lib.itoa buf w base) >>= λ buf.
      (if base == 10 then nested buf [] s else nested (codes "0x%s") (pointer_to buf ∷ []) s)
      >>= λ s. some (next plain rest buf s)

  -- The branches on the character of a conversion; any other is skipped.
  unfoldable pub directive : Nested → ℕ → ℕ → List Arg → List ℕ → S → Option (Turn S)
  unfolding next_arg
  directive nested size c args buf s =
      if c == b'd'
      then (next_arg args >>= λ (a, rest). decimal nested size (u32 a.word) rest buf s)
      else if c == b'u'
      then (next_arg args >>= λ (a, rest). unsigned nested 10 size (u32 a.word) rest buf s)
      else if c == b'x' || c == b'X'
      then (next_arg args >>= λ (a, rest). unsigned nested 16 size (u32 a.word) rest buf s)
      else if c == b'p'
      then (next_arg args >>= λ (a, rest). unsigned nested 16 8 (u32 a.word) rest buf s)
      else if c == b's'
      then (next_arg args >>= λ (a, rest).
          a.target >>= λ str. nested str [] s >>= λ s. some (next plain rest buf s))
      else if c == b'c'
      then (next_arg args >>= λ (a, rest). some (next plain rest buf (lib.monitor_put a.word s)))
      else some (next plain args buf s)

  unfoldable pub turn : Nested → Place → ℕ → List Arg → List ℕ → S → Option (Turn S)
  turn nested plain c args buf s =
      if c == 0
      then some (returned s)
      else if c == b'%'
      then some (next percent args buf s)
      else some (next plain args buf (lib.monitor_put c s))
  turn nested percent c args buf s =
      if leb b'0' c && leb c b'9'
      then some (next (sized (c - b'0')) args buf s)
      else directive nested 0 c args buf s
  turn nested (sized size) c args buf s = directive nested size c args buf s

  -- The loop. The format ends with a NUL; behind a '%' that is read as a conversion, and the loop goes
  -- on behind the end of the format.
  unfoldable pub loop : Nested → Place → List ℕ → List Arg → List ℕ → S → Option S
  loop nested p [] args buf s = elim p [ plain ↦ some s | percent ↦ none | sized n ↦ none ]
  loop nested p (c ∷ fmt) args buf s = turn nested p c args buf s >>= λ t. elim t [
    | returned s ↦ some s
    | next p args buf s ↦ loop nested p fmt args buf s
  ]

  -- `printk`, with a bound on the depth of its calls of itself.
  unfoldable pub printk : ℕ → List ℕ → List Arg → S → Option S
  printk zero fmt args s = none
  printk (suc depth) fmt args s = loop (printk depth) plain fmt args lib.stack s

  -- `halt`, up to the instruction.
  unfoldable pub halt : S → Option S
  unfolding printk
  halt s = printk 3 (codes "System halted.\n") [] s

  unfoldable pub panic : List ℕ → ℕ → List ℕ → S → Option S
  unfolding halt
  panic file line msg s =
      printk 3 (codes "PANIC: %s:%d : %s\n")
        (pointer_to file ∷ record { word = line; target = none } ∷ pointer_to msg ∷ []) s
      >>= halt

  unfoldable pub panic_assert : List ℕ → ℕ → List ℕ → S → Option S
  unfolding halt
  panic_assert file line msg s =
      printk 3 (codes "ASSERTION-FAILED: %s:%d : %s\n")
        (pointer_to file ∷ record { word = line; target = none } ∷ pointer_to msg ∷ []) s
      >>= halt
