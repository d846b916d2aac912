-- ===== src/Processor.antt =====
-- arch/x86/include/asm/processor.h: the time stamp counter and the two bit scans, and the busy wait of
-- kernel/timer.c. The instructions `rdtsc`, `bsr` and `bsf` are parameters.
pub mod Wait
pub mod Scan
mod Tests
use brunix.Prelude.{
  ℕ, zero, suc, ◌+◌, ◌-◌, ◌*◌, ◌%◌, ◌^◌, ltb, ◌==◌, if◌then◌else◌, Option, some, none,
}

-- What the counter stands at when it is read for the k-th time, if it were not cut to 64 bits.
abbrev pub Counter : Type 0
Counter = ℕ → ℕ

-- `rdtsc()`: the reading, and the number of the next one.
unfoldable pub rdtsc : Counter → ℕ → ℕ × ℕ
rdtsc counter k = (counter k % 2 ^ 64, suc k)

-- `while (rdtsc() - start < 1000000);`, on fuel: the number of the next reading.
unfoldable pub wait_while : ℕ → Counter → ℕ → ℕ → Option ℕ
unfolding rdtsc
wait_while zero counter start k = none
wait_while (suc fuel) counter start k =
    let (now, k') = rdtsc counter k in
    let rest = wait_while fuel counter start k' in
    if ltb ((now + (2 ^ 64 - start)) % 2 ^ 64) 1000000 then rest else some k'

-- `WAIT_SOME_TIME()`
unfoldable pub wait_some_time : ℕ → Counter → ℕ → Option ℕ
unfolding rdtsc
wait_some_time fuel counter k =
    let (start, k') = rdtsc counter k in wait_while fuel counter start k'

-- `msb(i)`; `bsr` is the instruction, for an operand that is not 0. A `size_t` has 4 bytes.
unfoldable pub msb : (ℕ → ℕ) → ℕ → ℕ
msb bsr i = if i == 0 then 4 * 8 else bsr i

-- `lsb(i)`
unfoldable pub lsb : (ℕ → ℕ) → ℕ → ℕ
lsb bsf i = if i == 0 then 4 * 8 else bsf i
