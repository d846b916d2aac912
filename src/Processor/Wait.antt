-- ===== src/Processor/Wait.antt =====
-- The busy wait ends.
use brunix.Prelude.{
  ℕ, zero, suc, ◌+◌, ◌-◌, ◌%◌, ◌^◌, ◌≤◌, ◌<◌, ◌≡◌, refl, true, ◌∙◌, arith, ltb, Bool-cases, inl,
  inr, some,
}
use brunix.Processor.{Counter, wait_while, wait_some_time}

-- The counter moves on between two readings, by less than 2 ^ 63 cycles.
abbrev pub Advances : Counter → Type 0
Advances counter = (k : ℕ) → (counter k < counter (suc k)) × (counter (suc k) < counter k + 2 ^ 63)

-- What has passed since an earlier reading, computed on the readings.
elapsed : (a b : ℕ) → a ≤ b → b < a + 2 ^ 64 → (b % 2 ^ 64 + (2 ^ 64 - a % 2 ^ 64)) % 2 ^ 64 ≡ b - a
elapsed a b low high = omega arith

wait_while_more :
    (fuel : ℕ) (counter : Counter) (a k : ℕ)
    → a ≤ counter k
    → counter k < a + 2 ^ 64
    → ltb (counter k - a) 1000000 ≡ true
    → wait_while (suc fuel) counter (a % 2 ^ 64) k ≡ wait_while fuel counter (a % 2 ^ 64) (suc k)
unfolding wait_while
wait_while_more fuel counter a k low high soon = rw (elapsed a (counter k) low high, soon) refl

wait_while_ends :
    (fuel : ℕ) (counter : Counter) (a k : ℕ)
    → Advances counter
    → a ≤ counter k
    → counter k < a + 1000000 + 2 ^ 63
    → 0 < fuel
    → 1000000 < counter k - a + fuel
    → (last : ℕ) × (wait_while fuel counter (a % 2 ^ 64) k ≡ some (suc last))
      × (k ≤ last)
      × (a + 1000000 ≤ counter last)
unfolding wait_while
wait_while_ends zero counter a k moves low high pos enough = absurd (omega arith)
wait_while_ends (suc fuel) counter a k moves low high pos enough =
    let passed = elapsed a (counter k) low (omega arith) in
    elim (Bool-cases (ltb (counter k - a) 1000000)) [
      | inr over ↦ (k, rw (passed, over) refl, omega arith, ground (arith, over))
      | inl soon ↦
          let early : counter k - a < 1000000 = ground arith in
          let (on, near) = moves k in
          let (last, e, later, done) =
            wait_while_ends fuel counter a (suc k) moves (omega arith) (omega arith) (omega arith)
              (omega arith) in
          (last, wait_while_more fuel counter a k low (omega arith) soon ∙ e, omega arith, done)
    ]

-- With a counter that moves on between two readings, by less than 2 ^ 63 cycles, the busy wait of
-- `timer_init` ends: a million rounds and one are enough, whatever the counter stands at and though
-- it is read modulo 2 ^ 64, and a million cycles have passed by then.
pub wait_some_time_ends :
    (fuel : ℕ) (counter : Counter) (k : ℕ)
    → Advances counter
    → 1000000 < fuel
    → (last : ℕ) × (wait_some_time fuel counter k ≡ some (suc last))
      × (k < last)
      × (counter k + 1000000 ≤ counter last)
unfolding wait_some_time
wait_some_time_ends fuel counter k moves enough =
    let (on, near) = moves k in
    let (last, e, later, done) =
      wait_while_ends fuel counter (counter k) (suc k) moves (omega arith) (omega arith)
        (omega arith) (omega arith) in
    (last, e, omega arith, done)
