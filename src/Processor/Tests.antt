-- ===== src/Processor/Tests.antt =====
-- A counter of 500,000 cycles between two readings.
use brunix.Prelude.{ℕ, suc, ◌+◌, ◌-◌, ◌*◌, ◌^◌, ◌≤◌, ◌<◌, ◌≡◌, refl, arith, some}
use brunix.Processor.{Counter, rdtsc, wait_while, wait_some_time}
use brunix.Processor.Wait.{Advances, wait_some_time_ends}

abbrev steady : Counter
steady k = 2 ^ 64 - 200000 + k * 500000

steady-Advances : Advances steady
steady-Advances k = omega arith

-- Across the wrap-around of the counter: readings 0 to 2.
three_readings : wait_some_time 5 steady 0 ≡ some 3
unfolding wait_some_time wait_while rdtsc
three_readings = refl

wait_some_time_ends_example :
    (last : ℕ) × (wait_some_time 1000001 steady 0 ≡ some (suc last))
    × (0 < last)
    × (steady 0 + 1000000 ≤ steady last)
wait_some_time_ends_example = wait_some_time_ends 1000001 steady 0 steady-Advances (omega arith)
