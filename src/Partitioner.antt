-- ===== src/Partitioner.antt =====
-- include/async++/partitioner.h: ranges that can be split. An iterator is a position in the
-- sequence that is iterated over, so `std::distance` is a difference of `std::size_t`.
pub mod Interface
pub mod Static
pub mod Auto
mod Tests
use asyncplusplus.Prelude.{ℕ, ◌-◌, ◌*◌, ◌^◌, ◌/◌, ◌≤◌, ◌<◌, ◌≡◌, ltb, if◌then◌else◌, arith}
use native.Mathlib.Nat.{le_trans, div-mul-le_self}
use asyncplusplus.Word.{sub_size, mul_size}
use asyncplusplus.Hardware.{hardware_concurrency}

-- `std::distance` as the `std::size_t` that the code assigns it to.
abbrev pub distance : ℕ → ℕ → ℕ
distance first last = sub_size last first

-- A grain size for a sequence of length `dist`; `hw` is the platform's number of threads.
unfoldable pub auto_grain_size : ℕ → ℕ → ℕ
unfolding hardware_concurrency
auto_grain_size hw dist =
    let grain = dist / mul_size 8 (hardware_concurrency hw) in
    let at_least_one = (if ltb grain 1 then 1 else grain) in
    if ltb 2048 at_least_one then 2048 else at_least_one

-- The grain size lies between one and 2048.
pub auto_grain_size_bounds :
    (hw dist : ℕ) → (1 ≤ auto_grain_size hw dist) × (auto_grain_size hw dist ≤ 2048)
unfolding auto_grain_size
auto_grain_size_bounds hw dist = ground arith

-- On a platform with fewer than 2 ^ 60 threads, a range that is cut into grains of that size has at
-- least eight grains for each thread, unless the grain is the smallest.
pub auto_grain_size_share :
    (hw dist : ℕ)
    → hw < 2 ^ 60
    → 1 < auto_grain_size hw dist
    → auto_grain_size hw dist * (8 * hardware_concurrency hw) ≤ dist
unfolding auto_grain_size
auto_grain_size_share hw dist small big =
    let m = 8 * hardware_concurrency hw in le_trans (grind (arith, below)) (div-mul-le_self dist m)
  where
    exact : mul_size 8 (hardware_concurrency hw) ≡ 8 * hardware_concurrency hw
    exact = ground arith

    below : auto_grain_size hw dist ≤ dist / (8 * hardware_concurrency hw)
    below = ground (arith, exact, big)
