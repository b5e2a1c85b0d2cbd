-- ===== src/Hardware.antt =====
-- `hardware_concurrency` and `default_scheduler_impl::get_num_threads` of src/scheduler.cpp.
use asyncplusplus.Prelude.{ℕ, ◌<◌, ◌==◌, if◌then◌else◌, arith, Option, none, some, ltb, ◌≡◌}

-- The argument is what the platform's `std::thread::hardware_concurrency` returned once: 0 if it
-- does not know.
unfoldable pub hardware_concurrency : ℕ → ℕ
hardware_concurrency value = if value == 0 then 1 else value

pub hardware_concurrency-pos : (value : ℕ) → 0 < hardware_concurrency value
unfolding hardware_concurrency
hardware_concurrency-pos value = ground arith

-- What `std::strtoul` makes of the environment variable, or what the platform says if it is not set.
abbrev pub requested : Option ℕ → ℕ → ℕ
requested (some n) value = n
requested none value = hardware_concurrency value

unfoldable pub get_num_threads : Option ℕ → ℕ → ℕ
get_num_threads s value = if ltb (requested s value) 1 then 1 else requested s value

-- The default pool has a thread, and as many as were asked for if that is one at least.
pub get_num_threads_lem :
    (s : Option ℕ) (value : ℕ)
    → (0 < get_num_threads s value)
      × (0 < requested s value → get_num_threads s value ≡ requested s value)
unfolding get_num_threads
get_num_threads_lem s value = ground arith
