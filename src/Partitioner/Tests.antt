-- ===== src/Partitioner/Tests.antt =====
-- Splits of small ranges.
use asyncplusplus.Prelude.{◌+◌, ◌≡◌, ◌<◌, refl, none, arith}
use asyncplusplus.Partitioner.Static
use asyncplusplus.Partitioner.Static.{StaticPartitioner, split_halves}
use asyncplusplus.Partitioner.Auto
use asyncplusplus.Partitioner.Auto.{AutoPartitioner, threads_for, threads_shared}

abbrev seven : StaticPartitioner
seven = record { iter_begin = 10; iter_end = 17; grain = 3 }

split-seven :
    Static.split seven ≡ (record seven { iter_end = 14 }, record seven { iter_begin = 14 })
unfolding Static.split
split-seven = refl

-- Thread 5 splits a fresh partitioner on a platform with four threads.
abbrev fresh : AutoPartitioner
fresh = record { iter_begin = 0; iter_end = 9; grain = 1; num_threads = 77; last_thread = none }

threads_shared_example :
    ((Auto.rest 4 0 5 fresh).num_threads + (Auto.out 4 0 5 fresh).num_threads
      ≡ threads_for 4 5 fresh)
    × (0 < (Auto.rest 4 0 5 fresh).num_threads)
    × (0 < (Auto.out 4 0 5 fresh).num_threads)
unfolding Auto.split
threads_shared_example = threads_shared 4 0 5 fresh (omega arith)
