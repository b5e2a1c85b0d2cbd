-- ===== src/Parallel/Tests.antt =====
-- The parallel algorithms over small ranges.
use asyncplusplus.Prelude.{
  ℕ, ◌+◌, ◌≡◌, refl, List, [], ◌∷◌, Option, none, some, Bool, false, arith, ◌==◌,
}
use native.Mathlib.Nat.{add_assoc, add-zero}
use asyncplusplus.Partitioner.Static.{StaticPartitioner, static_partitioner, split}
use asyncplusplus.Partitioner.Auto.{AutoPartitioner, auto_partitioner}
use asyncplusplus.Parallel.Interleave.{done, first, second}
use asyncplusplus.Parallel.Covers.{Covers}
use asyncplusplus.Parallel.For.{
  ParallelFor, inline, spawned, for_each, ParallelFor-Covers, ParallelFor-total,
}
use asyncplusplus.Parallel.Reduce.{MapReduce, reduce_loop, MapReduce-loop, MapReduce-total}
use asyncplusplus.Parallel.Invoke.{Invoke, call, halves, Invoke-Covers}

abbrev five : StaticPartitioner
five = record { iter_begin = 3; iter_end = 8; grain = 2 }

-- The call at position 6 throws.
abbrev bad_six : ℕ → Bool
bad_six i = i == 6

-- The range is cut in [3, 6) and [6, 8), and the first part in [3, 5) and [5, 6).
five_calls : ParallelFor static_partitioner bad_six five (3 ∷ 6 ∷ 5 ∷ 4 ∷ []) (some 6)
unfolding split for_each static_partitioner
five_calls =
    spawned 0 (omega arith) {theirs = 6 ∷ []} {ours = 3 ∷ 5 ∷ 4 ∷ []} (inline 0 refl)
      (spawned 0 (omega arith) {theirs = 5 ∷ []} {ours = 3 ∷ 4 ∷ []} (inline 0 refl) (inline 0 refl)
        (first (second (first done))))
      (first (second (first (first done))))

ParallelFor-Covers_example : Covers bad_six 3 8 (3 ∷ 6 ∷ 5 ∷ 4 ∷ []) (some 6)
unfolding static_partitioner
ParallelFor-Covers_example =
    ParallelFor-Covers static_partitioner bad_six {p = five} (omega arith) five_calls

-- Splits made by two threads in turn.
abbrev spread : AutoPartitioner
spread = record { iter_begin = 0; iter_end = 9; grain = 1; num_threads = 0; last_thread = none }

ParallelFor-total_example :
    (calls : List ℕ) × (thrown : Option ℕ) × ParallelFor
      (auto_partitioner 4 0)
      bad_six
      spread
      calls
      thrown
unfolding auto_partitioner
ParallelFor-total_example =
    ParallelFor-total (auto_partitioner 4 0) bad_six (λ p. p.iter_begin) 10 spread (omega arith)
      (omega arith)

-- The sum of the positions from 3 to 7.
five_sum : MapReduce (λ i. i) ◌+◌ static_partitioner 0 five 25
unfolding split reduce_loop static_partitioner
five_sum = MapReduce.spawned 0 (omega arith) {ours = 12} {theirs = 13} (MapReduce.inline 0 refl) (
    MapReduce.spawned 0 (omega arith) {ours = 7} {theirs = 5} (MapReduce.inline 0 refl)
      (MapReduce.inline 0 refl))

MapReduce-loop_example : 25 ≡ reduce_loop (λ i. i) ◌+◌ 0 5 3
unfolding static_partitioner
MapReduce-loop_example =
    MapReduce-loop (λ i. i) ◌+◌ static_partitioner 0 add_assoc add-zero {p = five} (omega arith)
      five_sum

MapReduce-total_example : (r : ℕ) × MapReduce (λ i. i) ◌+◌ static_partitioner 0 five r
unfolding static_partitioner
MapReduce-total_example =
    MapReduce-total (λ i. i) ◌+◌ static_partitioner 0 (λ p. 0) 6 five (omega arith) (omega arith)

-- Three functions: the first runs here, the other two in a task that spawns another.
three_calls : Invoke (λ i. false) 0 3 (2 ∷ 0 ∷ 1 ∷ []) none
three_calls =
    halves (omega arith) {ours = 0 ∷ []} {theirs = 2 ∷ 1 ∷ []} {our_thrown = none}
      {their_thrown = none}
      (halves (omega arith) {ours = 1 ∷ []} {theirs = 2 ∷ []} {our_thrown = none}
        {their_thrown = none} call call (second (first done)))
      call (second (first (second done)))

Invoke-Covers_example : Covers (λ i. false) 0 3 (2 ∷ 0 ∷ 1 ∷ []) none
Invoke-Covers_example = Invoke-Covers (λ i. false) three_calls
