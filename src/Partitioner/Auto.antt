-- ===== src/Partitioner/Auto.antt =====
-- `auto_partitioner_impl`: one chunk for each thread at first, more when a chunk is stolen.
use asyncplusplus.Prelude.{
  ℕ, ◌+◌, ◌-◌, ◌/◌, ◌^◌, ◌≤◌, ◌<◌, ◌≡◌, ◌≢◌, arith, leb, if◌then◌else◌, Option, none, some, ◌==◌,
  not, Bool, true,
}
use asyncplusplus.Partitioner.Interface.{Partitioner}
use asyncplusplus.Word.{add_size, sub_size}
use asyncplusplus.Hardware.{hardware_concurrency}

-- `last_thread` is `none` for the default `std::thread::id`. The constructor leaves `num_threads`
-- uninitialised.
pub record AutoPartitioner : Type 0 where
  pub iter_begin : ℕ
  pub iter_end : ℕ
  pub grain : ℕ
  pub num_threads : ℕ
  pub last_thread : Option ℕ

-- `current_thread != last_thread`
abbrev pub differs : ℕ → Option ℕ → Bool
differs current none = true
differs current (some last) = not (current == last)

-- The number of threads that a split on thread `current` goes by; `hw` is the platform's number.
unfoldable pub threads_for : ℕ → ℕ → AutoPartitioner → ℕ
unfolding hardware_concurrency
threads_for hw current p =
    if differs current p.last_thread then hardware_concurrency hw else p.num_threads

-- Splitting on thread `current`. `uninit` stands for the uninitialised `num_threads` of the
-- partitioner that is returned.
unfoldable pub split : ℕ → ℕ → ℕ → AutoPartitioner → AutoPartitioner × AutoPartitioner
unfolding threads_for
split hw uninit current p =
    let length = sub_size p.iter_end p.iter_begin in
    let out : AutoPartitioner = record {
      iter_begin = p.iter_end;
      iter_end = p.iter_end;
      grain = p.grain;
      num_threads = uninit;
      last_thread = none;
    } in
    let threads = threads_for hw current p in
    let middle = p.iter_begin + add_size length 1 / 2 in
    if leb length p.grain
    then (p, out)
    else (if leb threads 1 then (record p { num_threads = threads }, out) else (
      record p {
        iter_end = middle;
        num_threads = threads - threads / 2;
        last_thread = some current;
      },
      record out { iter_begin = middle; num_threads = threads / 2; last_thread = some current },
    ))

abbrev pub IsRange : AutoPartitioner → Type 0
IsRange p = (p.iter_begin ≤ p.iter_end) × (p.iter_end < 2 ^ 63)

module _ (hw uninit current : ℕ) (p : AutoPartitioner) where
  -- What the partitioner keeps, and what `split` returns.
  abbrev pub rest : AutoPartitioner
  rest = (split hw uninit current p).0

  abbrev pub out : AutoPartitioner
  out = (split hw uninit current p).1

  -- Splitting cuts the range in two parts that lie end to end.
  pub split_lem :
      IsRange p
      → (rest.iter_begin ≡ p.iter_begin)
        × (out.iter_begin ≡ rest.iter_end)
        × (out.iter_end ≡ p.iter_end)
        × IsRange rest
        × IsRange out
  unfolding split
  split_lem r = ground arith

  pub split_both : IsRange p → out.iter_begin ≢ out.iter_end → rest.iter_begin < rest.iter_end
  unfolding split
  split_both r ne = ground arith

  -- A split shares the threads between the two parts: none is lost and each part has one.
  pub threads_shared :
      out.iter_begin ≢ out.iter_end
      → (rest.num_threads + out.num_threads ≡ threads_for hw current p)
        × (0 < rest.num_threads)
        × (0 < out.num_threads)
  unfolding split
  threads_shared ne = ground arith

-- The constructor's uninitialised `num_threads` is never read: the first split of a partitioner,
-- which no thread has split yet, gives the same two ranges whatever the member holds.
pub uninit_unread :
    (hw uninit current other : ℕ) (p : AutoPartitioner)
    → p.last_thread ≡ none
    → let (rest, out) = split hw uninit current p in
      let (rest', out') = split hw uninit current (record p { num_threads = other }) in
      (rest.iter_end ≡ rest'.iter_end) × (out.iter_begin ≡ out'.iter_begin)
unfolding split
uninit_unread hw uninit current other p e = ground arith

-- The interface of the parallel algorithms, on a platform with `hw` threads.
unfoldable pub auto_partitioner : ℕ → ℕ → Partitioner AutoPartitioner
auto_partitioner hw uninit = record {
  begin = λ p. p.iter_begin;
  finish = λ p. p.iter_end;
  split = split hw uninit;
  IsRange = IsRange;
  ordered = λ p r. r.0;
  kept = λ t p r. let s = split_lem hw uninit t p r in (s.3, s.0);
  given = λ t p r. let s = split_lem hw uninit t p r in (s.4, s.1, s.2);
  both = λ t p r. split_both hw uninit t p r;
}
