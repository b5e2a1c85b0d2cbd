-- ===== src/ThreadPool/Spawn.antt =====
-- `recursive_spawn_worker_thread`: the threads of the pool start each other.
use asyncplusplus.Prelude.{
  ℕ, zero, suc, ◌+◌, ◌-◌, ◌/◌, ◌≤◌, ◌<◌, ◌^◌, ◌≡◌, ◌≢◌, false, ◌==◌, refl, ap, List, [], ◌∷◌, ◌++◌,
  Option, none, some, if◌then◌else◌, arith, ℕ_discrete, ◌∙◌,
}
use mathlib.Core.Option
use mathlib.Core.Path.{subst, sym, ap₂}
use asyncplusplus.Prelude.Count.{count, count-append}
use asyncplusplus.Prelude.Ranges.{inside}
use asyncplusplus.Word.{add_size, sub_size}
use asyncplusplus.Hardware.{get_num_threads, get_num_threads_lem}

-- The indices with which `worker_thread` is called, and those whose `handle` is stored.
pub record Started : Type 0 where
  pub workers : List ℕ
  pub handles : List ℕ

-- One call: the spawned thread's part follows the part that goes on here.
unfoldable pub spawned : ℕ → Option Started → Option Started → Option Started
spawned mid (some ours) (some theirs) = some (record {
  workers = ours.workers ++ theirs.workers;
  handles = mid ∷ ours.handles ++ theirs.handles;
})
spawned mid none theirs = none
spawned mid (some ours) none = none

-- `none` if the recursion does not end within the fuel.
unfoldable pub recursive_spawn : ℕ → ℕ → ℕ → Option Started
unfolding spawned
recursive_spawn zero index threads = none
recursive_spawn (suc fuel) index threads =
    let mid = add_size index (threads / 2) in
    let theirs = recursive_spawn fuel mid (sub_size threads (threads / 2)) in
    let ours = recursive_spawn fuel index (threads / 2) in
    if threads == 1
    then some (record { workers = index ∷ []; handles = [] })
    else spawned mid ours theirs

abbrev pub with_first : Started → Started
with_first s = record s { handles = 0 ∷ s.handles }

-- The constructor of the pool, which starts the first thread.
unfoldable pub start_pool : ℕ → ℕ → Option Started
unfolding recursive_spawn
start_pool fuel num_threads = Option.map with_first (recursive_spawn fuel 0 num_threads)

-- Each index of the range once as a worker, and each but the first, which the caller has stored,
-- once as a handle.
abbrev pub StartsAll : ℕ → ℕ → Started → Type 0
StartsAll index threads s =
    ((j : ℕ) → count j s.workers ≡ inside index (index + threads) j)
    × ((j : ℕ) → count j s.handles ≡ inside (index + 1) (index + threads) j)

StartsAll-one : (index : ℕ) → StartsAll index 1 (record { workers = index ∷ []; handles = [] })
unfolding count inside
StartsAll-one index = (λ j. ground arith, λ j. ground arith)

StartsAll-spawned :
    (index half threads : ℕ) (ours theirs : Started)
    → 0 < half
    → half < threads
    → StartsAll index half ours
    → StartsAll (index + half) (threads - half) theirs
    → StartsAll index threads (record {
      workers = ours.workers ++ theirs.workers;
      handles = (index + half) ∷ ours.handles ++ theirs.handles;
    })
unfolding count inside
StartsAll-spawned index half threads ours theirs pos lt o t = (
  λ j. ground (arith, count-append j ours.workers theirs.workers, o.0 j, t.0 j),
  λ j. ground (arith, count-append j ours.handles theirs.handles, o.1 j, t.1 j),
)

not_one : (threads : ℕ) → threads ≢ 1 → (threads == 1) ≡ false
not_one threads ne = ground arith

-- A call for more than one thread, without the wrap-around.
recursive_spawn-more :
    (fuel index threads : ℕ)
    → threads ≢ 1
    → index + threads < 2 ^ 64
    → recursive_spawn (suc fuel) index threads
      ≡ spawned
          (index + threads / 2)
          (recursive_spawn fuel index (threads / 2))
          (recursive_spawn fuel (index + threads / 2) (threads - threads / 2))
unfolding recursive_spawn
recursive_spawn-more fuel index threads ne small = rw (not_one threads ne) (
    ap₂
      (λ mid rest.
        spawned mid (recursive_spawn fuel index (threads / 2)) (recursive_spawn fuel mid rest))
      {x = add_size index (threads / 2)} {y = index + threads / 2}
      {u = sub_size threads (threads / 2)} {v = threads - threads / 2} (omega arith) (omega arith))

-- The threads that `recursive_spawn_worker_thread` starts for a range of indices: the recursion
-- ends, and each index of the range once becomes a worker, and each but the first, whose handle the
-- caller stores, once gets a handle.
pub recursive_spawn_lem :
    (fuel index threads : ℕ)
    → 0 < threads
    → threads ≤ fuel
    → index + threads < 2 ^ 64
    → (s : Started) × (recursive_spawn fuel index threads ≡ some s) × StartsAll index threads s
unfolding recursive_spawn spawned
recursive_spawn_lem zero index threads pos enough small = absurd (omega arith)
recursive_spawn_lem (suc fuel) index threads pos enough small = elim (ℕ_discrete threads 1) [
  | yes e ↦ (
    record { workers = index ∷ []; handles = [] },
    ground (arith, e),
    subst (λ k. StartsAll index k (record { workers = index ∷ []; handles = [] })) (sym e)
        (StartsAll-one index),
  )
  | no ne ↦
      let half = threads / 2 in
      let (ours, oe, oa) =
        recursive_spawn_lem fuel index half (omega arith) (omega arith) (omega arith) in
      let (theirs, te, ta) =
        recursive_spawn_lem fuel (index + half) (threads - half) (omega arith) (omega arith)
          (omega arith) in
      (
        _,
        recursive_spawn-more fuel index threads ne small ∙ ap₂ (spawned (index + half)) oe te,
        StartsAll-spawned index half threads ours theirs (omega arith) (omega arith) oa ta,
      )
]

-- The constructor of a pool of at least one thread starts each index once as a worker, and stores
-- each of the handles that the destructor joins once.
pub start_pool_lem :
    (num_threads : ℕ)
    → 0 < num_threads
    → num_threads < 2 ^ 64
    → (s : Started) × (start_pool num_threads num_threads ≡ some s)
      × ((j : ℕ) → count j s.workers ≡ inside 0 num_threads j)
      × ((j : ℕ) → count j s.handles ≡ inside 0 num_threads j)
unfolding start_pool count inside
start_pool_lem num_threads pos small =
    let (s, e, (w, h)) =
      recursive_spawn_lem num_threads 0 num_threads pos (omega arith) (omega arith) in
    (with_first s, ap (Option.map with_first) e, λ j. ground (arith, w j), λ j. ground (arith, h j))

-- A pool of no threads: `recursive_spawn_worker_thread` never reaches its base case, however long
-- it runs.
pub recursive_spawn-zero : (fuel index : ℕ) → recursive_spawn fuel index 0 ≡ none
unfolding recursive_spawn spawned
recursive_spawn-zero zero index = refl
recursive_spawn-zero (suc fuel) index = rw (recursive_spawn-zero fuel index) refl

-- The pool of the default scheduler starts whatever the environment says: the count of threads that
-- `recursive_spawn_worker_thread` cannot deal with does not occur.
pub default_pool_starts :
    (s : Option ℕ) (value : ℕ)
    → get_num_threads s value < 2 ^ 64
    → (started : Started) × (start_pool (get_num_threads s value) (get_num_threads s value)
        ≡ some started)
      × ((j : ℕ) → count j started.workers ≡ inside 0 (get_num_threads s value) j)
      × ((j : ℕ) → count j started.handles ≡ inside 0 (get_num_threads s value) j)
default_pool_starts s value small =
    start_pool_lem (get_num_threads s value) (get_num_threads_lem s value).0 small
