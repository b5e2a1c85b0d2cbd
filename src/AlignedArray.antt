-- ===== src/AlignedArray.antt =====
-- `aligned_array` of include/async++/aligned_alloc.h: an array whose elements are constructed one by
-- one in aligned storage. `aligned_alloc` and `aligned_free` are the platform's.
pub mod Lifetime
pub mod Handles
pub mod Ownership
mod Tests
use asyncplusplus.Prelude.{
  ℕ, zero, suc, ◌+◌, List, [], ◌∷◌, ◌++◌, Bool, Option, none, some, if◌then◌else◌,
}

-- What a call does to the elements of one piece of storage: the positions at which it constructs
-- and destroys, in order, and how often it frees the storage.
pub record Log : Type 0 where
  pub built : List ℕ
  pub destroyed : List ℕ
  pub freed : ℕ

-- The construction loop from `i`, with `rounds` iterations left, and the position whose constructor
-- threw. The constructor of element `i` throws if `throws i`.
unfoldable pub build_from : (ℕ → Bool) → ℕ → ℕ → List ℕ × Option ℕ
build_from throws zero i = ([], none)
build_from throws (suc rounds) i =
    let rest = build_from throws rounds (i + 1) in
    if throws i then ([], some i) else (i ∷ rest.0, rest.1)

-- The loop of the catch block, with `rounds` iterations left; it destroys `ptr[i]` each time.
unfoldable pub unwind : ℕ → ℕ → List ℕ
unwind zero i = []
unwind (suc rounds) i = i ∷ unwind rounds i

-- What follows the construction loop: nothing, or the catch block.
unfoldable pub finish : List ℕ → Option ℕ → Log × Option ℕ
unfolding unwind
finish built none = (record { built = built; destroyed = []; freed = 0 }, none)
finish built (some i) = (record { built = built; destroyed = unwind i i; freed = 1 }, some i)

-- The constructor, once it has storage for `length` elements; with the position whose constructor
-- threw, if it rethrows.
unfoldable pub construct : (ℕ → Bool) → ℕ → Log × Option ℕ
unfolding build_from finish
construct throws length = let loop = build_from throws length 0 in finish loop.0 loop.1

-- The loop of the destructor from `i`.
unfoldable pub destroy_from : ℕ → ℕ → List ℕ
destroy_from zero i = []
destroy_from (suc rounds) i = i ∷ destroy_from rounds (i + 1)

unfoldable pub destruct : ℕ → Log
unfolding destroy_from
destruct length = record { built = []; destroyed = destroy_from length 0; freed = 1 }
