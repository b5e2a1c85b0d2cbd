-- ===== src/AlignedArray/Tests.antt =====
-- Arrays of four elements, of which the third may not be constructible.
use asyncplusplus.Prelude.{
  ℕ, ◌+◌, ◌<◌, ◌≡◌, ◌==◌, refl, Bool, false, some, if◌then◌else◌, arith, [], ◌∷◌,
}
use asyncplusplus.Prelude.Count.{count}
use asyncplusplus.Prelude.Ranges.{inside}
use asyncplusplus.AlignedArray.{construct, build_from, unwind, finish}
use asyncplusplus.Prelude.{List}
use asyncplusplus.Prelude.Sum.{sum_to}
use asyncplusplus.AlignedArray.Handles
use asyncplusplus.AlignedArray.Handles.{no_arrays, run}
use asyncplusplus.AlignedArray.Ownership.{owns, times, one_owner}
use asyncplusplus.AlignedArray.Lifetime.{construct-throws}

abbrev bad_two : ℕ → Bool
bad_two i = i == 2

construct_bad :
    construct bad_two 4 ≡ (record { built = 0 ∷ 1 ∷ []; destroyed = 2 ∷ 2 ∷ []; freed = 1 }, some 2)
unfolding construct build_from unwind finish
construct_bad = refl

bad_two-good : (j : ℕ) → j < 2 → bad_two j ≡ false
bad_two-good j h = ground arith

construct-throws_example :
    ((construct bad_two 4).1 ≡ some 2)
    × ((construct bad_two 4).0.freed ≡ 1)
    × ((j : ℕ) → count j (construct bad_two 4).0.built ≡ inside 0 2 j)
    × ((j : ℕ) → count j (construct bad_two 4).0.destroyed ≡ (if j == 2 then 2 else 0))
construct-throws_example = construct-throws bad_two 4 2 (omega arith) refl bad_two-good

-- The first array is assigned to itself, which frees it; the second moves on.
abbrev moves : List Handles.Operation
moves =
    Handles.assigns_new 0 4
    ∷ Handles.assigns_new 1 7
    ∷ Handles.assigns 0 0
    ∷ Handles.constructs 2 1
    ∷ []

self_assigned : (run no_arrays moves).freed ≡ (0, 4) ∷ []
self_assigned = refl

one_owner_example :
    sum_to (λ h. owns 1 7 ((run no_arrays moves).handles h)) 3
      + times 1 7 (run no_arrays moves).freed
    ≡ times 1 7 (run no_arrays moves).allocated
one_owner_example =
    one_owner 3 moves 1 7
      (omega arith, (omega arith, ((omega arith, omega arith), ((omega arith, omega arith), tt))))
