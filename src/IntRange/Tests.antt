-- ===== src/IntRange/Tests.antt =====
-- 32-bit integers.
use asyncplusplus.Prelude.{◌≡◌, ◌↔◌, refl, [], ◌∷◌, some, true, arith}
use asyncplusplus.IntRange.{
  Iterator, irange, begin, end, index, deref, increment, decrement, plus, minus, difference, equal,
  traverse,
}
use asyncplusplus.IntRange.Laws.{count_up, traverse_lem, random_access}

abbrev five : Iterator
five = record { current = 5 }

abbrev last : Iterator
last = record { current = 4294967295 }

three_integers : count_up 3 5 ≡ 5 ∷ 6 ∷ 7 ∷ []
unfolding count_up
three_integers = refl

traverse_example : traverse 32 4 (begin (irange 5 8)) (end (irange 5 8)) ≡ some (count_up 3 5)
traverse_example = traverse_lem 32 5 8 (omega arith) (omega arith)

random_access_example :
    (minus 32 (plus 32 last 6) 6 ≡ last)
    × (plus 32 last (difference 32 five last) ≡ five)
    × (decrement 32 (increment 32 last) ≡ last)
    × (increment 32 (plus 32 last 6) ≡ plus 32 last 7)
    × (index 32 last 6 ≡ deref (plus 32 last 6))
    × ((difference 32 last five ≡ 0) ↔ (equal last five ≡ true))
random_access_example = random_access 32 last five 6 (omega arith) (omega arith)
