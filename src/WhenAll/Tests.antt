-- ===== src/WhenAll/Tests.antt =====
-- Two tasks, 70 and 80.
use asyncplusplus.Prelude.{ℕ, ◌+◌, ◌*◌, ◌<◌, ◌≡◌, ◌⊎◌, refl, List, [], ◌∷◌, length, get_or, arith}
use asyncplusplus.WhenAll.{
  release_refs, run_func, World, adding, rethrown, Reach, begin, later, adds, runs,
}
use asyncplusplus.WhenAll.Laws.{event_once, last_throws}

abbrev two_tasks : ℕ → ℕ
two_tasks i = 70 + i * 10

-- The first task finishes before the second one is added.
abbrev both_done : World
both_done = record {
  state = record { ref_count = 0; result = 70 ∷ 80 ∷ []; sets = (70 ∷ 80 ∷ []) ∷ [] };
  pc = adding;
  next = 2;
  waiting = [];
}

abbrev first_done : World
first_done = record {
  state = record { ref_count = 1; result = 70 ∷ 0 ∷ []; sets = [] };
  pc = adding;
  next = 1;
  waiting = [];
}

to_first : Reach two_tasks 2 first_done
unfolding run_func release_refs
to_first = later (later begin (adds refl (omega arith))) (runs [] 0 [] refl)

to_both : Reach two_tasks 2 both_done
unfolding run_func release_refs
to_both = later (later to_first (adds refl (omega arith))) (runs [] 1 [] refl)

event_once_example :
    ((0 < length both_done.waiting + 0) × (both_done.state.sets ≡ []))
    ⊎ ((both_done.waiting ≡ [])
        × (both_done.next ≡ 2)
        × ((ts : List ℕ) × (both_done.state.sets ≡ ts ∷ [])
            × (length ts ≡ 2)
            × ((j : ℕ) → j < 2 → get_or ts j 0 ≡ two_tasks j)))
event_once_example = event_once two_tasks 2 (omega arith) (omega arith) to_both refl

last_throws_example :
    (thrown : World) × Reach two_tasks 2 thrown
    × (thrown.pc ≡ rethrown)
    × (thrown.state.sets ≡ (70 ∷ 0 ∷ []) ∷ (70 ∷ 0 ∷ []) ∷ [])
last_throws_example = last_throws two_tasks 2 (omega arith) to_first refl refl refl
