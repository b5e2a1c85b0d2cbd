-- ===== src/WhenAny/Tests.antt =====
-- Two tasks, 70 and 80: both are added before one finishes, or the first has finished when it is added.
use asyncplusplus.Prelude.{ℕ, ◌+◌, ◌*◌, ◌≡◌, ◌⊎◌, refl, List, [], ◌∷◌, ◌++◌, none, some, arith}
use asyncplusplus.WhenAny.{
  WhenAnyResult, AnyWorld, storing, AnyStep, AnyReach, begin, later, stores, adds, runs,
}
use asyncplusplus.WhenAny.Laws.{first_wins, early_finish}

abbrev two_tasks : ℕ → ℕ
two_tasks i = 70 + i * 10

abbrev both_added : AnyWorld
both_added = record {
  state = record {
    ref_count = 2;
    result = 70 ∷ 80 ∷ [];
    event = none;
    out_of_range = 0;
    destroyed = 0;
  };
  pc = storing;
  next = 2;
  waiting = 1 ∷ 0 ∷ [];
  ran = [];
}

to_both : AnyReach two_tasks 2 both_added
to_both =
    later
      (later (later (later begin (stores refl (omega arith))) (adds refl))
        (stores refl (omega arith)))
      (adds refl)

abbrev first_done : AnyWorld
first_done = record {
  state = record {
    ref_count = 1;
    result = [];
    event = some (record { index = 0; tasks = 70 ∷ 0 ∷ [] });
    out_of_range = 0;
    destroyed = 0;
  };
  pc = storing;
  next = 1;
  waiting = [];
  ran = 0 ∷ [];
}

to_first : AnyReach two_tasks 2 first_done
to_first = later (later (later begin (stores refl (omega arith))) (adds refl)) (runs [] 0 [] refl)

first_wins_example :
    ((first_done.ran ≡ []) × (first_done.state.event ≡ none))
    ⊎ ((a : WhenAnyResult) × (first_done.state.event ≡ some a)
        × ((after : List ℕ) × (first_done.ran ≡ after ++ (a.index ∷ []))))
first_wins_example = first_wins two_tasks 2 to_first

early_finish_example :
    (w' : AnyWorld) × AnyStep two_tasks 2 first_done w' × (w'.state.out_of_range ≡ 1)
early_finish_example = early_finish two_tasks 2 to_first refl (omega arith) (λ e. absurd cc)
