-- ===== src/WorkStealQueue/Tests.antt =====
-- The deque at work: a thief and the owner race for the last task.
use asyncplusplus.Prelude.{◌⊎◌, length, ℕ, ◌+◌, ◌≡◌, refl, List, [], ◌∷◌, arith, replicate}
use asyncplusplus.Prelude.Count.{count}
use asyncplusplus.Prelude.Segment.{segment}
use asyncplusplus.Memory.{small_memory}
use asyncplusplus.Word.{mask}
use asyncplusplus.WorkStealQueue.Signed.{is_empty, is_negative, is_full}
use asyncplusplus.WorkStealQueue.Array.{get, put}
use asyncplusplus.WorkStealQueue.Deque.{Event, all_in, all_out}
use asyncplusplus.WorkStealQueue.Moves.{
  Shared, OwnerPc, load_top, enough, place, publish, go_on, claim, take_last, lose, read_top,
  find_task, read_array, read_item, steal,
}
use asyncplusplus.WorkStealQueue.System.{System, own, thieve, Reach, start, later}
use asyncplusplus.WorkStealQueue.Linear.{Status, Linear, history}
use asyncplusplus.WorkStealQueue.Linearizable.{linearizable}
use asyncplusplus.WorkStealQueue.Safety.{tasks, conservation}
use asyncplusplus.WorkStealQueue.Inv.{Core}
use asyncplusplus.WorkStealQueue.Progress.{Ends, owner-Ends}
use asyncplusplus.WorkStealQueue.Dispose.{dispose}

abbrev cells : List ℕ
cells = replicate 32 0

record Run : Type 0 where
  trace : List Event
  last : System
  reach : Reach small_memory cells trace last

-- The owner pushes task 7; thief 0 gets as far as its compare-exchange.
abbrev ready : Run
unfolding is_empty is_full get put mask
ready = record {
  trace = _;
  last = _;
  reach =
      later
        (later
          (later
            (later
              (later
                (later (later (later start (own (load_top 7))) (own (enough refl))) (own place))
                (own publish))
              (thieve 0 read_top))
            (thieve 0 (find_task refl)))
          (thieve 0 read_array))
        (thieve 0 read_item);
}

-- The owner claims the same task, and the thief is first.
abbrev raced : Run
unfolding is_empty is_full is_negative get put mask
raced = record {
  trace = _;
  last = _;
  reach =
      later
        (later
          (later (later (later ready.reach (own (go_on refl))) (own claim))
            (own (take_last refl refl)))
          (thieve 0 (steal refl)))
        (own (lose (omega arith)));
}

raced_trace :
    (all_in raced.trace ≡ 7 ∷ []) × (all_out raced.trace ≡ 7 ∷ []) × (tasks raced.last ≡ [])
unfolding raced segment
raced_trace = (refl, refl, refl)

linearizable_example :
    (l : List ℕ) × (status : ℕ → Status) × Linear (history raced.reach) l status
    × ((l ≡ tasks raced.last) ⊎ ((l ≡ []) × (length (tasks raced.last) ≡ 1)))
unfolding raced
linearizable_example = linearizable refl (omega arith) raced.reach

conservation_example :
    count 7 (all_in raced.trace) ≡ count 7 (all_out raced.trace) + count 7 (tasks raced.last)
unfolding raced
conservation_example = conservation refl (omega arith) raced.reach 7

owner-Ends_example : Ends small_memory raced.trace raced.last 36
unfolding raced
owner-Ends_example = owner-Ends refl (omega arith) raced.reach

-- Two tasks wait, in slots 1 and 2 of 4.
abbrev two_left : Shared
two_left = record { arrays = λ _. 0 ∷ 8 ∷ 9 ∷ 0 ∷ []; array = 0; top = 1; bottom = 3 }

two_left-Core : Core 3 two_left OwnerPc.idle
two_left-Core = record {
  sized = record { pow2 = (2, refl); small = omega arith };
  ordered = omega arith;
  fits = omega arith;
  counted = omega arith;
  own = tt;
}

dispose_tasks : dispose two_left ≡ 8 ∷ 9 ∷ []
unfolding dispose get mask
dispose_tasks = refl
