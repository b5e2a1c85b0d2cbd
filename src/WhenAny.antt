-- ===== src/WhenAny.antt =====
-- `when_any` of include/async++/when_all_any.h, for a range of tasks: the caller stores each task in
-- the shared state and adds a continuation to it, while the continuations added so far may run.
pub mod Laws
mod Tests
use asyncplusplus.Prelude.{
  ℕ, suc, ◌-◌, ◌<◌, ◌≡◌, ◌==◌, List, [], ◌∷◌, ◌++◌, if◌then◌else◌, Option, none, some, ltb, set,
  length, replicate,
}
use asyncplusplus.Word.{sub_size}

pub record WhenAnyResult : Type 0 where
  pub index : ℕ
  pub tasks : List ℕ

-- `when_any_state`, with the value of its event. `result` is a vector, and empty when it has been
-- moved from. `out_of_range` counts the writes beyond its end, `destroyed` the destructor's runs.
pub record WhenAnyState : Type 0 where
  pub ref_count : ℕ
  pub result : List ℕ
  pub event : Option WhenAnyResult
  pub out_of_range : ℕ
  pub destroyed : ℕ

abbrev pub release_any : WhenAnyState → ℕ → WhenAnyState
release_any s count = record s {
  ref_count = sub_size s.ref_count count;
  destroyed = (if s.ref_count == count then suc s.destroyed else s.destroyed);
}

-- `when_any_state::set`, by the value of the event: the first call moves `result` into the event.
abbrev pub set_event : WhenAnyState → ℕ → Option WhenAnyResult → WhenAnyState
set_event s i none = record s { event = some (record { index = i; tasks = s.result }); result = [] }
set_event s i (some a) = s

-- `when_any_func::operator()`, and the end of its function object.
abbrev pub run_any : WhenAnyState → ℕ → WhenAnyState
run_any s i = release_any (set_event s i s.event) 1

-- The shared state that `when_any` creates for `count` tasks.
abbrev pub new_any : ℕ → WhenAnyState
new_any count = record {
  ref_count = count;
  result = replicate count 0;
  event = none;
  out_of_range = 0;
  destroyed = 0;
}

-- `state->result[i] = t`
abbrev pub place_task : WhenAnyState → ℕ → ℕ → WhenAnyState
place_task s i t = record s {
  result = set s.result i t;
  out_of_range = (if ltb i (length s.result) then s.out_of_range else suc s.out_of_range);
}

-- Where the caller is: before the store of the loop's body; after it; in the catch block; beyond.
pub data AnyPc : Type 0 where
  storing adding caught rethrown : AnyPc

-- `next` is the index of the loop, `waiting` the continuations that have not run, and `ran` those
-- that have, the last one first.
pub record AnyWorld : Type 0 where
  pub state : WhenAnyState
  pub pc : AnyPc
  pub next : ℕ
  pub waiting : List ℕ
  pub ran : List ℕ

abbrev pub begin_any : ℕ → AnyWorld
begin_any count = record { state = new_any count; pc = storing; next = 0; waiting = []; ran = [] }

-- `tasks` are the `count` tasks.
pub data AnyStep (tasks : ℕ → ℕ) (count : ℕ) (w : AnyWorld) : AnyWorld → Type 0 where
  stores :
      w.pc ≡ storing
      → w.next < count
      → AnyStep tasks count w
          (record w { pc = adding; state = place_task w.state w.next (tasks w.next) })
  adds :
      w.pc ≡ adding
      → AnyStep tasks count w
          (record w { pc = storing; next = suc w.next; waiting = w.next ∷ w.waiting })
  throws :
      w.pc ≡ adding
      → AnyStep tasks count w (record w { pc = caught; state = release_any w.state 1 })
  -- `state->remove_ref(std::distance(begin, end) - 1)`
  cleans_up :
      w.pc ≡ caught
      → AnyStep tasks count w
          (record w { pc = rethrown; state = release_any w.state (count - w.next - 1) })
  runs :
      (left : List ℕ) (j : ℕ) (right : List ℕ)
      → w.waiting ≡ left ++ (j ∷ right)
      → AnyStep tasks count w
          (record w { state = run_any w.state j; waiting = left ++ right; ran = j ∷ w.ran })

pub data AnyReach (tasks : ℕ → ℕ) (count : ℕ) : AnyWorld → Type 0 where
  begin : AnyReach tasks count (begin_any count)
  later :
      {w w' : AnyWorld}
      → AnyReach tasks count w
      → AnyStep tasks count w w'
      → AnyReach tasks count w'
