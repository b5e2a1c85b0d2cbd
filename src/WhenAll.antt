-- ===== src/WhenAll.antt =====
-- `when_all` of include/async++/when_all_any.h, for a range of tasks or a pack of them: the caller
-- adds a continuation to each task, while the continuations added so far may run.
pub mod Inv
pub mod Laws
mod Tests
use asyncplusplus.Prelude.{
  ℕ, suc, ◌+◌, ◌-◌, ◌<◌, ◌≡◌, ◌==◌, List, [], ◌∷◌, ◌++◌, if◌then◌else◌, set, replicate,
}
use asyncplusplus.Word.{sub_size}

-- `when_all_state`. `sets` are the values that its destructor has set the event to, one for each time
-- that it ran, the newest first; 0 is an empty task object.
pub record WhenAllState : Type 0 where
  pub ref_count : ℕ
  pub result : List ℕ
  pub sets : List (List ℕ)

-- `remove_ref` of the state; at 0 the destructor sets the event.
unfoldable pub release_refs : WhenAllState → ℕ → WhenAllState
release_refs s count = record s {
  ref_count = sub_size s.ref_count count;
  sets = (if s.ref_count == count then s.result ∷ s.sets else s.sets);
}

-- The shared state that `when_all` creates for `count` tasks.
abbrev pub new_state : ℕ → WhenAllState
new_state count = record { ref_count = count; result = replicate count 0; sets = [] }

-- `when_all_func_range::operator()` and `when_all_func_tuple::operator()`
abbrev pub store_task : WhenAllState → ℕ → ℕ → WhenAllState
store_task s index t = record s { result = set s.result index t }

-- The continuation runs, and its function object is destroyed with the reference that it owns.
unfoldable pub run_func : WhenAllState → ℕ → ℕ → WhenAllState
unfolding release_refs
run_func s index t = release_refs (store_task s index t) 1

-- Where the caller is: in the loop; in the catch block; and beyond that.
pub data Pc : Type 0 where
  adding caught rethrown : Pc

-- `next` is the index of the loop, `waiting` the continuations that have not run.
pub record World : Type 0 where
  pub state : WhenAllState
  pub pc : Pc
  pub next : ℕ
  pub waiting : List ℕ

abbrev pub begin_loop : ℕ → World
begin_loop count = record { state = new_state count; pc = adding; next = 0; waiting = [] }

-- `tasks` are the `count` tasks.
pub data Step (tasks : ℕ → ℕ) (count : ℕ) (w : World) : World → Type 0 where
  -- `then` adds the continuation.
  adds :
      w.pc ≡ adding
      → w.next < count
      → Step tasks count w (record w { next = suc w.next; waiting = w.next ∷ w.waiting })
  -- `then` throws, and the function object is destroyed.
  throws :
      w.pc ≡ adding
      → w.next < count
      → Step tasks count w (record w { pc = caught; state = release_refs w.state 1 })
  -- `state->remove_ref(std::distance(begin, end) - 1)`
  cleans_up :
      w.pc ≡ caught
      → Step tasks count w
          (record w { pc = rethrown; state = release_refs w.state (count - w.next - 1) })
  runs :
      (left : List ℕ) (j : ℕ) (right : List ℕ)
      → w.waiting ≡ left ++ (j ∷ right)
      → Step tasks count w
          (record w { state = run_func w.state j (tasks j); waiting = left ++ right })

pub data Reach (tasks : ℕ → ℕ) (count : ℕ) : World → Type 0 where
  begin : Reach tasks count (begin_loop count)
  later : {w w' : World} → Reach tasks count w → Step tasks count w w' → Reach tasks count w'
