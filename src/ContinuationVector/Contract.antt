-- ===== src/ContinuationVector/Contract.antt =====
-- What the vector promises to those who add continuations and to the one that flushes them.
use asyncplusplus.Prelude.{ℕ, ◌+◌, ◌≡◌, ◌≢◌, refl, ap, List, [], ◌∷◌, ◌++◌, arith}
use asyncplusplus.Prelude.Count.{count, count-append}

pub data Event : Type 0 where
  silent : Event
  added : ℕ → Event  -- `try_add` takes the task, and will return true
  rejected : ℕ → Event  -- `try_add` returns false
  threw : ℕ → Event  -- `try_add` is out of memory
  locked : Event  -- `flush_and_lock` sets the lock
  flushed : List ℕ → Event  -- `flush_and_lock` passes these tasks on

-- Before `flush_and_lock` has set the lock, between that and the flush, and after.
pub data Phase : Type 0 where
  accepting closing closed : Phase

-- The waiting tasks and the phase before and after an event: a task is added at the end and never
-- after the flush, rejected only once the lock is set, and the flush passes on all that wait.
abbrev pub Spec : Phase → List ℕ → Event → Phase → List ℕ → Type 0
Spec p l Event.silent p' l' = (p' ≡ p) × (l' ≡ l)
Spec p l (Event.added t) p' l' = (p ≢ closed) × (p' ≡ p) × (l' ≡ l ++ (t ∷ []))
Spec p l (Event.rejected t) p' l' = (p ≢ accepting) × (p' ≡ p) × (l' ≡ l)
Spec p l (Event.threw t) p' l' = (p' ≡ p) × (l' ≡ l)
Spec p l Event.locked p' l' = (p ≡ accepting) × (p' ≡ closing) × (l' ≡ l)
Spec p l (Event.flushed ts) p' l' = (p ≡ closing) × (p' ≡ closed) × (ts ≡ l) × (l' ≡ [])

-- A history, newest event first, that takes a new vector to a phase and the tasks that wait.
pub data History : List Event → Phase → List ℕ → Type 0 where
  none_yet : History [] accepting []
  then :
      {tr : List Event} {e : Event} {p p' : Phase} {l l' : List ℕ}
      → History tr p l
      → Spec p l e p' l'
      → History (e ∷ tr) p' l'

abbrev pub tasks_in : List Event → List ℕ
tasks_in [] = []
tasks_in (Event.added t ∷ tr) = t ∷ tasks_in tr
tasks_in (_ ∷ tr) = tasks_in tr

abbrev pub tasks_out : List Event → List ℕ
tasks_out [] = []
tasks_out (Event.flushed ts ∷ tr) = ts ++ tasks_out tr
tasks_out (_ ∷ tr) = tasks_out tr

-- Every task that was added has been flushed or waits, as often as it was added.
pub History-count :
    (a : ℕ) {tr : List Event} {p : Phase} {l : List ℕ}
    → History tr p l
    → count a (tasks_in tr) ≡ count a (tasks_out tr) + count a l
unfolding count
History-count a none_yet = refl
History-count a (then {e = Event.silent} r s) = omega (arith, History-count a r, ap (count a) s.1)
History-count a (then {e = Event.added t} {l = l} r s) =
    omega (arith, History-count a r, ap (count a) s.2, count-append a l (t ∷ []))
History-count a (then {e = Event.rejected t} r s) =
    omega (arith, History-count a r, ap (count a) s.2)
History-count a (then {e = Event.threw t} r s) = omega (arith, History-count a r, ap (count a) s.1)
History-count a (then {e = Event.locked} r s) = omega (arith, History-count a r, ap (count a) s.2)
History-count a (then {tr} {e = Event.flushed ts} r s) =
    omega (
      arith,
      History-count a r,
      ap (count a) s.2,
      ap (count a) s.3,
      count-append a ts (tasks_out tr),
    )
