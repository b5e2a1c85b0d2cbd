-- ===== src/WorkStealQueue/Deque.antt =====
-- What the steps of the work-stealing deque do to its tasks: a list, the owner's end last.
use asyncplusplus.Prelude.{ℕ, ◌+◌, ◌≤◌, ◌≡◌, refl, ap, List, [], ◌∷◌, ◌++◌, length, arith}
use asyncplusplus.Prelude.Count.{count, count-append}

-- What a step of a thread means to the users of the deque.
pub data Event : Type 0 where
  silent : Event
  pushed : ℕ → Event
  push_threw : ℕ → Event  -- `grow` threw; the task stays with its handle
  popped : ℕ → Event
  pop_none : Event  -- `pop` returns the empty handle
  stolen : ℕ → Event
  steal_none : Event  -- `steal` returns the empty handle

-- The tasks in memory before and after a step with this event. Until the owner has taken the one task
-- that is left, it is in memory, and `steal` may come back empty; Linear has the order in which the
-- calls take effect on a list of their own.
abbrev pub Effect : List ℕ → Event → List ℕ → Type 0
Effect l Event.silent l' = l' ≡ l
Effect l (Event.pushed x) l' = l' ≡ l ++ (x ∷ [])
Effect l (Event.push_threw x) l' = l' ≡ l
Effect l (Event.popped x) l' = l ≡ l' ++ (x ∷ [])
Effect l Event.pop_none l' = (l ≡ []) × (l' ≡ [])
Effect l (Event.stolen x) l' = l ≡ x ∷ l'
Effect l Event.steal_none l' = (l' ≡ l) × (length l ≤ 1)

abbrev pub pushes : Event → ℕ
pushes (Event.pushed x) = 1
pushes _ = 0

-- A history, newest event first, that takes the empty deque to `l`.
pub data Runs : List Event → List ℕ → Type 0 where
  none_yet : Runs [] []
  then :
      {tr : List Event} {e : Event} {l l' : List ℕ} → Runs tr l → Effect l e l' → Runs (e ∷ tr) l'

-- The tasks that a history handed in, and those that it handed out to the owner or to a thief.
abbrev pub handed_in : Event → List ℕ
handed_in (Event.pushed x) = x ∷ []
handed_in _ = []

abbrev pub handed_out : Event → List ℕ
handed_out (Event.popped x) = x ∷ []
handed_out (Event.stolen x) = x ∷ []
handed_out _ = []

abbrev pub all_in : List Event → List ℕ
all_in [] = []
all_in (e ∷ tr) = handed_in e ++ all_in tr

abbrev pub all_out : List Event → List ℕ
all_out [] = []
all_out (e ∷ tr) = handed_out e ++ all_out tr

Effect-count :
    (a : ℕ) (e : Event) (l l' : List ℕ)
    → Effect l e l'
    → count a (handed_in e) + count a l ≡ count a (handed_out e) + count a l'
unfolding count
Effect-count a Event.silent l l' h = omega (arith, ap (count a) h)
Effect-count a (Event.pushed x) l l' h = omega (arith, ap (count a) h, count-append a l (x ∷ []))
Effect-count a (Event.push_threw x) l l' h = omega (arith, ap (count a) h)
Effect-count a (Event.popped x) l l' h = omega (arith, ap (count a) h, count-append a l' (x ∷ []))
Effect-count a Event.pop_none l l' h = omega (arith, ap (count a) h.0, ap (count a) h.1)
Effect-count a (Event.stolen x) l l' h = omega (arith, ap (count a) h)
Effect-count a Event.steal_none l l' h = omega (arith, ap (count a) h.0)

-- A deque neither loses nor duplicates a task.
pub Runs-count :
    (a : ℕ) {tr : List Event} {l : List ℕ}
    → Runs tr l
    → count a (all_in tr) ≡ count a (all_out tr) + count a l
unfolding count
Runs-count a none_yet = refl
Runs-count a (then {tr} {e} {l} {l'} r s) = omega (
  arith,
  Runs-count a r,
  Effect-count a e l l' s,
  count-append a (handed_in e) (all_in tr),
  count-append a (handed_out e) (all_out tr),
)
