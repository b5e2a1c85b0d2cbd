-- ===== src/WorkStealQueue/Linear.antt =====
-- What linearizability of the deque means: calls begin and end as the threads go on, and each takes
-- effect at one moment between, on a plain double-ended list.
use asyncplusplus.Prelude.{ℕ, suc, ◌≡◌, List, [], ◌∷◌, ◌++◌, update}
use asyncplusplus.Memory.{Memory}
use asyncplusplus.WorkStealQueue.Deque.{Event}
use asyncplusplus.WorkStealQueue.Moves.{OwnerPc, ThiefPc}
use asyncplusplus.WorkStealQueue.System.{System, Step, own, thieve, Reach, start, later}

-- The owner is thread 0, thief `i` is thread `suc i`. An attempt of `steal` that fails and starts
-- again ends with `silent`.
pub data Action : Type 0 where
  begins : (thread : ℕ) → Action
  ends : (thread : ℕ) (e : Event) → Action

pub data Status : Type 0 where
  out : Status
  called : Status  -- the call has not taken effect
  done : (e : Event) → Status  -- it has, and will end with this event

-- A double-ended list: only from an empty one do `pop` and `steal` come back empty.
abbrev pub Plain : List ℕ → Event → List ℕ → Type 0
Plain l Event.silent l' = l' ≡ l
Plain l (Event.pushed x) l' = l' ≡ l ++ (x ∷ [])
Plain l (Event.push_threw x) l' = l' ≡ l
Plain l (Event.popped x) l' = l ≡ l' ++ (x ∷ [])
Plain l Event.pop_none l' = (l ≡ []) × (l' ≡ [])
Plain l (Event.stolen x) l' = l ≡ x ∷ l'
Plain l Event.steal_none l' = (l ≡ []) × (l' ≡ [])

-- The actions, the newest first, that threads make over such a list, with the list and the threads'
-- calls after them.
pub data Linear : List Action → List ℕ → (ℕ → Status) → Type 0 where
  nothing : Linear [] [] (λ i. out)
  begin :
      {tr : List Action} {l : List ℕ} {st : ℕ → Status} (i : ℕ)
      → Linear tr l st
      → st i ≡ out
      → Linear (begins i ∷ tr) l (update st i called)
  takes_effect :
      {tr : List Action} {l l' : List ℕ} {st : ℕ → Status} (i : ℕ) (e : Event)
      → Linear tr l st
      → st i ≡ called
      → Plain l e l'
      → Linear tr l' (update st i (done e))
  end :
      {tr : List Action} {l : List ℕ} {st : ℕ → Status} (i : ℕ) (e : Event)
      → Linear tr l st
      → st i ≡ done e
      → Linear (ends i e ∷ tr) l (update st i out)

-- The actions of a step, by where it starts and its event.
abbrev ended : ℕ → Event → List Action
ended i Event.silent = []
ended i (Event.pushed x) = ends i (Event.pushed x) ∷ []
ended i (Event.push_threw x) = ends i (Event.push_threw x) ∷ []
ended i (Event.popped x) = ends i (Event.popped x) ∷ []
ended i Event.pop_none = ends i Event.pop_none ∷ []
ended i (Event.stolen x) = ends i (Event.stolen x) ∷ []
ended i Event.steal_none = ends i Event.steal_none ∷ []

abbrev pub owner_actions : OwnerPc → Event → List Action
owner_actions OwnerPc.idle e = ended 0 e ++ (begins 0 ∷ [])
owner_actions _ e = ended 0 e

abbrev pub thief_actions : ℕ → ThiefPc → Event → List Action
thief_actions i ThiefPc.waiting e = begins (suc i) ∷ []
thief_actions i (ThiefPc.got_item t x) e = ends (suc i) e ∷ []
thief_actions i _ e = ended (suc i) e

abbrev pub actions : {m : Memory} {s t : System} {e : Event} → Step m s e t → List Action
actions {s} {e = e} (own mv) = owner_actions s.owner e
actions {s} {e = e} (thieve i mv) = thief_actions i (s.thieves i) e

-- The actions of a run of the deque.
abbrev pub history :
    {m : Memory} {xs : List ℕ} {tr : List Event} {s : System} → Reach m xs tr s → List Action
history start = []
history (later r st) = actions st ++ history r
