-- ===== src/CancellationToken.antt =====
-- include/async++/cancel.h: a flag that tells tasks to stop. Each access of the flag is atomic.
use asyncplusplus.Prelude.{Bool, true, false, ◌≡◌, refl, List, [], ◌∷◌, ◌++◌}

pub record CancellationToken : Type 0 where
  pub state : Bool

abbrev pub new_token : CancellationToken
new_token = record { state = false }

abbrev pub is_canceled : CancellationToken → Bool
is_canceled t = t.state

abbrev pub cancel : CancellationToken → CancellationToken
cancel t = record t { state = true }

abbrev pub reset : CancellationToken → CancellationToken
reset t = record t { state = false }

-- How `interruption_point` ends.
pub data Interruption : Type 0 where
  goes_on task_canceled : Interruption

abbrev pub interruption_point : CancellationToken → Interruption
interruption_point t = elim (is_canceled t) [ true ↦ task_canceled | false ↦ goes_on ]

-- What other threads do to the token, one after the other.
pub data Change : Type 0 where
  cancels resets : Change

abbrev pub change : CancellationToken → Change → CancellationToken
change t cancels = cancel t
change t resets = reset t

abbrev pub changes : CancellationToken → List Change → CancellationToken
changes t [] = t
changes t (c ∷ cs) = changes (change t c) cs

-- Whatever happened before, an interruption point throws after `cancel` and not after `reset`.
pub interruption_point-changes :
    (t : CancellationToken) (before : List Change)
    → (interruption_point (changes t (before ++ (cancels ∷ []))) ≡ task_canceled)
      × (interruption_point (changes t (before ++ (resets ∷ []))) ≡ goes_on)
interruption_point-changes t [] = (refl, refl)
interruption_point-changes t (c ∷ cs) = interruption_point-changes (change t c) cs
