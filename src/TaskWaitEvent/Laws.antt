-- ===== src/TaskWaitEvent/Laws.antt =====
-- What `task_wait_event` promises to the threads that signal it and to the one that waits.
use asyncplusplus.Prelude.{
  inl, inr, Bool-cases, ℕ, zero, suc, ◌<◌, ◌≡◌, ◌==◌, refl, Bool, true, false, not, some, ◌||◌,
  ◌&&◌, arith, bit_and, bit_or, ◌≢◌, sym, ap, ◌∙◌,
}
use asyncplusplus.TaskWaitEvent.{
  WaitType, task_finished, task_available, value, TaskWaitEvent, wait, complement, try_wait, signal,
}

-- Whether an event is pending.
abbrev pub pending : ℕ → WaitType → Bool
pending mask e = not (bit_and mask (value e) == 0)

abbrev pub equal : WaitType → WaitType → Bool
equal task_finished task_finished = true
equal task_available task_available = true
equal task_finished task_available = false
equal task_available task_finished = false

abbrev pub IsMask : ℕ → Type 0
IsMask mask = mask < 4

-- A law of all masks, by its four cases.
by_masks : (P : ℕ → Type 0) → P 0 → P 1 → P 2 → P 3 → (mask : ℕ) → IsMask mask → P mask
by_masks P a b c d zero h = a
by_masks P a b c d (suc zero) h = b
by_masks P a b c d (suc (suc zero)) h = c
by_masks P a b c d (suc (suc (suc zero))) h = d
by_masks P a b c d (suc (suc (suc (suc n)))) h = absurd (omega arith)

abbrev Signalled : WaitType → WaitType → ℕ → Type 0
Signalled e f m =
    (pending (bit_or m (value e)) f ≡ (equal e f || pending m f)) × IsMask (bit_or m (value e))

signalled : (e f : WaitType) (m : ℕ) → IsMask m → Signalled e f m
signalled task_finished task_finished =
    by_masks (Signalled task_finished task_finished) (refl, omega arith) (refl, omega arith)
      (refl, omega arith) (refl, omega arith)
signalled task_finished task_available =
    by_masks (Signalled task_finished task_available) (refl, omega arith) (refl, omega arith)
      (refl, omega arith) (refl, omega arith)
signalled task_available task_finished =
    by_masks (Signalled task_available task_finished) (refl, omega arith) (refl, omega arith)
      (refl, omega arith) (refl, omega arith)
signalled task_available task_available =
    by_masks (Signalled task_available task_available) (refl, omega arith) (refl, omega arith)
      (refl, omega arith) (refl, omega arith)

abbrev Waited : WaitType → WaitType → ℕ → Type 0
Waited e f m =
    (pending (bit_and m (complement (value e))) f ≡ (not (equal e f) && pending m f))
    × IsMask (bit_and m (complement (value e)))

waited : (e f : WaitType) (m : ℕ) → IsMask m → Waited e f m
waited task_finished task_finished =
    by_masks (Waited task_finished task_finished) (refl, omega arith) (refl, omega arith)
      (refl, omega arith) (refl, omega arith)
waited task_finished task_available =
    by_masks (Waited task_finished task_available) (refl, omega arith) (refl, omega arith)
      (refl, omega arith) (refl, omega arith)
waited task_available task_finished =
    by_masks (Waited task_available task_finished) (refl, omega arith) (refl, omega arith)
      (refl, omega arith) (refl, omega arith)
waited task_available task_available =
    by_masks (Waited task_available task_available) (refl, omega arith) (refl, omega arith)
      (refl, omega arith) (refl, omega arith)

-- `signal` makes its event pending, and leaves the other as it was.
pub signal_lem :
    (v : TaskWaitEvent) (e f : WaitType)
    → IsMask v.event_mask
    → (pending (signal v e).event_mask f ≡ (equal e f || pending v.event_mask f))
      × IsMask (signal v e).event_mask
unfolding signal
signal_lem v e f h = signalled e f v.event_mask h

-- `try_wait` tells whether its event was pending, takes it off, and leaves the other as it was.
pub try_wait_lem :
    (v : TaskWaitEvent) (e f : WaitType)
    → IsMask v.event_mask
    → ((try_wait v e).0 ≡ pending v.event_mask e)
      × (pending (try_wait v e).1.event_mask f ≡ (not (equal e f) && pending v.event_mask f))
      × IsMask (try_wait v e).1.event_mask
unfolding try_wait
try_wait_lem v e f h = let (rest, small) = waited e f v.event_mask h in (refl, rest, small)

-- A mask with a pending event is not 0.
not_zero : (e : WaitType) (m : ℕ) → pending m e ≡ true → m ≢ 0
not_zero task_finished m h z =
    let q : false ≡ true = sym (ap (λ k. pending k task_finished) z) ∙ h in absurd cc
not_zero task_available m h z =
    let q : false ≡ true = sym (ap (λ k. pending k task_available) z) ∙ h in absurd cc

pub signal-nonzero :
    (v : TaskWaitEvent) (e : WaitType) → IsMask v.event_mask → (signal v e).event_mask ≢ 0
signal-nonzero v task_finished h =
    not_zero task_finished _ (signal_lem v task_finished task_finished h).0
signal-nonzero v task_available h =
    not_zero task_available _ (signal_lem v task_available task_available h).0

pub wait-returns : (v : TaskWaitEvent) → v.event_mask ≢ 0 → (wait v).0 ≡ some v.event_mask
unfolding wait
wait-returns v ne = elim (Bool-cases (v.event_mask == 0)) [
  | inl e ↦ absurd (ne (ground (arith, e)))
  | inr e ↦ rw e refl
]

abbrev Nonzero : WaitType → ℕ → Type 0
Nonzero e m = (bit_or m (value e) == 0) ≡ false

nonzero : (e : WaitType) (m : ℕ) → IsMask m → Nonzero e m
nonzero task_finished = by_masks (Nonzero task_finished) refl refl refl refl
nonzero task_available = by_masks (Nonzero task_available) refl refl refl refl

-- After a signal `wait` does not sleep: it returns a set with that event and all that were pending,
-- and clears them.
pub signal-wait :
    (v : TaskWaitEvent) (e f : WaitType)
    → IsMask v.event_mask
    → (mask : ℕ) × ((wait (signal v e)).0 ≡ some mask)
      × (pending mask f ≡ (equal e f || pending v.event_mask f))
      × ((wait (signal v e)).1.event_mask ≡ 0)
unfolding wait signal
signal-wait v e f h =
    rw (nonzero e v.event_mask h) (_, refl, (signalled e f v.event_mask h).0, refl)

-- The events are a set that `signal` adds to and `try_wait` tests and takes from, the other event
-- staying as it was; after a signal `wait` does not sleep, and returns and clears the whole set.
pub events_set :
    (v : TaskWaitEvent) (e f : WaitType)
    → IsMask v.event_mask
    → ((pending (signal v e).event_mask f ≡ (equal e f || pending v.event_mask f))
        × IsMask (signal v e).event_mask)
      × (((try_wait v e).0 ≡ pending v.event_mask e)
          × (pending (try_wait v e).1.event_mask f ≡ (not (equal e f) && pending v.event_mask f))
          × IsMask (try_wait v e).1.event_mask)
      × ((mask : ℕ) × ((wait (signal v e)).0 ≡ some mask)
          × (pending mask f ≡ (equal e f || pending v.event_mask f))
          × ((wait (signal v e)).1.event_mask ≡ 0))
events_set v e f h = (signal_lem v e f h, try_wait_lem v e f h, signal-wait v e f h)
