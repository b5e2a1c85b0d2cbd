-- ===== src/ThreadPool/WaitersLaws.antt =====
-- The list of sleeping threads is a bag: how often each thread is in it.
use asyncplusplus.Prelude.{
  ℕ, zero, suc, ◌+◌, ◌-◌, ◌≤◌, ◌<◌, ◌^◌, ◌≡◌, ◌≢◌, refl, sym, ap, ◌∙◌, List, none, some, get_or,
  set, length, length-set, get_or-set_self, get_or-set_ne, arith, ℕ_discrete, inl, inr, ◌⊎◌,
}
use asyncplusplus.Prelude.Count.{count}
use asyncplusplus.Prelude.Among.{
  same, eq-true, eq-false, among, among-congr, among-last, among-change, among-absent,
}
use asyncplusplus.Word.{add_size, sub_size}
use asyncplusplus.ThreadPool.Waiters.{
  Waiters, waiter, join, remove_at, leave_from, leave, wake_one, signal_from, wake_all,
}

unfoldable pub sleeping : Waiters → ℕ → ℕ
unfolding among
sleeping w a = among (waiter w) a w.num_waiters 0

-- There is a slot for each thread on the list.
abbrev pub IsValid : Waiters → Type 0
IsValid w = (w.num_waiters ≤ length w.waiters) × (length w.waiters < 2 ^ 64)

-- Joining puts the thread on the list once more.
pub join_lem :
    (w : Waiters) (event : ℕ)
    → IsValid w
    → w.num_waiters < length w.waiters
    → IsValid (join w event) × ((a : ℕ) → sleeping (join w event) a ≡ sleeping w a + same a event)
unfolding join sleeping
join_lem w event v lt = (
  omega (arith, length-set w.waiters n event),
  λ a.
      ap (λ k. among f' a k 0) {x = add_size n 1} {y = suc n} (omega arith)
      ∙ omega (
        arith,
        among-last f' a n 0,
        ap (same a) at_end,
        among-congr f' f a n 0 (λ j p q. below j (omega arith)),
      ),
)
  where
    n : ℕ
    n = w.num_waiters

    f : ℕ → ℕ
    f = waiter w

    f' : ℕ → ℕ
    f' i = get_or (set w.waiters n event) i 0

    at_end : f' (0 + n) ≡ event
    at_end = ap f' {x = 0 + n} {y = n} (omega arith) ∙ get_or-set_self w.waiters n event 0 lt

    below : (j : ℕ) → j < n → f' j ≡ f j
    below j q = get_or-set_ne w.waiters n j event 0 (λ e. omega arith)

-- Removing the thread in slot `i`, with the last thread moved there.
module _ (w : Waiters) (i m : ℕ) (v : IsValid w) (num : w.num_waiters ≡ suc m) (le : i ≤ m) where
  last_slot : sub_size w.num_waiters 1 ≡ m
  last_slot = omega arith

  abbrev moved : List ℕ
  moved = set (set w.waiters i (waiter w m)) m (waiter w i)

  moved-i : i ≢ m → get_or moved i 0 ≡ waiter w m
  moved-i ne =
      get_or-set_ne (set w.waiters i (waiter w m)) m i (waiter w i) 0 (λ e. ne (sym e))
      ∙ get_or-set_self w.waiters i (waiter w m) 0 (omega arith)

  moved-j : (j : ℕ) → j ≢ i → j ≢ m → get_or moved j 0 ≡ waiter w j
  moved-j j p q =
      get_or-set_ne (set w.waiters i (waiter w m)) m j (waiter w i) 0 (λ e. q (sym e))
      ∙ get_or-set_ne w.waiters i j (waiter w m) 0 (λ e. p (sym e))

  among-moved :
      (a : ℕ)
      → i ≢ m
      → among (λ j. get_or moved j 0) a m 0 + same a (waiter w i) ≡ among (waiter w) a (suc m) 0
  among-moved a ne = omega (
    arith,
    among-change (λ j. get_or moved j 0) (waiter w) a i m 0 (omega arith) (omega arith)
        (λ j p q. moved-j j p (omega arith)),
    ap (same a) (moved-i ne),
    among-last (waiter w) a m 0,
    ap (λ k. same a (waiter w k)) {x = 0 + m} {y = m} (omega arith),
  )

  remove_at_lem : (a : ℕ) → sleeping (remove_at w i) a + same a (waiter w i) ≡ sleeping w a
  unfolding sleeping remove_at
  remove_at_lem a = elim (ℕ_discrete i m) [
    | yes e ↦
        rw (last_slot, num, eq-true e)
          (omega (
            arith,
            among-last (waiter w) a m 0,
            ap (λ k. same a (waiter w k)) {x = 0 + m} {y = i} (omega arith),
          ))
    | no ne ↦ rw (last_slot, num, eq-false ne) (among-moved a ne)
  ]

  remove_at-IsValid : IsValid (remove_at w i)
  unfolding remove_at
  remove_at-IsValid = elim (ℕ_discrete i m) [
    | yes e ↦ rw (last_slot, eq-true e) (omega arith)
    | no ne ↦
        rw (last_slot, eq-false ne)
          (omega (
            arith,
            length-set (set w.waiters i (waiter w m)) m (waiter w i),
            length-set w.waiters i (waiter w m),
          ))
  ]

-- If a thread is not on the list, taking it off changes nothing.
sleeping-absent :
    (w : Waiters) (event a : ℕ)
    → ((j : ℕ) → j < w.num_waiters → waiter w j ≢ event)
    → sleeping w a ≡ sleeping w a - same a event
unfolding sleeping
sleeping-absent w event a h = elim (ℕ_discrete a event) [
  | yes e ↦
      omega (arith, among-absent (waiter w) a w.num_waiters 0 (λ j p q. h j (omega arith) (q ∙ e)))
  | no ne ↦ rw (eq-false ne) (omega arith)
]

-- A thread that leaves is once less on the list, if `schedule` has not taken it off; nothing
-- happens to the others.
leave_from_lem :
    (w : Waiters) (event rounds i : ℕ)
    → IsValid w
    → w.num_waiters ≡ i + rounds
    → ((j : ℕ) → j < i → waiter w j ≢ event)
    → IsValid (leave_from w event rounds i)
      × ((a : ℕ) → sleeping (leave_from w event rounds i) a ≡ sleeping w a - same a event)
unfolding leave_from sleeping
leave_from_lem w event zero i v e none_before =
    (v, λ a. sleeping-absent w event a (λ j p. none_before j (omega arith)))
leave_from_lem w event (suc rounds) i v e none_before = elim (ℕ_discrete (waiter w i) event) [
  | yes found ↦ rw (eq-true found) (
    remove_at-IsValid w i (i + rounds) v (omega arith) (omega arith),
    λ a.
        omega (
          arith,
          remove_at_lem w i (i + rounds) v (omega arith) (omega arith) a,
          ap (same a) found,
        ),
  )
  | no other ↦ rw (eq-false other) (
      leave_from_lem w event rounds (i + 1) v (omega arith) (λ j p. elim (ℕ_discrete j i) [
        | yes here ↦ λ q. other (ap (waiter w) (sym here) ∙ q)
        | no earlier ↦ none_before j (omega arith)
      ]))
]

-- A thread that leaves the list after it has woken up is on it once less than before, or is not on
-- it, if `schedule` has taken it off; the other threads stay as they were.
pub leave_lem :
    (w : Waiters) (event : ℕ)
    → IsValid w
    → IsValid (leave w event) × ((a : ℕ) → sleeping (leave w event) a ≡ sleeping w a - same a event)
unfolding leave
leave_lem w event v =
    leave_from_lem w event w.num_waiters 0 v (omega arith) (λ j p. absurd (omega arith))

-- `schedule` wakes nobody only if nobody sleeps; else the thread that it signals is on the list
-- once less, and the others stay.
pub wake_one_lem :
    (w : Waiters)
    → IsValid w
    → ((w.num_waiters ≡ 0) × (wake_one w ≡ (none, w)))
      ⊎ ((event : ℕ) × ((wake_one w).0 ≡ some event)
          × IsValid (wake_one w).1
          × ((a : ℕ) → sleeping (wake_one w).1 a + same a event ≡ sleeping w a))
unfolding wake_one sleeping
wake_one_lem w v = elim (ℕ_discrete w.num_waiters 0) [
  | yes e ↦ inl (e, rw (eq-true e) refl)
  | no ne ↦
      let m = w.num_waiters - 1 in
      inr (
        waiter w m,
        rw (eq-false ne, sub_one ne) refl,
        rw (eq-false ne, sub_one ne) (omega arith),
        λ a.
            rw (eq-false ne, sub_one ne)
              (omega (
                arith,
                among-last (waiter w) a m 0,
                ap (λ k. among (waiter w) a k 0) {x = w.num_waiters} {y = suc m} (omega arith),
                ap (λ k. same a (waiter w k)) {x = 0 + m} {y = m} (omega arith),
              )),
      )
]
  where
    sub_one : w.num_waiters ≢ 0 → sub_size w.num_waiters 1 ≡ w.num_waiters - 1
    sub_one ne = omega arith

count-signal_from : (w : Waiters) (a n i : ℕ) → count a (signal_from w n i) ≡ among (waiter w) a n i
unfolding signal_from among count
count-signal_from w a zero i = refl
count-signal_from w a (suc n) i =
    ap (λ k. same a (waiter w i) + k) (count-signal_from w a n (i + 1))

-- The destructor of the pool signals each sleeping thread as often as it is on the list, and leaves
-- the list empty.
pub wake_all_lem :
    (w : Waiters) (a : ℕ)
    → (count a (wake_all w).0 ≡ sleeping w a) × (sleeping (wake_all w).1 a ≡ 0)
unfolding wake_all sleeping among
wake_all_lem w a = (count-signal_from w a w.num_waiters 0, refl)

-- A thread that leaves is on the list once less, or is not on it; `schedule` takes the thread that
-- it signals off once, and nobody only if nobody sleeps; the destructor signals each thread as
-- often as it is on the list and leaves the list empty. The other threads stay on it.
pub woken_leave :
    (w : Waiters) (event a : ℕ)
    → IsValid w
    → (IsValid (leave w event) × (sleeping (leave w event) a ≡ sleeping w a - same a event))
      × (((w.num_waiters ≡ 0) × (wake_one w ≡ (none, w)))
          ⊎ ((first : ℕ) × ((wake_one w).0 ≡ some first)
              × IsValid (wake_one w).1
              × (sleeping (wake_one w).1 a + same a first ≡ sleeping w a)))
      × ((count a (wake_all w).0 ≡ sleeping w a) × (sleeping (wake_all w).1 a ≡ 0))
woken_leave w event a v =
    let (valid, left) = leave_lem w event v in
    (
      (valid, left a),
      elim (wake_one_lem w v) [
        | inl nobody ↦ inl nobody
        | inr (first, e, ok, off) ↦ inr (first, e, ok, off a)
      ],
      wake_all_lem w a,
    )
