-- ===== src/ThreadPool/WaitersSlots.antt =====
-- The list of sleeping threads keeps its slots, and has one for each thread.
use asyncplusplus.Prelude.{
  ℕ, zero, suc, ◌+◌, ◌≤◌, ◌<◌, ◌≡◌, ◌≢◌, ◌==◌, refl, ap, ◌∙◌, Option, none, some, set, length,
  length-set, arith, ℕ_discrete, inl, inr, Bool-cases,
}
use asyncplusplus.Prelude.Among.{same, among, among-absent, among-le, among-one}
use asyncplusplus.Prelude.Sum.{sum_to, sum_to-none, sum_to-add, sum_to-lt}
use asyncplusplus.Word.{sub_size}
use asyncplusplus.ThreadPool.Waiters.{
  wake_all, Waiters, waiter, join, remove_at, leave_from, leave, wake_one,
}
use asyncplusplus.ThreadPool.WaitersLaws.{sleeping, IsValid, wake_one_lem}

pub length-join : (w : Waiters) (e : ℕ) → length (join w e).waiters ≡ length w.waiters
unfolding join
length-join w e = length-set w.waiters w.num_waiters e

length-remove_at : (w : Waiters) (i : ℕ) → length (remove_at w i).waiters ≡ length w.waiters
unfolding remove_at
length-remove_at w i = elim (Bool-cases (i == sub_size w.num_waiters 1)) [
  | inl e ↦ rw e refl
  | inr e ↦ rw e (
      length-set (set w.waiters i (waiter w (sub_size w.num_waiters 1))) (sub_size w.num_waiters 1)
        (waiter w i)
      ∙ length-set w.waiters i (waiter w (sub_size w.num_waiters 1)))
]

length-leave_from :
    (w : Waiters) (e rounds i : ℕ) → length (leave_from w e rounds i).waiters ≡ length w.waiters
unfolding leave_from
length-leave_from w e zero i = refl
length-leave_from w e (suc rounds) i = elim (Bool-cases (waiter w i == e)) [
  | inl q ↦ rw q (length-remove_at w i)
  | inr q ↦ rw q (length-leave_from w e rounds (i + 1))
]

pub length-leave : (w : Waiters) (e : ℕ) → length (leave w e).waiters ≡ length w.waiters
unfolding leave
length-leave w e = length-leave_from w e w.num_waiters 0

-- What `wake_one` returns for a list `w`.
abbrev pub Woke : Waiters → Option ℕ → Waiters → Type 0
Woke w none w' = (w' ≡ w) × (w.num_waiters ≡ 0)
Woke w (some first) w' =
    IsValid w'
    × (length w'.waiters ≡ length w.waiters)
    × ((a : ℕ) → sleeping w' a + same a first ≡ sleeping w a)

length-wake_one : (w : Waiters) → length (wake_one w).1.waiters ≡ length w.waiters
unfolding wake_one
length-wake_one w = elim (Bool-cases (w.num_waiters == 0)) [ inl e ↦ rw e refl | inr e ↦ rw e refl ]

pub wake_one-Woke : (w : Waiters) → IsValid w → Woke w (wake_one w).0 (wake_one w).1
wake_one-Woke w v = elim (wake_one_lem w v) [
  | inl (z, e) ↦ rw e (refl, z)
  | inr (first, e, valid, off) ↦ rw e (valid, length-wake_one w, off)
]

pub length-wake_all : (w : Waiters) → length (wake_all w).1.waiters ≡ length w.waiters
unfolding wake_all
length-wake_all w = refl

pub wake_all-IsValid : (w : Waiters) → IsValid w → IsValid (wake_all w).1
unfolding wake_all
wake_all-IsValid w v = (omega arith, v.1)

sum_to-same :
    (n x : ℕ) → (x < n → sum_to (λ c. same c x) n ≡ 1) × (n ≤ x → sum_to (λ c. same c x) n ≡ 0)
unfolding sum_to
sum_to-same zero x = (λ lt. absurd (omega arith), λ le. refl)
sum_to-same (suc n) x =
    let (inside, outside) = sum_to-same n x in
    elim (ℕ_discrete n x) [
      | yes e ↦ (λ lt. ground (arith, outside (omega arith), e), λ le. absurd (omega arith))
      | no ne ↦ (
        λ lt. ground (arith, inside (omega arith), ne),
        λ le. ground (arith, outside (omega arith), ne),
      )
    ]

-- Each entry is counted under one number below `n`.
among-classes :
    (f : ℕ → ℕ) (n k i : ℕ)
    → ((j : ℕ) → i ≤ j → j < i + k → f j < n)
    → sum_to (λ c. among f c k i) n ≡ k
unfolding among
among-classes f n zero i h = sum_to-none n
among-classes f n (suc k) i h = omega (
  arith,
  sum_to-add (λ c. same c (f i)) (λ c. among f c k (i + 1)) n,
  (sum_to-same n (f i)).0 (h i (omega arith) (omega arith)),
  among-classes f n k (i + 1) (λ j p q. h j (omega arith) (omega arith)),
)

-- If each of `n` threads is on the list once at most, and one is not on it, there is a free slot.
pub free_slot :
    (class : ℕ → ℕ) (event : ℕ → ℕ) (w : Waiters) (n i : ℕ)
    → i < n
    → ((e : ℕ) → 1 ≤ sleeping w e → (class e < n) × (e ≡ event (class e)) × (class e ≢ i))
    → ((e : ℕ) → sleeping w e ≤ 1)
    → w.num_waiters < n
unfolding sleeping
free_slot class event w n i lt known once = omega (
  arith,
  among-classes entry n w.num_waiters 0 (λ j p q. (listed j q).0),
  (sum_to-lt (λ c. among entry c w.num_waiters 0) n i one_each).1 lt none_here,
)
  where
    entry : ℕ → ℕ
    entry j = class (waiter w j)

    listed :
        (j : ℕ)
        → j < 0 + w.num_waiters
        → (entry j < n) × (waiter w j ≡ event (entry j)) × (entry j ≢ i)
    listed j q = known (waiter w j) (among-one (waiter w) j w.num_waiters 0 (omega arith) q)

    one_each : (c : ℕ) → c < n → among entry c w.num_waiters 0 ≤ 1
    one_each c p = omega (
      arith,
      among-le entry (waiter w) c (event c) w.num_waiters 0
          (λ j a q e. (listed j q).1 ∙ ap event e),
      once (event c),
    )

    none_here : among entry i w.num_waiters 0 ≡ 0
    none_here = among-absent entry i w.num_waiters 0 (λ j q. (listed j q).2)
