-- ===== src/AlignedArray/Lifetime.antt =====
-- How often the elements of an `aligned_array` are constructed and destroyed.
use asyncplusplus.Prelude.{
  ℕ, zero, suc, ◌+◌, ◌≤◌, ◌<◌, ◌≡◌, ◌==◌, refl, ap, Bool, true, false, none, some, if◌then◌else◌,
  arith, ℕ_discrete, ◌∙◌,
}
use asyncplusplus.Prelude.Count.{count}
use asyncplusplus.Prelude.Ranges.{inside}
use asyncplusplus.AlignedArray.{build_from, unwind, construct, finish, destroy_from, destruct}

-- Without an exception the loop constructs each element from `i` on once.
build_from-all :
    (throws : ℕ → Bool) (rounds i : ℕ)
    → ((j : ℕ) → i ≤ j → j < i + rounds → throws j ≡ false)
    → (e : ℕ) → e ≡ i + rounds
    → ((build_from throws rounds i).1 ≡ none)
      × ((j : ℕ) → count j (build_from throws rounds i).0 ≡ inside i e j)
unfolding build_from count inside
build_from-all throws zero i h e p = (refl, λ j. ground arith)
build_from-all throws (suc rounds) i h e p =
    let ih =
      build_from-all throws rounds (i + 1) (λ j q r. h j (omega arith) (omega arith)) e
        (omega arith) in
    rw (h i (omega arith) (omega arith)) (ih.0, λ j. ground (arith, ih.1 j, p))

-- The loop stops at the first element that throws, `k`, all those before it constructed.
build_from-until :
    (throws : ℕ → Bool) (k rounds i : ℕ)
    → i ≤ k
    → k < i + rounds
    → throws k ≡ true
    → ((j : ℕ) → i ≤ j → j < k → throws j ≡ false)
    → ((build_from throws rounds i).1 ≡ some k)
      × ((j : ℕ) → count j (build_from throws rounds i).0 ≡ inside i k j)
unfolding build_from count inside
build_from-until throws k zero i le lt bad good = absurd (omega arith)
build_from-until throws k (suc rounds) i le lt bad good = elim (ℕ_discrete i k) [
  | yes e ↦ rw (ap throws e ∙ bad) (ap some e, λ j. ground (arith, e))
  | no ne ↦
      let ih =
        build_from-until throws k rounds (i + 1) (omega arith) (omega arith) bad
          (λ j p q. good j (omega arith) q) in
      rw (good i (omega arith) (omega arith)) (ih.0, λ j. ground (arith, ih.1 j))
]

count-destroy_from : (j n i e : ℕ) → e ≡ i + n → count j (destroy_from n i) ≡ inside i e j
unfolding destroy_from count inside
count-destroy_from j zero i e p = ground arith
count-destroy_from j (suc n) i e p = ground (arith, count-destroy_from j n (i + 1) e (omega arith))

count-unwind : (j n i : ℕ) → count j (unwind n i) ≡ (if j == i then n else 0)
unfolding unwind count
count-unwind j zero i = ground arith
count-unwind j (suc n) i = ground (arith, count-unwind j n i)

-- If no constructor throws, the array is made, and until the destructor has run each element has
-- been constructed once and destroyed once, and the storage freed once.
pub construct-destruct :
    (throws : ℕ → Bool) (length : ℕ)
    → ((j : ℕ) → j < length → throws j ≡ false)
    → ((construct throws length).1 ≡ none)
      × ((j : ℕ) → count j (construct throws length).0.built ≡ inside 0 length j)
      × ((j : ℕ)
          → count j (construct throws length).0.destroyed + count j (destruct length).destroyed
            ≡ inside 0 length j)
      × ((construct throws length).0.freed + (destruct length).freed ≡ 1)
unfolding construct finish destruct count
construct-destruct throws length h =
    let all = build_from-all throws length 0 (λ j p q. h j (omega arith)) length (omega arith) in
    rw all.0
      (refl, all.1, λ j. omega (arith, count-destroy_from j length 0 length (omega arith)), refl)

-- If the constructor of element `k` is the first to throw, the array's constructor throws and frees
-- the storage once, and each element before `k` was constructed once. But none of those is
-- destroyed: element `k`, which was never constructed, is destroyed `k` times instead.
pub construct-throws :
    (throws : ℕ → Bool) (length k : ℕ)
    → k < length
    → throws k ≡ true
    → ((j : ℕ) → j < k → throws j ≡ false)
    → ((construct throws length).1 ≡ some k)
      × ((construct throws length).0.freed ≡ 1)
      × ((j : ℕ) → count j (construct throws length).0.built ≡ inside 0 k j)
      × ((j : ℕ) → count j (construct throws length).0.destroyed ≡ (if j == k then k else 0))
unfolding construct finish
construct-throws throws length k lt bad good =
    let until =
      build_from-until throws k length 0 (omega arith) (omega arith) bad (λ j p q. good j q) in
    rw until.0 (refl, refl, until.1, λ j. count-unwind j k k)
