-- ===== src/WhenAll/Laws.antt =====
-- The event of `when_all` is set once, when every task has finished.
use asyncplusplus.Prelude.{
  ℕ, suc, ◌+◌, ◌-◌, ◌<◌, ◌^◌, ◌≡◌, ◌⊎◌, inl, inr, refl, ap, ◌∙◌, List, [], ◌∷◌, get_or, length,
  arith,
}
use asyncplusplus.Prelude.Count.{count}
use asyncplusplus.WhenAll.{release_refs, adding, rethrown, World, throws, cleans_up, Reach, later}
use asyncplusplus.WhenAll.Inv.{owned, Destroyed, Slot, Inv, Reach-Inv}

no_elements : (xs : List ℕ) → length xs ≡ 0 → xs ≡ []
no_elements [] e = refl
no_elements (x ∷ xs) e = absurd (omega arith)

-- While no `then` has thrown, the event has not been set as long as a task is missing, and once all
-- have finished it has been set once, to the list of all the tasks in order.
pub event_once :
    (tasks : ℕ → ℕ) (n : ℕ) {w : World}
    → n < 2 ^ 64
    → 0 < n
    → Reach tasks n w
    → w.pc ≡ adding
    → ((0 < length w.waiting + (n - w.next)) × (w.state.sets ≡ []))
      ⊎ ((w.waiting ≡ [])
          × (w.next ≡ n)
          × ((ts : List ℕ) × (w.state.sets ≡ ts ∷ [])
              × (length ts ≡ n)
              × ((j : ℕ) → j < n → get_or ts j 0 ≡ tasks j)))
unfolding count
event_once tasks n {w} lt pos r e =
    let v = Reach-Inv tasks n lt pos r (inl e) in
    let refs : w.state.ref_count ≡ length w.waiting + (n - w.next) =
      v.counted ∙ ap (λ p. length w.waiting + owned p n w.next) e in
    elim v.destroyed [
      | inl (p, s) ↦ inl (omega (arith, p, refs), s)
      | inr (z, s) ↦
          let nothing = no_elements w.waiting (omega (arith, z, refs)) in
          let all : w.next ≡ n = omega (arith, z, refs, v.next_le) in
          inr (
            nothing,
            all,
            (
              w.state.result,
              s,
              v.slots,
              λ j l. stored v nothing (v.added j (omega (arith, l, all))),
            ),
          )
    ]
  where
    stored :
        {j : ℕ}
        → Inv tasks n w
        → w.waiting ≡ []
        → Slot tasks w j
        → get_or w.state.result j 0 ≡ tasks j
    stored {j} v q (inl h) = absurd (omega (arith, h, ap (count j) q))
    stored v q (inr (h, g)) = g

-- When `then` has thrown for a task that is not the last, the shared state is destroyed once all
-- continuations that were added have run, once, and not before.
pub thrown_released :
    (tasks : ℕ → ℕ) (n : ℕ) {w : World}
    → n < 2 ^ 64
    → Reach tasks n w
    → w.pc ≡ rethrown
    → suc w.next < n
    → ((0 < length w.waiting) × (w.state.sets ≡ []))
      ⊎ ((w.waiting ≡ []) × (w.state.sets ≡ w.state.result ∷ []))
thrown_released tasks n {w} lt r e l =
    let v = Reach-Inv tasks n lt (omega arith) r (inr l) in
    let refs : w.state.ref_count ≡ length w.waiting =
      v.counted ∙ ap (λ p. length w.waiting + owned p n w.next) e ∙ omega arith in
    elim v.destroyed [
      | inl (p, s) ↦ inl (omega (arith, p, refs), s)
      | inr (z, s) ↦ inr (no_elements w.waiting (omega (arith, z, refs)), s)
    ]

-- When `then` throws for the last task and the others have finished, the destructor of the shared
-- state runs twice: its last reference goes with the function object, and the catch block then
-- removes no reference from a count that is 0 already.
pub last_throws :
    (tasks : ℕ → ℕ) (n : ℕ) {w : World}
    → n < 2 ^ 64
    → Reach tasks n w
    → w.pc ≡ adding
    → suc w.next ≡ n
    → w.waiting ≡ []
    → (thrown : World) × Reach tasks n thrown
      × (thrown.pc ≡ rethrown)
      × (thrown.state.sets ≡ w.state.result ∷ w.state.result ∷ [])
unfolding release_refs
last_throws tasks n {w} lt r e l q =
    (_, later (later r (throws e (omega arith))) (cleans_up refl), refl, twice)
  where
    v : Inv tasks n w
    v = Reach-Inv tasks n lt (omega arith) r (inl e)

    one : w.state.ref_count ≡ 1
    one = v.counted ∙ ap (λ p. length w.waiting + owned p n w.next) e ∙ omega (arith, ap length q)

    still : Destroyed w.state → w.state.sets ≡ []
    still (inl h) = h.1
    still (inr h) = absurd (omega (arith, h.0, one))

    twice :
        (release_refs (release_refs w.state 1) (n - w.next - 1)).sets
        ≡ w.state.result ∷ w.state.result ∷ []
    twice =
        let none_left : n - w.next - 1 ≡ 0 = omega arith in
        rw (one, none_left) (ap (λ s. w.state.result ∷ w.state.result ∷ s) (still v.destroyed))
