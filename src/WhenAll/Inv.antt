-- ===== src/WhenAll/Inv.antt =====
-- What holds between the steps of `when_all`: its count is that of the references there are.
use asyncplusplus.Prelude.{
  ℕ, suc, ◌+◌, ◌-◌, ◌≤◌, ◌<◌, ◌^◌, ◌≡◌, ◌≢◌, ◌⊎◌, inl, inr, refl, sym, ap, ◌∙◌, List, [], ◌∷◌, ◌++◌,
  set, get_or, length, length-append, length-set, length-replicate, get_or-set_self, get_or-set_ne,
  arith, ℕ_discrete,
}
use mathlib.Core.Path.{subst}
use asyncplusplus.Prelude.Count.{count, count-append}
use asyncplusplus.Prelude.Among.{same, same_self, eq-true, eq-false}
use asyncplusplus.WhenAll.{
  WhenAllState, release_refs, store_task, run_func, Pc, adding, caught, rethrown, World, begin_loop,
  Step, adds, throws, cleans_up, runs, Reach, begin, later,
}

-- The references that the caller owns, for the tasks that it has yet to add continuations to.
abbrev pub owned : Pc → ℕ → ℕ → ℕ
owned adding n next = n - next
owned caught n next = n - next - 1
owned rethrown n next = 0

-- The loop has not stopped at the last task.
abbrev pub Fine : ℕ → World → Type 0
Fine n w = (w.pc ≡ adding) ⊎ (suc w.next < n)

-- The state is destroyed once its count is 0.
abbrev pub Destroyed : WhenAllState → Type 0
Destroyed s = ((0 < s.ref_count) × (s.sets ≡ [])) ⊎ ((s.ref_count ≡ 0) × (s.sets ≡ s.result ∷ []))

-- The continuation has yet to run, or has stored its task.
abbrev pub Slot : (ℕ → ℕ) → World → ℕ → Type 0
Slot tasks w j =
    (count j w.waiting ≡ 1) ⊎ ((count j w.waiting ≡ 0) × (get_or w.state.result j 0 ≡ tasks j))

pub record Inv (tasks : ℕ → ℕ) (n : ℕ) (w : World) : Type 0 where
  pub counted : w.state.ref_count ≡ length w.waiting + owned w.pc n w.next
  pub next_le : w.next ≤ n
  pub small : w.state.ref_count < 2 ^ 64
  pub destroyed : Destroyed w.state
  pub slots : length w.state.result ≡ n
  pub added : (j : ℕ) → j < w.next → Slot tasks w j
  pub not_added : (j : ℕ) → w.next ≤ j → count j w.waiting ≡ 0

-- A state that is not destroyed loses some of its references.
release-Destroyed :
    (s : WhenAllState) (k : ℕ)
    → 1 ≤ k
    → k ≤ s.ref_count
    → s.ref_count < 2 ^ 64
    → Destroyed s
    → Destroyed (release_refs s k) × ((release_refs s k).ref_count ≡ s.ref_count - k)
unfolding release_refs
release-Destroyed s k pos le small (inr (z, e)) = absurd (omega arith)
release-Destroyed s k pos le small (inl (p, e)) = elim (ℕ_discrete s.ref_count k) [
  | yes q ↦ rw (eq-true q) (inr (omega arith, ap (λ l. s.result ∷ l) e), omega arith)
  | no ne ↦ rw (eq-false ne) (inl (omega arith, e), omega arith)
]

store-Destroyed :
    (s : WhenAllState) (j t : ℕ) → 0 < s.ref_count → Destroyed s → Destroyed (store_task s j t)
store-Destroyed s j t pos (inl h) = inl h
store-Destroyed s j t pos (inr (z, e)) = absurd (omega arith)

module _ (tasks : ℕ → ℕ) (n : ℕ) {w : World} (v : Inv tasks n w) where
  adds-Inv :
      w.pc ≡ adding
      → w.next < n
      → Inv tasks n (record w { next = suc w.next; waiting = w.next ∷ w.waiting })
  unfolding count
  adds-Inv e lt = record {
    counted =
        omega (arith, v.counted, ap (λ p. owned p n w.next) e, ap (λ p. owned p n (suc w.next)) e);
    next_le = omega arith;
    small = v.small;
    destroyed = v.destroyed;
    slots = v.slots;
    added = λ j l. elim (ℕ_discrete j w.next) [
      | yes q ↦ inl (omega (arith, v.not_added j (omega arith), ap (same j) (sym q), same_self j))
      | no ne ↦ rw (eq-false ne) (elim (v.added j (omega arith)) [
        | inl h ↦ inl (omega (arith, h))
        | inr (h, g) ↦ inr (omega (arith, h), g)
      ])
    ];
    not_added = λ j l.
        rw (eq-false {a = j} {b = w.next} (λ q. omega arith))
          (omega (arith, v.not_added j (omega arith)));
  }

  release-Inv :
      (k : ℕ) (pc : Pc)
      → 1 ≤ k
      → owned w.pc n w.next ≡ owned pc n w.next + k
      → Inv tasks n (record w { pc = pc; state = release_refs w.state k })
  unfolding release_refs
  release-Inv k pc pos e =
      let (d, c) =
        release-Destroyed w.state k pos (omega (arith, v.counted, e)) v.small v.destroyed in
      record {
        counted = omega (arith, c, v.counted, e);
        next_le = v.next_le;
        small = omega (arith, c, v.small);
        destroyed = d;
        slots = v.slots;
        added = v.added;
        not_added = v.not_added;
      }

  module _ (left : List ℕ) (j : ℕ) (right : List ℕ) (e : w.waiting ≡ left ++ (j ∷ right)) where
    split_count : (a : ℕ) → count a w.waiting ≡ count a (left ++ right) + same a j
    unfolding count
    split_count a =
        omega (arith, ap (count a) e, count-append a left (j ∷ right), count-append a left right)

    index_lt : j < w.next
    index_lt = elim (ℕ_discrete (w.next - j) 0) [
      | yes q ↦ absurd (omega (arith, v.not_added j (omega arith), split_count j, same_self j))
      | no ne ↦ omega arith
    ]

    split_length : length w.waiting ≡ suc (length (left ++ right))
    split_length =
        omega (arith, ap length e, length-append left (j ∷ right), length-append left right)

    runs-Inv :
        Inv tasks n (record w { state = run_func w.state j (tasks j); waiting = left ++ right })
    unfolding run_func release_refs
    runs-Inv =
        let pos : 0 < w.state.ref_count = omega (arith, v.counted, split_length) in
        let (d, c) =
          release-Destroyed (store_task w.state j (tasks j)) 1 (omega arith) pos v.small
            (store-Destroyed w.state j (tasks j) pos v.destroyed) in
        record {
          counted = omega (arith, c, v.counted, split_length);
          next_le = v.next_le;
          small = omega (arith, c, v.small);
          destroyed = d;
          slots = length-set w.state.result j (tasks j) ∙ v.slots;
          added = λ a l. elim (ℕ_discrete a j) [
            | yes q ↦ inr (
              own a q,
              subst (λ k. get_or (set w.state.result j (tasks j)) k 0 ≡ tasks k) (sym q)
                  (get_or-set_self w.state.result j (tasks j) 0
                    (omega (arith, v.slots, index_lt, v.next_le))),
            )
            | no ne ↦ other a ne (v.added a l)
          ];
          not_added = λ a l. omega (arith, split_count a, v.not_added a l);
        }
      where
        own : (a : ℕ) → a ≡ j → count a (left ++ right) ≡ 0
        own a q = elim (v.added a (omega (arith, q, index_lt))) [
          | inl h ↦ omega (arith, h, split_count a, ap (same a) (sym q), same_self a)
          | inr (h, g) ↦ absurd (omega (arith, h, split_count a, ap (same a) (sym q), same_self a))
        ]

        other :
            (a : ℕ)
            → a ≢ j
            → Slot tasks w a
            → (count a (left ++ right) ≡ 1)
              ⊎ ((count a (left ++ right) ≡ 0)
                  × (get_or (set w.state.result j (tasks j)) a 0 ≡ tasks a))
        other a ne (inl h) = inl (let s = split_count a in ground (arith, s, h, ne))
        other a ne (inr (h, g)) = inr (
          omega (arith, split_count a, h),
          get_or-set_ne w.state.result j a (tasks j) 0 (λ z. ne (sym z)) ∙ g,
        )

module _ (tasks : ℕ → ℕ) (n : ℕ) where
  begin-Inv : n < 2 ^ 64 → 0 < n → Inv tasks n (begin_loop n)
  unfolding count
  begin-Inv lt pos = record {
    counted = omega arith;
    next_le = omega arith;
    small = lt;
    destroyed = inl (pos, refl);
    slots = length-replicate n 0;
    added = λ j l. absurd (omega arith);
    not_added = λ j l. refl;
  }

  Step-Inv : {w w' : World} → Fine n w' → Inv tasks n w → Step tasks n w w' → Inv tasks n w'
  Step-Inv f v (adds e lt) = adds-Inv tasks n v e lt
  Step-Inv {w} f v (throws e lt) =
      release-Inv tasks n v 1 caught (omega arith) (ap (λ p. owned p n w.next) e ∙ omega arith)
  Step-Inv {w} (inl z) v (cleans_up e) = absurd cc
  Step-Inv {w} (inr l) v (cleans_up e) =
      release-Inv tasks n v (n - w.next - 1) rethrown (omega arith)
        (ap (λ p. owned p n w.next) e ∙ omega arith)
  Step-Inv f v (runs left j right e) = runs-Inv tasks n v left j right e

  Step-Fine : {w w' : World} → Fine n w' → Step tasks n w w' → Fine n w
  Step-Fine f (adds e lt) = inl e
  Step-Fine f (throws e lt) = inl e
  Step-Fine (inl z) (cleans_up e) = absurd cc
  Step-Fine (inr l) (cleans_up e) = inr l
  Step-Fine (inl z) (runs left j right e) = inl z
  Step-Fine (inr l) (runs left j right e) = inr l

  pub Reach-Inv : {w : World} → n < 2 ^ 64 → 0 < n → Reach tasks n w → Fine n w → Inv tasks n w
  Reach-Inv lt pos begin f = begin-Inv lt pos
  Reach-Inv lt pos (later r s) f = Step-Inv f (Reach-Inv lt pos r (Step-Fine f s)) s
