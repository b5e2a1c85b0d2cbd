-- ===== src/Parallel/Reduce.antt =====
-- `parallel_map_reduce`: with an associative reduction and its identity the result is that of the
-- sequential loop.
use asyncplusplus.Prelude.{
  ℕ, zero, suc, ◌+◌, ◌-◌, ◌≤◌, ◌<◌, ◌≡◌, ◌≢◌, refl, sym, ap, ap₂, ◌∙◌, arith, ℕ_discrete,
}
use asyncplusplus.Partitioner.Interface.{Partitioner, shorter}

module _ {ℓ} {R : Type ℓ} (map : ℕ → R) (reduce : R → R → R) where
  -- The loop over a range that is not split any more.
  unfoldable pub reduce_loop : R → ℕ → ℕ → R
  reduce_loop out zero i = out
  reduce_loop out (suc rounds) i = reduce_loop (reduce out (map i)) rounds (i + 1)

  loop-append :
      (out : R) (m n i : ℕ)
      → reduce_loop out (m + n) i ≡ reduce_loop (reduce_loop out m i) n (i + m)
  unfolding reduce_loop
  loop-append out zero n i =
      ap₂ (reduce_loop out) {x = 0 + n} {y = n} {u = i} {v = i + 0} (omega arith) (omega arith)
  loop-append out (suc m) n i =
      ap (λ k. reduce_loop out k i) {x = suc m + n} {y = suc (m + n)} (omega arith)
      ∙ loop-append (reduce out (map i)) m n (i + 1)
      ∙ ap (reduce_loop (reduce_loop (reduce out (map i)) m (i + 1)) n) {y = i + suc m}
          (omega arith)

  reduce-loop :
      ((a b c : R) → reduce (reduce a b) c ≡ reduce a (reduce b c))
      → (a out : R) (n i : ℕ) → reduce a (reduce_loop out n i) ≡ reduce_loop (reduce a out) n i
  unfolding reduce_loop
  reduce-loop assoc a out zero i = refl
  reduce-loop assoc a out (suc n) i =
      reduce-loop assoc a (reduce out (map i)) n (i + 1)
      ∙ ap (λ r. reduce_loop r n (i + 1)) (sym (assoc a out (map i)))

  module _ {P : Type 0} (d : Partitioner P) (init : R) where
    open d use {begin, finish, split, IsRange, ordered, kept, given, both}

    -- The loop over what a partitioner keeps when nothing is split off.
    abbrev pub reduce_inline : ℕ → P → R
    reduce_inline t p =
        reduce_loop init (finish (split t p).0 - begin (split t p).0) (begin (split t p).0)

    -- `internal_parallel_map_reduce` and its result; `t` is the thread that makes the split.
    pub data MapReduce : P → R → Type ℓ where
      inline :
          (t : ℕ) {p : P}
          → begin (split t p).1 ≡ finish (split t p).1
          → MapReduce p (reduce_inline t p)
      spawned :
          (t : ℕ) {p : P}
          → begin (split t p).1 ≢ finish (split t p).1
          → {ours theirs : R} → MapReduce (split t p).1 theirs
          → MapReduce (split t p).0 ours
          → MapReduce p (reduce ours theirs)

    -- `internal_parallel_map_reduce` ends, whichever threads make the splits: `choose` says which,
    -- for each partitioner.
    pub MapReduce-total :
        (choose : P → ℕ) (n : ℕ) (p : P)
        → IsRange p
        → finish p - begin p < n
        → (r : R) × MapReduce p r
    MapReduce-total choose zero p r h = absurd (omega arith)
    MapReduce-total choose (suc n) p r h =
        elim (ℕ_discrete (begin (split (choose p) p).1) (finish (split (choose p) p).1)) [
          | yes empty ↦ (_, inline (choose p) empty)
          | no more ↦
              let t = choose p in
              let fewer = shorter d n t p r h more in
              let (theirs, child) =
                MapReduce-total choose n (split t p).1 (given t p r).0 (omega (arith, fewer)) in
              let (ours, rest) =
                MapReduce-total choose n (split t p).0 (kept t p r).0 (omega (arith, fewer)) in
              (_, spawned t more child rest)
        ]

    module _ (assoc : (a b c : R) → reduce (reduce a b) c ≡ reduce a (reduce b c))
        (identity : (a : R) → reduce a init ≡ a) where
      -- Reducing the results of two ranges that lie end to end.
      reduce_halves :
          (b m e : ℕ)
          → b ≤ m
          → m ≤ e
          → reduce (reduce_loop init (m - b) b) (reduce_loop init (e - m) m)
            ≡ reduce_loop init (e - b) b
      reduce_halves b m e bm me =
          reduce-loop assoc (reduce_loop init (m - b) b) init (e - m) m
          ∙ ap (λ a. reduce_loop a (e - m) m) (identity (reduce_loop init (m - b) b))
          ∙ ap (reduce_loop (reduce_loop init (m - b) b) (e - m)) {y = b + (m - b)} (omega arith)
          ∙ sym (loop-append init (m - b) (e - m) b)
          ∙ ap (λ k. reduce_loop init k b) (omega arith)

      -- However the range is split and whichever threads do it, the result is that of one loop
      -- over the range, if the reduction is associative and `init` is an identity on its right.
      pub MapReduce-loop :
          {p : P} {r : R}
          → IsRange p
          → MapReduce p r
          → r ≡ reduce_loop init (finish p - begin p) (begin p)
      MapReduce-loop v (inline t {p} empty) =
          ap₂ (λ b e. reduce_loop init (e - b) b) (kept t p v).1 (omega (arith, given t p v, empty))
      MapReduce-loop v (spawned t {p} more {ours} {theirs} child rest) =
          ap₂ reduce (MapReduce-loop (kept t p v).0 rest) (MapReduce-loop (given t p v).0 child)
          ∙ ap
              (λ m.
                reduce
                  (reduce_loop init (finish (split t p).0 - begin (split t p).0)
                    (begin (split t p).0))
                  (reduce_loop init (finish (split t p).1 - m) m))
              (given t p v).1
          ∙ reduce_halves (begin (split t p).0) (finish (split t p).0) (finish (split t p).1)
              (ordered (split t p).0 (kept t p v).0)
              (omega (arith, ordered (split t p).1 (given t p v).0, given t p v))
          ∙ ap₂ (λ b e. reduce_loop init (e - b) b) (kept t p v).1 (given t p v).2
