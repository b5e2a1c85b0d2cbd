-- ===== src/Parallel/For.antt =====
-- `parallel_for`: the function is called once for each position, in some order, and an exception of
-- one call comes out.
use asyncplusplus.Prelude.{
  ℕ, zero, suc, ◌+◌, ◌-◌, ◌<◌, ◌≡◌, ◌≢◌, refl, List, [], ◌∷◌, Option, none, some, Bool,
  if◌then◌else◌, arith, Bool-cases, inl, inr, ℕ_discrete, ap, ◌∙◌,
}
use asyncplusplus.Prelude.Count.{count}
use asyncplusplus.Partitioner.Interface.{Partitioner, shorter}
use asyncplusplus.Parallel.Covers.{join, Covers, Covers-cast, Covers-join}
use asyncplusplus.Parallel.Interleave.{Interleave, Interleave-append}
use asyncplusplus.Prelude.Ranges.{inside}

-- The loop over a range that is not split any more. A call of the function at position `i` throws
-- if `throws i`. The result is the calls made, and where the exception that ends the loop is from.
unfoldable pub for_each : (ℕ → Bool) → ℕ → ℕ → List ℕ × Option ℕ
for_each throws zero i = ([], none)
for_each throws (suc rounds) i =
    let later = for_each throws rounds (i + 1) in
    if throws i then (i ∷ [], some i) else (i ∷ later.0, later.1)

module _ {P : Type 0} (d : Partitioner P) (throws : ℕ → Bool) where
  open d use {begin, finish, split, IsRange}

  -- The loop over what a partitioner keeps when nothing is split off.
  abbrev pub run_inline : ℕ → P → List ℕ × Option ℕ
  run_inline t p =
      for_each throws (finish (split t p).0 - begin (split t p).0) (begin (split t p).0)

  -- `internal_parallel_for`, with the calls of the function in the order in which they happen. The
  -- split is made by the thread `t` that runs it, whichever that is.
  pub data ParallelFor : P → List ℕ → Option ℕ → Type 0 where
    inline :
        (t : ℕ) {p : P}
        → begin (split t p).1 ≡ finish (split t p).1
        → ParallelFor p (run_inline t p).0 (run_inline t p).1
    spawned :
        (t : ℕ) {p : P}
        → begin (split t p).1 ≢ finish (split t p).1
        → {theirs ours calls : List ℕ} {their_thrown our_thrown : Option ℕ}
        → ParallelFor (split t p).1 theirs their_thrown
        → ParallelFor (split t p).0 ours our_thrown
        → Interleave ours theirs calls
        → ParallelFor p calls (join our_thrown their_thrown)

for_each-Covers :
    (throws : ℕ → Bool) (rounds i : ℕ)
    → Covers throws i (i + rounds) (for_each throws rounds i).0 (for_each throws rounds i).1
unfolding for_each count inside
for_each-Covers throws zero i = record {
  most = λ j. omega arith;
  all = λ e j. ground arith;
  clean = λ e j h. ground arith;
  blame = λ x e. absurd (cc e);
}
for_each-Covers throws (suc rounds) i = elim (Bool-cases (throws i)) [
  | inl bad ↦ rw bad record {
    most = λ j. ground arith;
    all = λ e j. absurd (cc e);
    clean = λ e j h. absurd (cc e);
    blame = λ x e. ground arith;
  }
  | inr good ↦
      let ih = for_each-Covers throws rounds (i + 1) in
      rw good record {
        most = λ j. ground (arith, ih.most j);
        all = λ e j. ground (arith, ih.all e j);
        clean = λ e j h. elim (ℕ_discrete j i) [
          | yes same ↦ ap throws same ∙ good
          | no ne ↦ ih.clean e j (ground arith)
        ];
        blame = λ x e. ground (arith, ih.blame x e);
      }
]

module _ {P : Type 0} (d : Partitioner P) (throws : ℕ → Bool) where
  open d use {begin, finish, split, IsRange, ordered, kept, given, both}

  -- Whatever the partitioner, the threads and the order of the calls: no position is called twice;
  -- if no exception comes out, each position of the range is called exactly once, and none of the
  -- calls threw; and an exception that comes out is that of a call in the range.
  pub ParallelFor-Covers :
      {p : P} {calls : List ℕ} {thrown : Option ℕ}
      → IsRange p
      → ParallelFor d throws p calls thrown
      → Covers throws (begin p) (finish p) calls thrown
  ParallelFor-Covers r (inline t {p} empty) =
      Covers-cast
        (for_each-Covers throws (finish (split t p).0 - begin (split t p).0) (begin (split t p).0))
        (kept t p r).1 whole
    where
      whole : begin (split t p).0 + (finish (split t p).0 - begin (split t p).0) ≡ finish p
      whole = omega (arith, ordered (split t p).0 (kept t p r).0, given t p r, empty)
  ParallelFor-Covers r
        (spawned t {p} more {their_thrown = theirs} {our_thrown = ours} child rest mix) =
      Covers-cast
        (Covers-join throws (begin (split t p).0) (finish (split t p).0) (finish (split t p).1)
          (ordered (split t p).0 (kept t p r).0)
          (omega (arith, ordered (split t p).1 (given t p r).0, given t p r)) mix ours theirs
          (ParallelFor-Covers (kept t p r).0 rest)
          (Covers-cast (ParallelFor-Covers (given t p r).0 child) (given t p r).1 refl))
        (kept t p r).1 (given t p r).2

  -- `internal_parallel_for` ends, whichever threads make the splits: `choose` says which, for each
  -- partitioner. `calls` is one order of the calls, in which each task runs when it is waited for.
  pub ParallelFor-total :
      (choose : P → ℕ) (n : ℕ) (p : P)
      → IsRange p
      → finish p - begin p < n
      → (calls : List ℕ) × (thrown : Option ℕ) × ParallelFor d throws p calls thrown
  ParallelFor-total choose zero p r h = absurd (omega arith)
  ParallelFor-total choose (suc n) p r h =
      elim (ℕ_discrete (begin (split (choose p) p).1) (finish (split (choose p) p).1)) [
        | yes empty ↦ (_, _, inline (choose p) empty)
        | no more ↦
            let t = choose p in
            let (theirs, their_thrown, child) =
              ParallelFor-total choose n (split t p).1 (given t p r).0
                (omega (arith, shorter d n (choose p) p r h more)) in
            let (ours, our_thrown, rest) =
              ParallelFor-total choose n (split t p).0 (kept t p r).0
                (omega (arith, shorter d n (choose p) p r h more)) in
            (_, _, spawned t more child rest (Interleave-append ours theirs))
      ]
