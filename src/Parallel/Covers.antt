-- ===== src/Parallel/Covers.antt =====
-- The calls that two tasks make over two halves of a range, and the exception that comes out.
use asyncplusplus.Prelude.{
  ℕ, ◌+◌, ◌≤◌, ◌≡◌, refl, List, [], ◌∷◌, Option, none, some, Bool, true, false, if◌then◌else◌,
  arith, Bool-cases, inl, inr, ℕ_discrete, ap, ◌∙◌,
}
use mathlib.Core.Path.{subst₂}
use asyncplusplus.Prelude.Count.{count}
use asyncplusplus.Parallel.Interleave.{Interleave, Interleave-count}
use asyncplusplus.Prelude.Ranges.{inside, inside-split, inside-le}

-- The exception of the half that runs here goes first: the other task is then only waited for.
abbrev pub join : Option ℕ → Option ℕ → Option ℕ
join (some e) other = some e
join none other = other

-- What the calls over the positions from `b` up to `e` amount to.
pub record Covers (throws : ℕ → Bool) (b e : ℕ) (calls : List ℕ) (thrown : Option ℕ) : Type 0 where
  -- No position is called twice, and none outside of the range.
  pub most : (i : ℕ) → count i calls ≤ inside b e i
  -- If no exception comes out, each position was called, and no call threw.
  pub all : thrown ≡ none → (i : ℕ) → count i calls ≡ inside b e i
  pub clean : thrown ≡ none → (i : ℕ) → inside b e i ≡ 1 → throws i ≡ false
  -- An exception that comes out is that of a call in the range.
  pub blame : (x : ℕ) → thrown ≡ some x → (throws x ≡ true) × (inside b e x ≡ 1)

pub Covers-cast :
    {throws : ℕ → Bool} {b b' e e' : ℕ} {calls : List ℕ} {thrown : Option ℕ}
    → Covers throws b e calls thrown
    → b ≡ b'
    → e ≡ e'
    → Covers throws b' e' calls thrown
Covers-cast {throws} {calls = calls} {thrown = thrown} c p q =
    subst₂ (λ x y. Covers throws x y calls thrown) p q c

module _ (throws : ℕ → Bool) (b m e : ℕ) {ours theirs calls : List ℕ} (bm : b ≤ m) (me : m ≤ e)
    (mix : Interleave ours theirs calls) where
  halves :
      (j : ℕ)
      → (inside b e j ≡ inside b m j + inside m e j)
        × (count j calls ≡ count j ours + count j theirs)
  halves j = (inside-split b m e j bm me, Interleave-count j mix)

  pub Covers-join :
      (our_thrown their_thrown : Option ℕ)
      → Covers throws b m ours our_thrown
      → Covers throws m e theirs their_thrown
      → Covers throws b e calls (join our_thrown their_thrown)
  Covers-join (some x) their_thrown o t = record {
    most = λ j. omega (arith, halves j, o.most j, t.most j);
    all = λ p j. absurd (cc p);
    clean = λ p j h. absurd (cc p);
    blame = λ y p.
        let (bad, here) = o.blame y p in (bad, omega (arith, halves y, here, inside-le b e y));
  }
  Covers-join none their_thrown o t = record {
    most = λ j. omega (arith, halves j, o.most j, t.most j);
    all = λ p j. omega (arith, halves j, o.all refl j, t.all p j);
    clean = λ p j h. elim (ℕ_discrete (inside b m j) 1) [
      | yes first_half ↦ o.clean refl j first_half
      | no other ↦ t.clean p j (omega (arith, halves j, h, inside-le b m j))
    ];
    blame = λ y p.
        let (bad, here) = t.blame y p in (bad, omega (arith, halves y, here, inside-le b e y));
  }

-- No call covers the empty range, and one call covers a range of one.
pub Covers-none : (throws : ℕ → Bool) (b : ℕ) → Covers throws b (b + 0) [] none
unfolding count inside
Covers-none throws b = record {
  most = λ i. omega arith;
  all = λ p i. ground arith;
  clean = λ p i h. ground arith;
  blame = λ x p. absurd (cc p);
}

pub Covers-one :
    (throws : ℕ → Bool) (b : ℕ)
    → Covers throws b (b + 1) (b ∷ []) (if throws b then some b else none)
unfolding count inside
Covers-one throws b = elim (Bool-cases (throws b)) [
  | inl bad ↦ rw bad record {
    most = λ i. ground arith;
    all = λ p i. absurd (cc p);
    clean = λ p i h. absurd (cc p);
    blame = λ x p. ground arith;
  }
  | inr good ↦ rw good record {
    most = λ i. ground arith;
    all = λ p i. ground arith;
    clean = λ p i h. elim (ℕ_discrete i b) [
      | yes same ↦ ap throws same ∙ good
      | no ne ↦ absurd (ground arith)
    ];
    blame = λ x p. absurd (cc p);
  }
]
