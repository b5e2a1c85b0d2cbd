-- ===== src/Parallel/Interleave.antt =====
-- The order in which the calls of two tasks that run in parallel can happen.
use asyncplusplus.Prelude.{ℕ, ◌+◌, ◌≡◌, refl, List, [], ◌∷◌, ◌++◌, arith}
use asyncplusplus.Prelude.Count.{count}

pub data Interleave : List ℕ → List ℕ → List ℕ → Type 0 where
  done : Interleave [] [] []
  first : {x : ℕ} {xs ys zs : List ℕ} → Interleave xs ys zs → Interleave (x ∷ xs) ys (x ∷ zs)
  second : {y : ℕ} {xs ys zs : List ℕ} → Interleave xs ys zs → Interleave xs (y ∷ ys) (y ∷ zs)

pub Interleave-count :
    (a : ℕ) {xs ys zs : List ℕ} → Interleave xs ys zs → count a zs ≡ count a xs + count a ys
unfolding count
Interleave-count a done = refl
Interleave-count a (first i) = omega (arith, Interleave-count a i)
Interleave-count a (second i) = omega (arith, Interleave-count a i)

-- One task after the other is one of the orders.
pub Interleave-append : (xs ys : List ℕ) → Interleave xs ys (xs ++ ys)
Interleave-append [] [] = done
Interleave-append [] (y ∷ ys) = second (Interleave-append [] ys)
Interleave-append (x ∷ xs) ys = first (Interleave-append xs ys)
