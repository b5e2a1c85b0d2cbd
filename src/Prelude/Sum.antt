-- ===== src/Prelude/Sum.antt =====
-- Sums over lists, over lists of lists, and over the numbers below a bound.
use Prim.Native.Nat.{ℕ, zero, suc, ◌+◌, ◌≤◌, ◌<◌}
use mathlib.Core.Path.{◌≡◌, refl, ap}
use mathlib.Core.Logic.{◌≢◌}
use mathlib.Core.List.{List, [], ◌∷◌, ◌++◌}
use native.Mathlib.Omega.{arith}
use native.Mathlib.Decide.{ℕ_discrete}

module _ {ℓ} {A : Type ℓ} where
  abbrev pub sum : (A → ℕ) → List A → ℕ
  sum f [] = 0
  sum f (x ∷ xs) = f x + sum f xs

  pub sum-append : (f : A → ℕ) (xs ys : List A) → sum f (xs ++ ys) ≡ sum f xs + sum f ys
  sum-append f [] ys = omega arith
  sum-append f (x ∷ xs) ys = omega (arith, sum-append f xs ys)

  -- The middle of a list is replaced.
  pub sum-middle :
      (f : A → ℕ) (before xs after : List A)
      → sum f (before ++ (xs ++ after)) ≡ sum f before + sum f xs + sum f after
  sum-middle f before xs after =
      omega (arith, sum-append f before (xs ++ after), sum-append f xs after)

unfoldable pub sum_to : (ℕ → ℕ) → ℕ → ℕ
sum_to f zero = 0
sum_to f (suc n) = sum_to f n + f n

pub sum_to-congr : (f g : ℕ → ℕ) (n : ℕ) → ((i : ℕ) → i < n → f i ≡ g i) → sum_to f n ≡ sum_to g n
unfolding sum_to
sum_to-congr f g zero h = refl
sum_to-congr f g (suc n) h =
    omega (arith, sum_to-congr f g n (λ i p. h i (omega arith)), h n (omega arith))

pub sum_to-none : (n : ℕ) → sum_to (λ c. 0) n ≡ 0
unfolding sum_to
sum_to-none zero = refl
sum_to-none (suc n) = omega (arith, sum_to-none n)

-- One term is replaced.
pub sum_to-change :
    (f g : ℕ → ℕ) (k n : ℕ)
    → k < n
    → ((i : ℕ) → i ≢ k → g i ≡ f i)
    → sum_to g n + f k ≡ sum_to f n + g k
unfolding sum_to
sum_to-change f g k zero lt h = absurd (omega arith)
sum_to-change f g k (suc n) lt h = elim (ℕ_discrete k n) [
  | yes e ↦ omega (arith, sum_to-congr g f n (λ i p. h i (omega arith)), ap f e, ap g e)
  | no ne ↦ omega (arith, sum_to-change f g k n (omega arith) h, h n (λ e. omega arith))
]

pub sum_to-zero : (f : ℕ → ℕ) (n k : ℕ) → sum_to f n ≡ 0 → k < n → f k ≡ 0
unfolding sum_to
sum_to-zero f zero k e lt = absurd (omega arith)
sum_to-zero f (suc n) k e lt = elim (ℕ_discrete k n) [
  | yes q ↦ omega (arith, ap f q)
  | no ne ↦ sum_to-zero f n k (omega arith) (omega arith)
]

-- A sum that is positive has a positive term.
pub sum_to-positive : (f : ℕ → ℕ) (n : ℕ) → 0 < sum_to f n → (k : ℕ) × (k < n) × (0 < f k)
unfolding sum_to
sum_to-positive f zero h = absurd (omega arith)
sum_to-positive f (suc n) h = elim (ℕ_discrete (f n) 0) [
  | yes e ↦ let (k, lt, pos) = sum_to-positive f n (omega arith) in (k, omega arith, pos)
  | no ne ↦ (n, omega arith, omega arith)
]

pub sum_to-add : (f g : ℕ → ℕ) (n : ℕ) → sum_to (λ i. f i + g i) n ≡ sum_to f n + sum_to g n
unfolding sum_to
sum_to-add f g zero = refl
sum_to-add f g (suc n) = omega (arith, sum_to-add f g n)

-- At most one at each place below `n`, and none at one of them.
pub sum_to-lt :
    (f : ℕ → ℕ) (n k : ℕ)
    → ((i : ℕ) → i < n → f i ≤ 1)
    → (sum_to f n ≤ n) × (k < n → f k ≡ 0 → sum_to f n < n)
unfolding sum_to
sum_to-lt f zero k h = (omega arith, λ lt e. absurd (omega arith))
sum_to-lt f (suc n) k h =
    let (le, lt) = sum_to-lt f n k (λ i p. h i (omega arith)) in
    let last = h n (omega arith) in
    (
      omega (arith, le, last),
      λ below e. elim (ℕ_discrete k n) [
        | yes q ↦ omega (arith, le, ap f q, e)
        | no ne ↦ omega (arith, lt (omega (arith, below, ne)) e, last)
      ],
    )
