-- ===== src/Prelude/Among.antt =====
-- How often a number is among the values of a function on a range of arguments.
use Prim.Native.Nat.{ℕ, zero, suc, ◌+◌, ◌≤◌, ◌<◌}
use mathlib.Core.Path.{◌≡◌, refl, ap, sym}
use mathlib.Core.Logic.{◌≢◌}
use mathlib.Core.Bool.{true, false}
use native.Mathlib.Omega.{arith}
use native.Mathlib.Decide.{ℕ_discrete}
use asyncplusplus.Prelude.Tests.{◌==◌, if◌then◌else◌}

-- 1 if the two are the same.
abbrev pub same : ℕ → ℕ → ℕ
same a b = if a == b then 1 else 0

pub same_self : (a : ℕ) → same a a ≡ 1
same_self a = ground arith

pub eq-true : {a b : ℕ} → a ≡ b → (a == b) ≡ true
eq-true e = ground arith

pub eq-false : {a b : ℕ} → a ≢ b → (a == b) ≡ false
eq-false ne = ground arith

-- How often `a` is among the values of `f` at the `n` arguments from `i` on.
unfoldable pub among : (ℕ → ℕ) → ℕ → ℕ → ℕ → ℕ
among f a zero i = 0
among f a (suc n) i = same a (f i) + among f a n (i + 1)

pub among-congr :
    (f g : ℕ → ℕ) (a n i : ℕ)
    → ((j : ℕ) → i ≤ j → j < i + n → f j ≡ g j)
    → among f a n i ≡ among g a n i
unfolding among
among-congr f g a zero i h = refl
among-congr f g a (suc n) i h = omega (
  arith,
  ap (same a) (h i (omega arith) (omega arith)),
  among-congr f g a n (i + 1) (λ j p q. h j (omega arith) (omega arith)),
)

pub among-last : (f : ℕ → ℕ) (a n i : ℕ) → among f a (suc n) i ≡ among f a n i + same a (f (i + n))
unfolding among
among-last f a zero i = omega (arith, ap (λ k. same a (f k)) {x = i + 0} {y = i} (omega arith))
among-last f a (suc n) i = omega (
  arith,
  among-last f a n (i + 1),
  ap (λ k. same a (f k)) {x = i + 1 + n} {y = i + suc n} (omega arith),
)

-- Another value at `k`.
pub among-change :
    (f g : ℕ → ℕ) (a k n i : ℕ)
    → i ≤ k
    → k < i + n
    → ((j : ℕ) → j ≢ k → j < i + n → f j ≡ g j)
    → among f a n i + same a (g k) ≡ among g a n i + same a (f k)
unfolding among
among-change f g a k zero i le lt h = absurd (omega arith)
among-change f g a k (suc n) i le lt h = elim (ℕ_discrete i k) [
  | yes e ↦ omega (
    arith,
    ap (λ j. same a (f j)) e,
    ap (λ j. same a (g j)) e,
    among-congr f g a n (i + 1) (λ j p q. h j (omega arith) (omega arith)),
  )
  | no ne ↦ omega (
    arith,
    ap (same a) (h i ne (omega arith)),
    among-change f g a k n (i + 1) (omega arith) (omega arith) (λ j p q. h j p (omega arith)),
  )
]

pub among-absent : (f : ℕ → ℕ) (a n i : ℕ) → ((j : ℕ) → j < i + n → f j ≢ a) → among f a n i ≡ 0
unfolding among
among-absent f a zero i h = refl
among-absent f a (suc n) i h =
    let ih = among-absent f a n (i + 1) (λ j p. h j (omega arith)) in
    let here = h i (omega arith) in ground (arith, ih, here)

pub among-one : (f : ℕ → ℕ) (d n i : ℕ) → i ≤ d → d < i + n → 1 ≤ among f (f d) n i
unfolding among
among-one f d zero i le lt = absurd (omega arith)
among-one f d (suc n) i le lt = elim (ℕ_discrete i d) [
  | yes here ↦ omega (arith, ap (λ k. same (f d) (f k)) here, same_self (f d))
  | no later ↦ omega (arith, among-one f d n (i + 1) (omega arith) (omega arith))
]

-- Where `f` has the value `a`, `g` has `b`.
pub among-le :
    (f g : ℕ → ℕ) (a b n i : ℕ)
    → ((j : ℕ) → i ≤ j → j < i + n → f j ≡ a → g j ≡ b)
    → among f a n i ≤ among g b n i
unfolding among
among-le f g a b zero i h = omega arith
among-le f g a b (suc n) i h =
    let rest = among-le f g a b n (i + 1) (λ j p q. h j (omega arith) (omega arith)) in
    elim (ℕ_discrete a (f i)) [
      | yes e ↦ let here = h i (omega arith) (omega arith) (sym e) in ground (arith, rest, here, e)
      | no ne ↦ ground (arith, rest, ne)
    ]
