-- ===== src/Prelude/Segment.antt =====
-- The values of a function at consecutive indices, as a list: how the queues read their storage.
use Prim.Native.Nat.{ℕ, zero, suc, ◌+◌, ◌-◌, ◌≤◌, ◌<◌}
use mathlib.Core.Path.{◌≡◌, refl, ap, ap₂, ◌∙◌}
use mathlib.Core.List.{List, [], ◌∷◌, ◌++◌}
use native.Mathlib.Omega.{arith}
use native.Mathlib.Nat.{add-zero}
use asyncplusplus.Prelude.Lists.{length}

shift : (s k : ℕ) → s + 1 + k ≡ s + suc k
shift s k = omega arith

module _ {ℓ} {A : Type ℓ} where
  unfoldable pub segment : (ℕ → A) → ℕ → ℕ → List A
  segment f s zero = []
  segment f s (suc n) = f s ∷ segment f (s + 1) n

  pub length-segment : (f : ℕ → A) (s n : ℕ) → length (segment f s n) ≡ n
  unfolding segment
  length-segment f s zero = refl
  length-segment f s (suc n) = ap suc (length-segment f (s + 1) n)

  -- Segments agree where the functions agree, index by index.
  pub segment-congr :
      (f g : ℕ → A) (s t n : ℕ)
      → ((k : ℕ) → k < n → f (s + k) ≡ g (t + k))
      → segment f s n ≡ segment g t n
  unfolding segment
  segment-congr f g s t zero h = refl
  segment-congr f g s t (suc n) h =
      ap₂ ◌∷◌ (simp add-zero at (h 0 (omega arith)))
        (segment-congr f g (s + 1) (t + 1) n (λ k lt. simp shift (h (suc k) (omega arith))))

  pub segment-snoc : (f : ℕ → A) (s n : ℕ) → segment f s (suc n) ≡ segment f s n ++ (f (s + n) ∷ [])
  unfolding segment
  segment-snoc f s zero = simp add-zero
  segment-snoc f s (suc n) = ap (◌∷◌ (f s)) (rw (segment-snoc f (s + 1) n, shift))

  -- The segment from `s` up to `e`, at its two ends.
  pub segment-none : (f : ℕ → A) (s e : ℕ) → e ≤ s → segment f s (e - s) ≡ []
  unfolding segment
  segment-none f s e le = ap (segment f s) {y = 0} (omega arith)

  pub segment-last :
      (f : ℕ → A) (s e : ℕ) → s ≤ e → segment f s (suc e - s) ≡ segment f s (e - s) ++ (f e ∷ [])
  segment-last f s e le =
      ap (segment f s) (omega arith)
      ∙ segment-snoc f s (e - s)
      ∙ ap (λ k. segment f s (e - s) ++ (f k ∷ [])) (omega arith)

  pub segment-first :
      (f : ℕ → A) (s e : ℕ) → s < e → segment f s (e - s) ≡ f s ∷ segment f (s + 1) (e - (s + 1))
  unfolding segment
  segment-first f s e lt = ap (segment f s) {y = suc (e - (s + 1))} (omega arith)

  -- Two functions that agree from `s` up to `e`.
  pub segment-same :
      (f g : ℕ → A) (s e : ℕ)
      → ((i : ℕ) → s ≤ i → i < e → f i ≡ g i)
      → segment f s (e - s) ≡ segment g s (e - s)
  segment-same f g s e h =
      segment-congr f g s s (e - s) (λ k lt. h (s + k) (omega arith) (omega arith))
