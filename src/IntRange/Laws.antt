-- ===== src/IntRange/Laws.antt =====
-- A loop over an `int_range` ends and sees each of its integers once, in order.
use asyncplusplus.Prelude.{
  ℕ, zero, suc, ◌+◌, ◌-◌, ◌*◌, ◌%◌, ◌^◌, ◌≤◌, ◌<◌, ◌≡◌, ◌≢◌, refl, sym, ap, ◌∙◌, List, [], ◌∷◌,
  some, true, arith, dec_lt, ◌/◌, ==_iff, ◌↔◌,
}
use native.Mathlib.Nat.{
  mod-lt, mod-eq_of_lt, mod_self, mod-add-mod, add-mod-mod, add-mod_right, div-add-mod,
  add-mul-mod_self_left,
}
use asyncplusplus.Prelude.Among.{eq-true, eq-false}
use asyncplusplus.IntRange.{
  Iterator, begin, end, irange, deref, index, increment, decrement, plus, minus, difference, equal,
  traverse,
}

-- `n` integers from `a` on.
unfoldable pub count_up : ℕ → ℕ → List ℕ
count_up zero a = []
count_up (suc n) a = a ∷ count_up n (a + 1)

-- Words modulo `m`.
module _ (m x : ℕ) (lt : x < m) where
  wrapped : (x + m) % m ≡ x
  wrapped = add-mod_right x m ∙ mod-eq_of_lt lt

  there_back : (k : ℕ) → ((x + k) % m + m - k % m) % m ≡ x
  there_back k =
      let r = mod-lt k {m = m} (omega arith) in
      ap (λ z. z % m) {x = (x + k) % m + m - k % m} {y = (x + k) % m + (m - k % m)} (omega arith)
      ∙ mod-add-mod (x + k) m (m - k % m)
      ∙ ap (λ z. z % m) {x = x + k + (m - k % m)} {y = x + m + m * (k / m)}
          (omega (arith, r, div-add-mod k m))
      ∙ add-mul-mod_self_left (x + m) m (k / m)
      ∙ wrapped

  step_back : ((x + 1) % m + m - 1) % m ≡ x
  step_back =
      ap (λ z. z % m) {x = (x + 1) % m + m - 1} {y = (x + 1) % m + (m - 1)} (omega arith)
      ∙ mod-add-mod (x + 1) m (m - 1)
      ∙ ap (λ z. z % m) {x = x + 1 + (m - 1)} {y = x + m} (omega arith)
      ∙ wrapped

  by_difference : (y : ℕ) → y < m → (y + (x + m - y) % m) % m ≡ x
  by_difference y lt' =
      add-mod-mod y (x + m - y) m
      ∙ ap (λ z. z % m) {x = y + (x + m - y)} {y = x + m} (omega arith)
      ∙ wrapped

  no_difference : (y : ℕ) → y < m → (x + m - y) % m ≡ 0 → x ≡ y
  no_difference y lt' e = elim (dec_lt x y) [
    | yes below ↦ absurd (omega (arith, e, mod-eq_of_lt {n = x + m - y} {m = m} (omega arith)))
    | no above ↦ omega (
      arith,
      e,
      ap (λ z. z % m) {x = x + m - y} {y = x - y + m} (omega arith),
      add-mod_right (x - y) m,
      mod-eq_of_lt {n = x - y} {m = m} (omega arith),
    )
  ]

  itself : (x + m - x) % m ≡ 0
  itself = ap (λ z. z % m) {x = x + m - x} {y = m} (omega arith) ∙ mod_self m

module _ (w : ℕ) where
  traverse_from :
      (n fuel a b : ℕ)
      → a + n ≡ b
      → b < 2 ^ w
      → n < fuel
      → traverse w fuel (record { current = a }) (record { current = b }) ≡ some (count_up n a)
  unfolding count_up traverse
  traverse_from n zero a b e small lt = absurd (omega arith)
  traverse_from zero (suc fuel) a b e small lt =
      let same : a ≡ b = omega arith in rw (traverse, eq-true same) refl
  traverse_from (suc n) (suc fuel) a b e small lt =
      let ne : a ≢ b = (λ z. omega arith) in
      let next : (a + 1) % 2 ^ w ≡ a + 1 = grind arith in
      rw
        (
          traverse,
          eq-false ne,
          next,
          traverse_from n fuel (a + 1) b (omega arith) small (omega arith),
        )
        refl

  -- From its begin to its end, one after the other.
  pub traverse_lem :
      (a b : ℕ)
      → a ≤ b
      → b < 2 ^ w
      → traverse w (suc (b - a)) (begin (irange a b)) (end (irange a b)) ≡ some (count_up (b - a) a)
  traverse_lem a b le small =
      traverse_from (b - a) (suc (b - a)) a b (omega arith) small (omega arith)

  -- The iterators obey the laws of random access: moving by an offset and back, by the difference of
  -- two iterators, and one step at a time; a subscript is the integer at the iterator moved there.
  pub random_access :
      (i j : Iterator) (k : ℕ)
      → i.current < 2 ^ w
      → j.current < 2 ^ w
      → (minus w (plus w i k) k ≡ i)
        × (plus w i (difference w j i) ≡ j)
        × (decrement w (increment w i) ≡ i)
        × (increment w (plus w i k) ≡ plus w i (k + 1))
        × (index w i k ≡ deref (plus w i k))
        × ((difference w i j ≡ 0) ↔ (equal i j ≡ true))
  random_access i j k hi hj =
      let m = 2 ^ w in
      (
        ap at (there_back m i.current hi k),
        ap at (by_difference m j.current hj i.current hi),
        ap at (step_back m i.current hi),
        ap at (
            mod-add-mod (i.current + k) m 1
            ∙ ap (λ z. z % m) {x = i.current + k + 1} {y = i.current + (k + 1)} (omega arith)),
        refl,
        (
          λ e. eq-true (no_difference m i.current hi j.current hj e),
          λ e.
              ap (λ z. (i.current + m - z) % m) (sym ((==_iff i.current j.current).0 e))
              ∙ itself m i.current hi,
        ),
      )
    where
      at : ℕ → Iterator
      at c = record { current = c }
