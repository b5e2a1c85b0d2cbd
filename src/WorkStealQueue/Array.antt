-- ===== src/WorkStealQueue/Array.antt =====
-- `circular_array` of src/work_steal_queue.h. Slots are `void*`: numbers, 0 the null pointer.
use asyncplusplus.Prelude.{
  ℕ, zero, suc, ◌+◌, ◌-◌, ◌*◌, ◌%◌, ◌^◌, ◌≤◌, ◌<◌, ◌≡◌, ◌≢◌, refl, sym, ap, ◌∙◌, List, get_or, set,
  length, length-set, get_or-set_self, get_or-set_ne, arith, ℕ_discrete,
}
use native.Mathlib.Nat.{mod-lt, pow-suc}
use asyncplusplus.Word.{add_size, sub_size, mask, IsPow2, IsPow2-pos, mask-mod}

unfoldable pub get : List ℕ → ℕ → ℕ
get items index = get_or items (mask (length items) index) 0

unfoldable pub put : List ℕ → ℕ → ℕ → List ℕ
put items index x = set items (mask (length items) index) x

-- The loop of `grow`, `rounds` iterations before its end, storing into the new array.
unfoldable pub copy_range : List ℕ → ℕ → ℕ → List ℕ → List ℕ
unfolding get put
copy_range items zero i new = new
copy_range items (suc rounds) i new =
    copy_range items rounds (add_size i 1) (put new i (get items i))

-- `grow`, given the storage of the new array; the loop ends when the index has come round from
-- `top` to `bottom`.
unfoldable pub grow : List ℕ → ℕ → ℕ → List ℕ → List ℕ
unfolding copy_range
grow items top bottom new = copy_range items (sub_size bottom top) top new

pub record IsArray (items : List ℕ) : Type 0 where
  pub pow2 : IsPow2 (length items)
  pub small : length items ≤ 2 ^ 60

pub length-put : (items : List ℕ) (i x : ℕ) → length (put items i x) ≡ length items
unfolding put
length-put items i x = length-set items _ x

pub put-IsArray : {items : List ℕ} (i x : ℕ) → IsArray items → IsArray (put items i x)
put-IsArray {items} i x v = record {
  pow2 = (v.pow2.0, length-put items i x ∙ v.pow2.1);
  small = omega (arith, length-put items i x, v.small);
}

-- Two indices less than a size apart have different slots.
mod_apart : (n i j : ℕ) → i < j → j - i < n → i % n ≢ j % n
mod_apart n i j lt near e = grind (arith, e)

module _ {items : List ℕ} (v : IsArray items) where
  mask_lem : (i : ℕ) → mask (length items) i ≡ i % length items
  mask_lem i = mask-mod (length items) i v.pow2 (omega (arith, v.small))

  in_range : (i : ℕ) → mask (length items) i < length items
  in_range i =
      omega (arith, mask_lem i, mod-lt i {m = length items} (IsPow2-pos (length items) v.pow2))

  pub get-put_self : (i x : ℕ) → get (put items i x) i ≡ x
  unfolding get put
  get-put_self i x =
      rw (length-set items (mask (length items) i) x) (get_or-set_self items _ x 0 (in_range i))

  pub get-put_before :
      (i j x : ℕ) → i < j → j - i < length items → get (put items j x) i ≡ get items i
  unfolding get put
  get-put_before i j x lt near = rw (length-set items (mask (length items) j) x) (
      get_or-set_ne items _ _ x 0
        (λ e. mod_apart (length items) i j lt near (sym (mask_lem i) ∙ sym e ∙ mask_lem j)))

  pub get-put_after :
      (i j x : ℕ) → j < i → i - j < length items → get (put items j x) i ≡ get items i
  unfolding get put
  get-put_after i j x lt near = rw (length-set items (mask (length items) j) x) (
      get_or-set_ne items _ _ x 0
        (λ e. mod_apart (length items) j i lt near (sym (mask_lem j) ∙ e ∙ mask_lem i)))

-- Copying leaves an index before the range alone, if the range does not come round to it.
copy_range_before :
    (items : List ℕ) (rounds j : ℕ) {new : List ℕ} (i : ℕ)
    → IsArray new
    → i < j
    → j + rounds ≤ i + length new
    → j + rounds < 2 ^ 64
    → get (copy_range items rounds j new) i ≡ get new i
unfolding copy_range
copy_range_before items zero j i v lt fits small = refl
copy_range_before items (suc rounds) j {new} i v lt fits small =
    copy_range_before items rounds (add_size j 1) i (put-IsArray j (get items j) v) (omega arith)
      (omega (arith, length-put new j (get items j))) (omega arith)
    ∙ get-put_before v i j (get items j) lt (omega arith)

-- Copying fills the range.
copy_range_at :
    (items : List ℕ) (rounds j : ℕ) {new : List ℕ} (i : ℕ)
    → IsArray new
    → j ≤ i
    → i < j + rounds
    → rounds ≤ length new
    → j + rounds < 2 ^ 64
    → get (copy_range items rounds j new) i ≡ get items i
unfolding copy_range
copy_range_at items zero j i v le lt fits small = absurd (omega arith)
copy_range_at items (suc rounds) j {new} i v le lt fits small = elim (ℕ_discrete j i) [
  | yes e ↦ rw (← e) (
      copy_range_before items rounds (add_size j 1) j (put-IsArray j (get items j) v) (omega arith)
        (omega (arith, length-put new j (get items j))) (omega arith)
      ∙ get-put_self v j (get items j))
  | no ne ↦
      copy_range_at items rounds (add_size j 1) i (put-IsArray j (get items j) v) (omega arith)
        (omega arith) (omega (arith, length-put new j (get items j))) (omega arith)
]

length-copy_range :
    (items : List ℕ) (rounds j : ℕ) (new : List ℕ)
    → length (copy_range items rounds j new) ≡ length new
unfolding copy_range
length-copy_range items zero j new = refl
length-copy_range items (suc rounds) j new =
    length-copy_range items rounds (add_size j 1) _ ∙ length-put new j (get items j)

double-IsPow2 : (n m : ℕ) → IsPow2 n → m ≡ n * 2 → IsPow2 m
double-IsPow2 n m (k, p) e = (suc k, e ∙ ap (λ n. n * 2) p ∙ sym (pow-suc 2 k))

module _ {items : List ℕ} (v : IsArray items) (t b : ℕ) (new : List ℕ)
    (double : length new ≡ length items * 2) where
  pub length-grow : length (grow items t b new) ≡ length items * 2
  unfolding grow
  length-grow = length-copy_range items (sub_size b t) t new ∙ double

  pub grow-IsArray : length new ≤ 2 ^ 60 → IsArray (grow items t b new)
  grow-IsArray room = record {
    pow2 = double-IsPow2 (length items) _ v.pow2 length-grow;
    small = omega (arith, length-grow, double);
  }

  -- The new array has the old elements between `top` and `bottom`.
  pub get-grow :
      length new ≤ 2 ^ 60
      → b < 2 ^ 62
      → b - t ≤ length new
      → (i : ℕ) → t ≤ i
      → i < b
      → get (grow items t b new) i ≡ get items i
  unfolding grow
  get-grow room hb fits i le lt =
      copy_range_at items (sub_size b t) t i
        (record { pow2 = double-IsPow2 (length items) _ v.pow2 double; small = room }) le
        (omega arith) (omega arith) (omega arith)
