-- ===== src/FifoQueue/Inv.antt =====
-- The representation invariant of the queue, and what the operations do to the raw fields.
use asyncplusplus.Prelude.{
  ℕ, zero, suc, ◌+◌, ◌-◌, ◌%◌, ◌^◌, ◌*◌, ◌≤◌, ◌<◌, ◌≡◌, refl, ap, ◌∙◌, List, get_or, set, length,
  length-set, get_or-set_self, get_or-set_ne, arith, ℕ_discrete, sym, Bool-cases, inl, inr, ◌==◌,
}
use native.Mathlib.Nat.{pow-suc}
use asyncplusplus.Word.{add_size, mask, IsPow2, IsPow2-pos, mask-mod}
use asyncplusplus.FifoQueue.{FifoQueue, copy_items, resize, put, pop}

-- The mask is a remainder, both indices are in range, and sizes stay clear of the wrap-around.
pub record IsValid (q : FifoQueue) : Type 0 where
  pub pow2 : IsPow2 (length q.items)
  pub small : length q.items ≤ 2 ^ 60
  pub head_in : q.head < length q.items
  pub tail_in : q.tail < length q.items

-- How many tasks wait.
abbrev pub count : FifoQueue → ℕ
count q = (q.tail + length q.items - q.head) % length q.items

pub length-copy_items :
    (items : List ℕ) (head rounds i : ℕ) (new : List ℕ)
    → length (copy_items items head rounds i new) ≡ length new
unfolding copy_items
length-copy_items items head zero i new = refl
length-copy_items items head (suc rounds) i new =
    length-copy_items items head rounds (add_size i 1) _ ∙ length-set new i _

-- The copy loop leaves the slots before its index alone, ...
pub copy_items_before :
    (items : List ℕ) (head rounds i : ℕ) (new : List ℕ) (j : ℕ)
    → j < i
    → i + rounds < 2 ^ 64
    → get_or (copy_items items head rounds i new) j 0 ≡ get_or new j 0
unfolding copy_items
copy_items_before items head zero i new j lt small = refl
copy_items_before items head (suc rounds) i new j lt small =
    copy_items_before items head rounds (add_size i 1) _ j (omega arith) (omega arith)
    ∙ get_or-set_ne new i j _ 0 (omega arith)

-- ... and fills the others from the circle.
pub copy_items_at :
    (items : List ℕ) (head rounds i : ℕ) (new : List ℕ) (j : ℕ)
    → i ≤ j
    → j < i + rounds
    → i + rounds ≤ length new
    → length new < 2 ^ 64
    → get_or (copy_items items head rounds i new) j 0
      ≡ get_or items (mask (length items) (add_size j head)) 0
unfolding copy_items
copy_items_at items head zero i new j le lt room small = absurd (omega arith)
copy_items_at items head (suc rounds) i new j le lt room small = elim (ℕ_discrete i j) [
  | yes e ↦ rw (← e) (
      copy_items_before items head rounds (add_size i 1) _ i (omega arith) (omega arith)
      ∙ get_or-set_self new i _ 0 (omega arith))
  | no ne ↦
      copy_items_at items head rounds (add_size i 1) _ j (omega arith) (omega arith)
        (omega (arith, length-set new i (get_or items (mask (length items) (add_size i head)) 0)))
        (omega (arith, length-set new i (get_or items (mask (length items) (add_size i head)) 0)))
]

module _ {q : FifoQueue} (v : IsValid q) where
  pub mask_lem : (i : ℕ) → mask (length q.items) i ≡ i % length q.items
  mask_lem i = mask-mod (length q.items) i v.pow2 (omega (arith, v.small))

  pub next_lem :
      (i : ℕ) → i < length q.items → mask (length q.items) (add_size i 1) ≡ (i + 1) % length q.items
  next_lem i lt = mask_lem (add_size i 1) ∙ ap (λ k. k % length q.items) (omega (arith, v.small))

  pub put-IsValid : (t : ℕ) → IsValid (put q t)
  unfolding put
  put-IsValid t = record {
    pow2 = (v.pow2.0, same ∙ v.pow2.1);
    small = omega (arith, same, v.small);
    head_in = omega (arith, same, v.head_in);
    tail_in = omega (arith, same, next_lem q.tail v.tail_in, v.tail_in);
  }
    where
      same : length (set q.items q.tail t) ≡ length q.items
      same = length-set q.items q.tail t

  pub pop-IsValid : IsValid (pop q).1
  unfolding pop
  pop-IsValid = elim (Bool-cases (q.head == q.tail)) [
    | inl e ↦ rw e v
    | inr e ↦ rw e record {
      pow2 = v.pow2;
      small = v.small;
      head_in = omega (arith, next_lem q.head v.head_in, v.head_in);
      tail_in = v.tail_in;
    }
  ]

  pub resize-IsValid :
      (xs : List ℕ) → length xs ≡ length q.items * 2 → length xs ≤ 2 ^ 60 → IsValid (resize q xs)
  unfolding resize
  resize-IsValid xs len room = record {
    pow2 = (suc v.pow2.0, same ∙ len ∙ ap (λ n. n * 2) v.pow2.1 ∙ sym (pow-suc 2 v.pow2.0));
    small = omega (arith, same);
    head_in = omega (arith, same, IsPow2-pos (length q.items) v.pow2, v.small);
    tail_in = omega (arith, same, IsPow2-pos (length q.items) v.pow2, v.small);
  }
    where
      same : length (copy_items q.items q.head (length q.items) 0 xs) ≡ length xs
      same = length-copy_items q.items q.head (length q.items) 0 xs
